-- ===== src/Lib.antt =====
-- Nachos: a simulated machine, a small kernel on it, and a file system, as in code/.
--
-- The parts, and the files that model them:
--
-- Prelude: tests on numbers, lists over the native numbers, Option as the result of code that may
-- fault (`none` is a failed ASSERT or an access outside an array), the integers, and the bits of a
-- number.
--
-- Bitmap: BitMap of code/userprog/bitmap.cc. The state is the fields of the class; the words are
-- numbers below 2 ^ 32 and the masks are the native bit operations. Its client is
-- the allocation of sectors.
--
-- FileHeader: FileHeader of code/filesys/filehdr.cc, a client of BitMap: Allocate, Deallocate,
-- ByteToSector and FileLength. The sector table has 30 entries, and an index outside it is a fault.
--
-- Directory: Directory of code/filesys/directory.cc. A name is what the buffer of a C string holds;
-- strncmp and strncpy go over its first nine characters.
--
-- Machine: the state of code/machine/machine.h, its registers, Machine::Translate, ReadMem and
-- WriteMem of code/machine/translate.cc and RaiseException of code/machine/machine.cc. An int is its
-- 32-bit pattern. The kernel's ExceptionHandler is an argument, with `none` for not returning.
--
-- Cpu: code/machine/mipssim.cc. `Decode` is Instruction::Decode with the tables of mipssim.h
-- (`Opcodes`), `Mult` the multiplier, `Alu`, `Branch` and `LoadStore` the cases of the switch of
-- Machine::OneInstruction, and `Execute` the switch and the function. A case ends in an `Outcome`:
-- by break, with the variables pcAfter, nextLoadReg and nextLoadValue, or by return.
--
-- LinkedList: code/threads/list.cc on an explicit heap of elements, where a pointer is the address of
-- an element or NULL. The address that `new` returns is an argument.
--
-- Interrupt: Interrupt of code/machine/interrupt.cc with the clock and counters of
-- code/machine/stats.h. The state is the fields of the class, the statistics, the machine if there is
-- one, and the rest of the world, which the handlers of interrupts change. Handlers and Yield are
-- arguments (`Served` says what it is to run the handlers that are due); `none` is a failed ASSERT. Halt ends the process: Idle returns false.
--
-- Kernel: Scheduler, Thread and Semaphore of code/threads/scheduler.cc, thread.cc and synch.cc on one
-- processor (`Defs`). Threads and semaphores are numbers. A thread that calls Run stops there, and
-- `point` says what it does when Run returns to it. `Calls` is what threads and interrupt
-- handlers may call, one call after another; `resume` is the rest of an operation after a switch. The
-- value of a semaphore is an int, as its 32-bit pattern. `Locks` adds to a run who holds a lock.
--
-- Disk: Disk of code/machine/disk.cc and SynchDisk of code/filesys/synchdisk.cc. The UNIX file that has
-- the contents is an argument, with the law that a read gives what was written last. A request takes
-- the clock, which it narrows to an int where the source does, and gives the ticks until its interrupt.
--
-- OpenFile: OpenFile of code/filesys/openfile.cc, a client of FileHeader and Disk. An array of bytes is a
-- size and a function; bcopy outside an array is a fault.
--
-- AddrSpace: AddrSpace of code/userprog/addrspace.cc, a client of Machine. The executable is given as its
-- bytes.
--
-- UserThread: the static variables and functions of code/userprog/userthread.cc, a client of BitMap,
-- AddrSpace and Machine.
--
-- Loops: a loop with a counter has its rounds left as the structural argument (the number of bits, of
-- sectors, of table entries, 32 for the multiplier). The loops of SortedInsert and
-- of the destructor of List follow pointers; they take a bound on their rounds, for which the length of
-- the list, and one more for the destructor, is enough. The loop of OneTick and that of Idle take a
-- bound too; the number of pending interrupts and one more is enough, if handlers schedule nothing that
-- is due at once.
--
-- The code is modelled as it is built with CHANGED defined, on a little-endian host.
--
-- Not modelled: printing and debugging output, the host's files, signals and sockets, the rest of the
-- start-up code, the tests, and the tools of code/bin. Stacks of threads and the assembly context
-- switch are left out of Kernel. SynchList needs Condition, whose constructor is ASSERT (FALSE).
-- The opening of files, the file system as a whole, system calls, consoles and the network have
-- no model here.
pub mod Prelude
pub mod Bitmap
pub mod FileHeader
pub mod Directory
pub mod Machine
pub mod Cpu
pub mod LinkedList
pub mod Interrupt
pub mod Kernel
pub mod Disk
pub mod OpenFile
pub mod AddrSpace
pub mod UserThread
