-- ===== src/Machine/Reg.antt =====
-- Numbers of the special registers of code/machine/machine.h.
use os_td_minf.Prelude.{ℕ}

abbrev pub stack : ℕ
stack = 29

abbrev pub ret_addr : ℕ
ret_addr = 31

abbrev pub hi : ℕ
hi = 32

abbrev pub lo : ℕ
lo = 33

abbrev pub pc : ℕ
pc = 34

abbrev pub next_pc : ℕ
next_pc = 35

abbrev pub prev_pc : ℕ
prev_pc = 36

abbrev pub load : ℕ
load = 37

abbrev pub load_value : ℕ
load_value = 38

abbrev pub bad_vaddr : ℕ
bad_vaddr = 39
