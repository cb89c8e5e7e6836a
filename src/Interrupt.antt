-- ===== src/Interrupt.antt =====
-- Simulated time and interrupts. `Defs` is the code of code/machine/interrupt.cc; `Pending` is the
-- sorted sequence of pending interrupts, `Served` says
-- what it is to run the handlers that are due, `Clock` how the clock moves; `Due` and `Ticks` prove.
pub mod Defs
pub mod Pending
pub mod Served
pub mod Due
pub mod Clock
pub mod Ticks
mod Tests
