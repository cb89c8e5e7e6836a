-- ===== src/Cpu.antt =====
-- The simulated processor: `Opcodes` and `Decode` read an instruction, `Word` is its arithmetic,
-- `Mult` its multiplier, and `Alu`, `Branch`, `LoadStore` and `Execute` run it, each case with an
-- `Outcome`. `Product` and `Multiplier` are about the multiplier, `Signed` and `Unaligned` about
-- single instructions; the others are about the states that a run goes through, case by case.
pub mod Word
pub mod Opcodes
pub mod Decode
pub mod Mult
pub mod Product
pub mod Multiplier
pub mod Outcome
pub mod Alu
pub mod Branch
pub mod LoadStore
pub mod Execute
pub mod Sound
pub mod Access
pub mod Fields
pub mod Outcomes
pub mod AluCases
pub mod MemoryCases
pub mod BranchCases
pub mod Cases
pub mod Progress
pub mod Signed
pub mod Unaligned
mod Tests
