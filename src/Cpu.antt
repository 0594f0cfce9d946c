-- ===== src/Cpu.antt =====
-- crates/ruxeon-cpu/src/interpreter.rs: the interpreter's integer instructions.
pub mod Flags
pub mod FlagBits
pub mod Conditions
pub mod State
pub mod Operands
pub mod Integer
pub mod Bitwise
pub mod Strings
pub mod Shifts
pub mod Transfers
pub mod Environment
pub mod Execute
pub mod Blocks
pub mod Outcomes
pub mod Carry
pub mod Stack
mod Tests
