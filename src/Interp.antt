-- ===== src/Interp.antt =====
-- The instruction handlers of bytecode_interpreter.c, by kind of instruction. A handler is given the
-- flag of the wide prefix and returns the number by which `run` moves the program counter.
pub mod Defs
pub mod Constants
pub mod Locals
pub mod Operands
pub mod Arithmetic
pub mod Bitwise
pub mod Conversions
pub mod Branches
pub mod Switches
pub mod Arrays
pub mod Floats
pub mod Statics
pub mod Monitors
pub mod Allocation
pub mod Returns
pub mod Unimplemented
pub mod Opcodes
