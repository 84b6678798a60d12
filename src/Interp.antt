-- ===== src/Interp.antt =====
-- byterun/interp.c: the bytecode interpreter.
pub mod Value
pub mod Machine
pub mod Stack
pub mod Raise
pub mod Calls
pub mod Blocks
pub mod Control
pub mod Integers
pub mod Methods
pub mod Dispatch
