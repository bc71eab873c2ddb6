-- ===== src/Functional.antt =====
-- models/functional/: the interpreter.
pub mod Instruction
pub mod Decoder
pub mod Regfile
pub mod Model
pub mod Handlers
pub mod Program
pub mod Ends
pub mod Starts
pub mod Tracked
pub mod Freed
pub mod Immediates
pub mod Complete
pub mod Interpreted
pub mod Refines
