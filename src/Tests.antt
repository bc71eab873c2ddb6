-- ===== src/Tests.antt =====
-- Small programs on both models, and the instances of the theorems.
pub mod Machines
pub mod Hosts
pub mod Valid
pub mod Loads
mod Programs
mod Tested
mod Runs
mod Interpreter
mod Stages
mod Shared
pub mod Sound
mod Flow
