-- ===== src/Pipeline.antt =====
-- models/pipeline/: the cycle model.
pub mod Modules
pub mod Instruction
pub mod Stages
pub mod Control
pub mod Model
pub mod Sound
pub mod Execute
pub mod Tick
pub mod Program
pub mod Ends
pub mod Starts
pub mod Blocks
pub mod Signals
pub mod Datapath
pub mod Forwarding
pub mod Flow
