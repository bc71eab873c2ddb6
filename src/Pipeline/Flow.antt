-- ===== src/Pipeline/Flow.antt =====
-- A cycle of models/pipeline/pipeline.cpp with instructions in flight: what the machine holds once
-- the instructions that are past the execute stage are finished.
pub mod Registers
pub mod Decode
pub mod Fetch
pub mod Edge
pub mod Steps
pub mod Cycle
pub mod Operands
pub mod Finish
pub mod Ready
pub mod Wires
pub mod Older
pub mod Refines
pub mod Front
pub mod Next
pub mod Stream
pub mod Ordered
use risc_v_co_simulator.Base.{ℕ, Bool, if◌then◌else◌}
use risc_v_co_simulator.Runtime.{Outcome, done, stop, killed}
use risc_v_co_simulator.Isa
use risc_v_co_simulator.Isa.{Effect}
use risc_v_co_simulator.Pipeline.Stages.{WriteBackState}
use risc_v_co_simulator.Pipeline.Model.{PipelineModel}
use risc_v_co_simulator.Pipeline.Tick.{do_memory}

-- The registers after a write-back.
abbrev pub commit : (ℕ → ℕ) → WriteBackState → ℕ → ℕ
commit x w = if w.wb_we then Isa.put x w.wb_a w.wb_d else x

abbrev pub settle : (pc : ℕ) → (x : ℕ → ℕ) → Outcome PipelineModel (Unit {0}) → Effect
settle pc x (done _ m) =
    Effect.next (record { pc = pc; x = commit x m.write_back_register.next; mem = m.mmu.cell })
settle pc x (stop killed m) = Effect.fault
settle pc x (stop e m) = Effect.internal_error

-- The registers and the memory once the instructions in the memory and write-back stages are
-- finished, with `pc` as the address of the instruction that follows them.
unfoldable pub completed : (pc : ℕ) → PipelineModel → Effect
unfolding do_memory
completed pc m = settle pc (commit m.reg_file.regs m.write_back_register.current) (do_memory m)

-- The address of the instruction that follows the one that has left the execute stage: the target
-- of a jump or branch taken, or the instruction behind it.
abbrev pub following : PipelineModel → ℕ
following m = if m.pc_r then m.program_counter.current else m.execute_register.current.pc_de
