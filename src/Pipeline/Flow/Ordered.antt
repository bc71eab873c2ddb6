-- ===== src/Pipeline/Flow/Ordered.antt =====
-- Code in order through models/pipeline/pipeline.cpp: the cycles of a stream against the manual.
use risc_v_co_simulator.Base.{ℕ, ◌≡◌, sym, ap, ◌∙◌, arith}
use risc_v_co_simulator.Runtime.{Build, done}
use risc_v_co_simulator.Isa.{State, Effect, exec}
use risc_v_co_simulator.Pipeline.Model.{PipelineModel}
use risc_v_co_simulator.Pipeline.Tick.{tick}
use risc_v_co_simulator.Pipeline.Flow.{completed, settle, commit}
use risc_v_co_simulator.Pipeline.Flow.Cycle.{tick-StagesDone}
use risc_v_co_simulator.Pipeline.Flow.Stream.{
  Text, after, address, IsOrdinary, IsStreaming, Streams, still, cycle, continue_by,
  executed_in_order, step-IsStreaming, step-Refines,
}

module _ (b : Build) (text : Text) (ordinary : (p : ℕ) → IsOrdinary (text p)) where
  -- A cycle that comes to its end has finished what was in its memory and write-back stages.
  finishes :
      (pc : ℕ) (m m' : PipelineModel)
      → tick b m ≡ done tt m'
      → (t : State) × (completed pc m ≡ Effect.next t)
  unfolding completed
  finishes pc m m' e =
      let stages = tick-StagesDone b m m' e in
      (_, ap (settle pc (commit m.reg_file.regs m.write_back_register.current)) stages.memory_done)

  streams_lem :
      (n pc : ℕ) (m m' : PipelineModel) (e : Effect)
      → IsStreaming text pc m
      → completed pc m ≡ e
      → Streams b text n m m'
      → IsStreaming text (address n pc) m'
        × (completed (address n pc) m' ≡ continue_by (executed_in_order text n pc) e)
  unfolding executed_in_order
  streams_lem n pc m m' (Effect.next s) at before still = (at, before)
  streams_lem n pc m m' (Effect.next s) at before
        (cycle {n = k} {m1 = m1} e fetched going stay rest) =
      streams_lem k (after pc) m1 m' (exec (text pc).0 (text pc).1 s)
        (step-IsStreaming b text ordinary pc m m1 at e fetched going stay)
        (step-Refines b text ordinary pc m m1 at e fetched going stay s before) rest
  streams_lem n pc m m' x at before still = (at, before)
  streams_lem n pc m m' x at before (cycle {m1 = m1} e fetched going stay rest) =
      let (t, finished) = finishes pc m m1 e in
      let clash : x ≡ Effect.next t = sym before ∙ finished in absurd (ground (arith, clash))

  -- Cycles of the pipeline in a row over a program whose words the manual all encodes as
  -- instructions, but FENCE, ECALL and EBREAK (`IsOrdinary`), from a sound state with every
  -- register enabled where the instruction at `pc` is in the execute stage, the one after it in the
  -- decode stage and the program counter at the third (`IsStreaming`). If finishing the older
  -- instructions in the memory and write-back stages leaves the state `s`, and `n` cycles come to
  -- their end, each of which fetches the word of the program, takes no jump and does not halt the
  -- pipeline (`Streams`), then the state after them is streaming `n` instructions on, and finishing
  -- what is then past the execute stage leaves what the manual makes of the `n` instructions, one
  -- after the other, from `s`.
  pub executed_in_order-Refines :
      (n pc : ℕ) (m m' : PipelineModel) (s : State)
      → IsStreaming text pc m
      → completed pc m ≡ Effect.next s
      → Streams b text n m m'
      → IsStreaming text (address n pc) m'
        × (completed (address n pc) m' ≡ executed_in_order text n pc s)
  executed_in_order-Refines n pc m m' s at before run =
      streams_lem n pc m m' (Effect.next s) at before run
