-- ===== src/Pipeline/Sound/Cycle.antt =====
-- A cycle and a run of models/pipeline/pipeline.cpp.
use risc_v_co_simulator.Base.{ℕ, zero, suc, ◌+◌, Bool, true, false, if◌then◌else◌, ltb}
use risc_v_co_simulator.Runtime.{
  ecall, ebreak, Stop, returned, killed, terminated, logic_error, ecall_exception, ebreak_exception,
  invalid_instruction, alignment, Build, Outcome, done, stop, modify,
}
use risc_v_co_simulator.Runtime.Safe.{IsGood, IsSafe}
use risc_v_co_simulator.Pipeline.Model.{PipelineModel}
use risc_v_co_simulator.Pipeline.Execute.{do_execute}
use risc_v_co_simulator.Pipeline.Tick.{
  do_memory, do_decode, do_fetch, clock, tick, run_from, run, answer, prepare,
}
use risc_v_co_simulator.Pipeline.Tick.Hazard.{hazard_unit_tick}
use risc_v_co_simulator.Pipeline.Sound.{IsSound, IsCycleStop, KeepsSound}
use risc_v_co_simulator.Pipeline.Sound.Memory.{do_memory-KeepsSound}
use risc_v_co_simulator.Pipeline.Sound.Registers.{then_sound, modify-KeepsSound}
use risc_v_co_simulator.Pipeline.Sound.Decode.{do_decode-KeepsSound}
use risc_v_co_simulator.Pipeline.Sound.Execute.{do_execute-KeepsSound}
use risc_v_co_simulator.Pipeline.Sound.Fetch.{
  do_fetch-KeepsSound, clock-IsSound, hazard_unit_tick-IsSound,
}

abbrev edge : PipelineModel → PipelineModel
edge m = hazard_unit_tick (clock m)

abbrev counted : PipelineModel → PipelineModel
counted m = record m { ticks_counter = m.ticks_counter + 1 }

-- A cycle of the pipeline keeps it sound.
pub tick-KeepsSound : (b : Build) → KeepsSound (tick b)
unfolding tick
tick-KeepsSound b = then_sound do_memory _ do_memory-KeepsSound (λ _.
    then_sound do_execute _ do_execute-KeepsSound (λ _.
      then_sound (do_decode b) _ (do_decode-KeepsSound b) (λ _.
        then_sound (do_fetch b) _ (do_fetch-KeepsSound b) (λ _.
          then_sound (modify edge) (λ _. modify counted)
            (modify-KeepsSound edge
              (λ m ok. hazard_unit_tick-IsSound (clock m) (clock-IsSound m ok)))
            (λ _. modify-KeepsSound counted (λ m ok. ok))))))

-- How a run can end: with ECALL or EBREAK, by a fault, by `std::terminate`, or by an exception that
-- Run does not catch, never with another code.
abbrev pub IsRunStop : Stop → Type 0
IsRunStop (returned ecall) = Unit
IsRunStop (returned ebreak) = Unit
IsRunStop killed = Unit
IsRunStop terminated = Unit
IsRunStop logic_error = Unit
IsRunStop _ = ⊥

answer-IsRunStop : (e : Stop) → IsCycleStop e → IsRunStop (answer e)
answer-IsRunStop ecall_exception h = tt
answer-IsRunStop ebreak_exception h = tt
answer-IsRunStop killed h = tt
answer-IsRunStop terminated h = tt
answer-IsRunStop logic_error h = tt
answer-IsRunStop invalid_instruction h = tt
answer-IsRunStop alignment h = tt
answer-IsRunStop _ h = absurd h

prepare-IsSound : (m : PipelineModel) → IsSound m → IsSound (prepare m)
prepare-IsSound m ok = go (ltb m.ticks_counter 2)
  where
    go :
        (b : Bool)
        → IsSound (
            if b
            then record m {
              data_mem_unit = record (m.data_mem_unit) { address = m.program_counter.current };
            }
            else m)
    go true = ok
    go false = ok

run_from-IsSafe : (b : Build) (fuel : ℕ) → IsSafe IsSound IsRunStop (run_from b fuel)
unfolding run_from
run_from-IsSafe b zero = record { safe = λ m ok. ok }
run_from-IsSafe b (suc fuel) = record {
  safe = λ m ok.
      go (tick b (prepare m)) ((tick-KeepsSound b).safe (prepare m) (prepare-IsSound m ok))
        (run_from-IsSafe b fuel);
}
  where
    go :
        (o : Outcome PipelineModel (Unit {0}))
        → IsGood IsSound IsCycleStop o
        → IsSafe IsSound IsRunStop (run_from b fuel)
        → IsGood IsSound IsRunStop (elim o as (λ _. Outcome PipelineModel (Unit {0})) [
          | done _ m' ↦ run_from b fuel m'
          | stop e m' ↦ stop (answer e) m'
        ])
    go (done _ m') h rest = rest.safe m' h
    go (stop e m') h rest = (h.0, answer-IsRunStop e (h.1))

-- A run of the pipeline of any length keeps it sound (`IsSound`): register 0 holds 0; the
-- registers, the program counters of the fetch, decode and execute stages, the operands that have
-- been read, the results of the ALU, the values to be written back, the bypass and the value saved
-- from a stall are below 2 ^ 32; every write-back is to one of the 32 registers; the bytes of the
-- memory are below 256, and the mapped ones are in its chunks. If the run stops, it stops in a
-- sound state too, and has returned ECALL or EBREAK, was killed by an access to an unmapped page,
-- was terminated, or threw `std::logic_error`.
pub run-IsSound :
    (b : Build) (fuel : ℕ) (m : PipelineModel) → IsSound m → IsGood IsSound IsRunStop (run b fuel m)
unfolding run
run-IsSound b fuel m ok = (run_from-IsSafe b fuel).safe (record m { trace_prev_pc = 0 }) ok
