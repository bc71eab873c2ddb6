-- ===== src/Functional/Refines/Loop.antt =====
-- The loop of the interpreter against the walk through the program's instructions.
use risc_v_co_simulator.Base.{
  ℕ, zero, suc, ◌+◌, ◌<◌, ◌≡◌, ◌^◌, ◌%◌, ◌∙◌, refl, sym, ap, arith, Bool, true, false, not, ◌&&◌,
  ◌==◌, if◌then◌else◌, Option, none, some,
}
use risc_v_co_simulator.Runtime.{
  ecall, ebreak, Stop, returned, terminated, killed, Outcome, done, stop, final, M, ◌>>=◌, ◌>>◌,
  Build, MasksCounts,
}
use risc_v_co_simulator.Isa
use risc_v_co_simulator.Isa.{Effect}
use risc_v_co_simulator.Memory as Mem
use risc_v_co_simulator.Memory.{read_bytes}
use risc_v_co_simulator.Memory.Access.{read_bytes-lt, stored}
use risc_v_co_simulator.Trace.{trace_executed_instruction}
use risc_v_co_simulator.Functional.Instruction.{Rv32i}
use risc_v_co_simulator.Functional.Decoder.{decode}
use risc_v_co_simulator.Functional.Interpreted.{interpreted, follow, walk}
use risc_v_co_simulator.Functional.Model.{
  FunctionalModel, get_word, load_from_pc, decode_and_goto, trace_executed, or_stop,
}
use risc_v_co_simulator.Functional.Handlers.{handle, switch_decoder, step, run_from, run}
use risc_v_co_simulator.Functional.Refines.State.{view, effect}
use risc_v_co_simulator.Functional.Refines.Handle.{handle-interpreted}
use risc_v_co_simulator.Functional.Refines.Valid.{Keeps, interpreted-Keeps}

-- A stop is no state to go on from.
follow-stop :
    (debug : Bool) (go_on : ℕ → Isa.State → Effect) (e : Stop) (m : FunctionalModel)
    → follow debug go_on (effect {A = Unit {0}} (stop e m)) ≡ effect {A = Unit {0}} (stop e m)
follow-stop debug go_on (returned ecall) m = refl
follow-stop debug go_on (returned ebreak) m = refl
follow-stop debug go_on (returned _) m = refl
follow-stop debug go_on killed m = refl
follow-stop debug go_on terminated m = refl
follow-stop debug go_on _ m = refl

effect-stop :
    (A B : Type 0) (e : Stop) (m : FunctionalModel)
    → effect {A = A} (stop e m) ≡ effect {A = B} (stop e m)
effect-stop A B (returned ecall) m = refl
effect-stop A B (returned ebreak) m = refl
effect-stop A B (returned _) m = refl
effect-stop A B killed m = refl
effect-stop A B terminated m = refl
effect-stop A B _ m = refl

abbrev ticked : FunctionalModel → FunctionalModel
ticked m = record m { ticks_counter = m.ticks_counter + 1 }

module _ (build : Build) where
  -- The next word, and what runs on it.
  fetch_lem :
      (k : ℕ → M FunctionalModel ℕ) (go_on : ℕ → Isa.State → Effect) (m : FunctionalModel)
      → Isa.IsValid (view m)
      → ((raw : ℕ) → raw < 2 ^ 32 → effect (k raw (ticked m)) ≡ go_on raw (view m))
      → effect ((decode_and_goto build >>= k) m) ≡ follow build.debug go_on (Effect.next (view m))
  unfolding decode_and_goto Mem.get_word
  fetch_lem k go_on m valid rest =
      go (build.debug && not (m.pc % 4 == 0)) (read_bytes 4 m.mmu.cell m.pc)
        (omega (arith, read_bytes-lt 4 m.pc m.mmu.cell valid.cell_byte))
    where
      go :
          (b : Bool) (o : Option ℕ)
          → stored o < 2 ^ 32
          → effect (((λ t. if b then stop terminated t else or_stop killed o t) >>= k) (ticked m))
            ≡ (if b
                then Effect.illegal
                else elim o [ none ↦ Effect.fault | some raw ↦ go_on raw (view m) ])
      go true o h = refl
      go false none h = refl
      go false (some raw) h = rest raw h

  -- A handler's outcome, and the instructions after it.
  follow_lem :
      (k : ℕ → M FunctionalModel ℕ) (go_on : ℕ → Isa.State → Effect)
      (o : Outcome FunctionalModel (Unit {0}))
      → Keeps (effect o)
      → ((raw : ℕ) (m : FunctionalModel)
          → raw < 2 ^ 32
          → Isa.IsValid (view m)
          → effect (k raw m) ≡ go_on raw (view m))
      → effect (((λ _. o) >> decode_and_goto build >>= k) (final o))
        ≡ follow build.debug go_on (effect o)
  follow_lem k go_on (done _ m) valid rest =
      fetch_lem k go_on m valid (λ raw h. rest raw (ticked m) h valid)
  follow_lem k go_on (stop e m) valid rest =
      effect-stop ℕ (Unit {0}) e m ∙ sym (follow-stop build.debug go_on e m)

  module _ (masks : MasksCounts build) where
    -- As long as it has fuel, the loop of the interpreter takes the program in memory through the
    -- instructions that `interpreted` describes, and ends as they end.
    pub run_from-walk :
        (fuel raw : ℕ) (m : FunctionalModel)
        → raw < 2 ^ 32
        → Isa.IsValid (view m)
        → effect (run_from build fuel raw m) ≡ walk build.debug interpreted fuel raw (view m)
    unfolding run_from step walk switch_decoder trace_executed
    run_from-walk zero raw m word valid = refl
    run_from-walk (suc fuel) raw m word valid =
        decoded (decode build.debug raw) (λ next m' h v. run_from-walk fuel next m' h v)
      where
        traced : FunctionalModel
        traced = record m {
          writer = trace_executed_instruction m.readable_traces raw m.pc m.writer;
        }

        go_on : ℕ → Isa.State → Effect
        go_on next s = walk build.debug interpreted fuel next s

        decoded :
            (d : Option Rv32i)
            → ((next : ℕ) (m' : FunctionalModel)
                → next < 2 ^ 32
                → Isa.IsValid (view m')
                → effect (run_from build fuel next m') ≡ go_on next (view m'))
            → effect (
                ((λ s. elim d [ none ↦ stop terminated s | some i ↦ done i s ])
                    >>= (λ i. handle build i raw >> decode_and_goto build)
                    >>= run_from build fuel)
                  traced)
              ≡ elim d [
                | none ↦ Effect.illegal
                | some i ↦ follow build.debug go_on (interpreted i raw (view m))
              ]
        decoded none ih = refl
        decoded (some i) ih =
            let same = handle-interpreted raw word traced valid build masks i in
            let keeps : Keeps (effect (handle build i raw traced)) =
              rw same (interpreted-Keeps raw word (view m) valid i) in
            follow_lem (run_from build fuel) go_on (handle build i raw traced) keeps ih
            ∙ ap (follow build.debug go_on) same

    -- On a machine that masks its shift counts and from a valid state, Run with any fuel does what
    -- `walk` does over `interpreted`: it fetches the word at the program counter, decodes it,
    -- applies the instruction and goes on, up to the same state or the same end.
    pub run-walk :
        (fuel : ℕ) (m : FunctionalModel)
        → Isa.IsValid (view m)
        → effect (run build fuel m)
          ≡ follow build.debug (walk build.debug interpreted fuel) (Effect.next (view m))
    unfolding run load_from_pc get_word Mem.get_word
    run-walk fuel m valid =
        first (build.debug && not (m.pc % 4 == 0)) (read_bytes 4 m.mmu.cell m.pc)
          (omega (arith, read_bytes-lt 4 m.pc m.mmu.cell valid.cell_byte))
      where
        first :
            (b : Bool) (o : Option ℕ)
            → stored o < 2 ^ 32
            → effect (
                ((λ t. if b then stop terminated t else or_stop killed o t) >>= λ raw s.
                run_from build fuel raw (ticked s))
                  m)
              ≡ (if b then Effect.illegal else elim o [
                | none ↦ Effect.fault
                | some raw ↦ walk build.debug interpreted fuel raw (view m)
              ])
        first true o h = refl
        first false none h = refl
        first false (some raw) h = run_from-walk fuel raw (ticked m) h valid
