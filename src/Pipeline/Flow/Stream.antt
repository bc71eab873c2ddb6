-- ===== src/Pipeline/Flow/Stream.antt =====
-- Cycles of models/pipeline/pipeline.cpp in a row, through code without a jump taken or a halt.
use mathlib.Core.Path.{subst}
use risc_v_co_simulator.Base.{
  ℕ, zero, suc, ◌+◌, ◌%◌, ◌^◌, ◌<◌, ◌≡◌, ◌≢◌, sym, ap, ◌∙◌, refl, arith, Bool, true, false, ◌||◌,
  some, if◌then◌else◌,
}
use risc_v_co_simulator.Runtime.{Build, done}
use risc_v_co_simulator.Isa.{State, Effect, exec}
use risc_v_co_simulator.Isa.Encoding.{Encodes}
use risc_v_co_simulator.Memory.{Mmu, get_word}
use risc_v_co_simulator.Functional.Instruction.{Rv32i, fence, ecall, ebreak}
use risc_v_co_simulator.Pipeline.Control.{load_control_signals}
use risc_v_co_simulator.Pipeline.Signals.{format, is, is_jalr}
use risc_v_co_simulator.Pipeline.Instruction.{j_type}
use risc_v_co_simulator.Pipeline.Stages.{ExecuteState}
use risc_v_co_simulator.Pipeline.Model.{PipelineModel}
use risc_v_co_simulator.Pipeline.Execute.{drive, source_a, source_rs2}
use risc_v_co_simulator.Pipeline.Tick.{tick, filled}
use risc_v_co_simulator.Pipeline.Datapath.{decoded}
use risc_v_co_simulator.Pipeline.Sound.{IsSound}
use risc_v_co_simulator.Pipeline.Sound.Cycle.{tick-KeepsSound}
use risc_v_co_simulator.Pipeline.Flow.{completed, following}
use risc_v_co_simulator.Pipeline.Flow.Edge.{IsFlowing}
use risc_v_co_simulator.Pipeline.Flow.Steps.{MemoryDone, do_memory-done}
use risc_v_co_simulator.Pipeline.Flow.Cycle.{
  StagesDone, tick-StagesDone, CycleDone, stages-CycleDone, Landed, stages-Landed, still_sound,
}
use risc_v_co_simulator.Pipeline.Flow.Ready.{
  IsReady, read_state, found_a, found_rs2, source_a_lem, source_rs2_lem,
}
use risc_v_co_simulator.Pipeline.Flow.Next.{
  IsBehind, next-IsReady, next-IsFlowing, next-IsBehind, next-pc,
}
use risc_v_co_simulator.Pipeline.Flow.Refines.{tick-Refines}

-- The instruction and the word at each address of a program.
abbrev pub Text : Type 0
Text = ℕ → Rv32i × ℕ

abbrev pub after : ℕ → ℕ
after pc = (pc + 4) % 2 ^ 32

-- A word that the manual encodes as an instruction, but FENCE, ECALL and EBREAK.
pub record IsOrdinary (p : Rv32i × ℕ) : Type 0 where
  pub word : p.1 < 2 ^ 32
  pub encodes : Encodes (p.0) (p.1)
  pub not_fence : p.0 ≢ fence
  pub not_ecall : p.0 ≢ ecall
  pub not_ebreak : p.0 ≢ ebreak

-- The instruction at `pc` is in the execute stage, the one after it in the decode stage, and the
-- program counter is at the third.
pub record IsStreaming (text : Text) (pc : ℕ) (m : PipelineModel) : Type 0 where
  pub sound : IsSound m
  pub flows : IsFlowing m
  pub ready : IsReady (text pc).0 (text pc).1 pc m
  pub behind : IsBehind (text (after pc)).1 (after pc) m
  pub next : m.program_counter.current ≡ after (after pc)

-- `n` cycles that come to their end, each of which fetches the word of the program, takes no jump
-- and does not halt the pipeline.
pub data Streams (b : Build) (text : Text) : ℕ → PipelineModel → PipelineModel → Type 0 where
  still : {m : PipelineModel} → Streams b text 0 m m
  cycle :
      {n : ℕ} {m m1 m' : PipelineModel}
      → tick b m ≡ done tt m1
      → get_word m1.mmu m.program_counter.current ≡ some ((text m.program_counter.current).1)
      → m1.program_counter.enable_flag ≡ true
      → m1.pc_r ≡ false
      → Streams b text n m1 m'
      → Streams b text (suc n) m m'

-- The address `n` instructions on.
abbrev pub address : (n pc : ℕ) → ℕ
address zero pc = pc
address (suc n) pc = address n (after pc)

-- What the manual makes of `n` instructions of the program from `pc` on, one after the other.
abbrev pub continue_by : (State → Effect) → Effect → Effect
continue_by k (Effect.next s) = k s
continue_by k e = e

unfoldable pub executed_in_order : Text → (n pc : ℕ) → State → Effect
unfolding exec
executed_in_order text zero pc s = Effect.next s
executed_in_order text (suc n) pc s =
    continue_by (executed_in_order text n (after pc)) (exec (text pc).0 (text pc).1 s)

not_jalr :
    (i : Rv32i) (raw : ℕ) (s : State) (m m1 : PipelineModel) (a v : ℕ)
    → m1.execute_register.current ≡ filled (decoded i raw s m)
    → (drive a v m1).pc_r ≡ false
    → m1.execute_register.current.is_jalr ≡ false
unfolding filled load_control_signals drive
not_jalr i raw s m m1 a v x stay =
    ap (λ (t : ExecuteState). t.is_jalr) x
    ∙ second_of (is (format i) j_type) (is_jalr i)
        (sym (ap (λ (t : ExecuteState). t.jmp_cond) x) ∙ first_of _ _ stay)
  where
    first_of : (c d : Bool) → c || d ≡ false → c ≡ false
    first_of false d e = refl
    first_of true d e = absurd (ground arith)

    second_of : (c d : Bool) → c || d ≡ false → d ≡ false
    second_of false d e = e
    second_of true d e = absurd (ground arith)

module _ (b : Build) (text : Text) (ordinary : (p : ℕ) → IsOrdinary (text p)) where
  -- One cycle moves on to the next instruction.
  module _ (pc : ℕ) (m m' : PipelineModel) (at : IsStreaming text pc m) (e : tick b m ≡ done tt m')
      (fetched : get_word m'.mmu m.program_counter.current
        ≡ some ((text m.program_counter.current).1))
      (going : m'.program_counter.enable_flag ≡ true) (stay : m'.pc_r ≡ false) where
    stages : StagesDone b m m'
    stages = tick-StagesDone b m m' e

    abbrev m1 : PipelineModel
    m1 = stages.after_memory

    from : MemoryDone m m1
    from = do_memory-done m m1 stages.memory_done

    abbrev a : ℕ
    a = found_a (text pc).0 (text pc).1 pc m m1 at.ready from

    abbrev v : ℕ
    v = found_rs2 (text pc).0 (text pc).1 pc m m1 at.ready from

    a_is : source_a m1 ≡ some a
    a_is = source_a_lem (text pc).0 (text pc).1 pc m m1 at.ready from

    v_is : source_rs2 m1 ≡ some v
    v_is = source_rs2_lem (text pc).0 (text pc).1 pc m m1 at.ready from

    c : CycleDone m m1 m' a v
    c = stages-CycleDone b m m' at.sound at.flows stages a v a_is v_is

    l : Landed b m m1 m' a v
    l = stages-Landed b m m' at.sound at.flows stages a v a_is v_is

    drive_stay : (drive a v m1).pc_r ≡ false
    drive_stay = sym c.redirect_kept ∙ stay

    pc_kept : m1.program_counter.current ≡ m.program_counter.current
    pc_kept = ap (λ (t : PipelineModel). t.program_counter.current) from.left

    word_lem : l.word ≡ (text (after (after pc))).1
    word_lem = some_injective (
        sym l.word_is
        ∙ (ap (λ (u : Mmu). get_word u m1.program_counter.current) (sym c.mmu_kept)
            ∙ (ap (get_word m'.mmu) pc_kept
                ∙ (fetched ∙ ap (λ (p : ℕ). some ((text p).1)) at.next))))
      where
        some_injective : {x y : ℕ} → some x ≡ some y → x ≡ y
        some_injective h = ground arith

    abbrev next_instr : Rv32i × ℕ
    next_instr = text (after pc)

    o : IsOrdinary next_instr
    o = ordinary (after pc)

    pub step-IsStreaming : IsStreaming text (after pc) m'
    step-IsStreaming = record {
      sound = still_sound (tick b) m m' (tick-KeepsSound b) at.sound e;
      flows =
          next-IsFlowing b next_instr.0 next_instr.1 (after pc) o.word o.encodes o.not_ecall
            o.not_ebreak m m1 m' a v from c l at.behind drive_stay going at.next;
      ready =
          next-IsReady b next_instr.0 next_instr.1 (after pc) o.word o.encodes o.not_ecall
            o.not_ebreak m m1 m' a v from c l at.behind drive_stay going at.next;
      behind =
          subst (λ (w : ℕ). IsBehind w (after (after pc)) m') word_lem
            (next-IsBehind b next_instr.0 next_instr.1 (after pc) o.word o.encodes o.not_ecall
              o.not_ebreak m m1 m' a v from c l at.behind drive_stay going at.next);
      next =
          next-pc b next_instr.0 next_instr.1 (after pc) o.word o.encodes o.not_ecall o.not_ebreak m
            m1 m' a v from c l at.behind drive_stay going at.next
            (not_jalr (text pc).0 (text pc).1 (read_state pc m) m m1 a v
              (ap (λ (t : PipelineModel). t.execute_register.current) from.left ∙ at.ready.issued)
              drive_stay)
          ∙ ap after at.next;
    }

    step-following : following m' ≡ after pc
    unfolding filled load_control_signals
    step-following =
        ap
          (λ (j : Bool).
            if j then m'.program_counter.current else m'.execute_register.current.pc_de)
          stay
        ∙ ap (λ (t : ExecuteState). t.pc_de) step-IsStreaming.ready.issued

    pub step-Refines :
        (s : State)
        → completed pc m ≡ Effect.next s
        → completed (after pc) m' ≡ exec (text pc).0 (text pc).1 s
    step-Refines s before =
        ap (λ (p : ℕ). completed p m') (sym step-following)
        ∙ tick-Refines b (text pc).0 (text pc).1 pc m m' s at.sound at.flows at.ready
            (ordinary pc).not_fence (ordinary pc).not_ecall (ordinary pc).not_ebreak before e
