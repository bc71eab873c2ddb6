-- ===== src/Pipeline/Flow/Cycle.antt =====
-- A cycle of models/pipeline/pipeline.cpp that comes to its end while the pipeline is not halted.
use mathlib.Core.Path.{subst}
use risc_v_co_simulator.Base.{
  ◌==◌, ◌%◌, ℕ, ◌+◌, ◌≡◌, sym, ap, ◌∙◌, refl, Bool, true, false, some, if◌then◌else◌,
}
use risc_v_co_simulator.Runtime.{Build, Outcome, done, final, ◌>>◌, modify}
use risc_v_co_simulator.Runtime.Safe.{IsGood}
use risc_v_co_simulator.Runtime.Binds.{bind-done}
use risc_v_co_simulator.Pipeline.Stages.{ExecuteState, execute_zero}
use risc_v_co_simulator.Pipeline.Modules.Storage.{RegFile}
use risc_v_co_simulator.Trace.{TraceWriter}
use risc_v_co_simulator.Memory.{get_word}
use risc_v_co_simulator.Pipeline.Signals.{fed}
use risc_v_co_simulator.Pipeline.Control as Control
use risc_v_co_simulator.Pipeline.Control.{ControlUnit, load_control_signals}
use risc_v_co_simulator.Pipeline.Model.{PipelineModel, P}
use risc_v_co_simulator.Pipeline.Execute.{do_execute, drive, source_a, source_rs2}
use risc_v_co_simulator.Pipeline.Tick.{do_memory, do_decode, do_fetch, clock, tick, filled, next_pc}
use risc_v_co_simulator.Pipeline.Tick.Hazard.{hazard_unit_tick}
use risc_v_co_simulator.Pipeline.Sound.{IsSound, KeepsSound, IsCycleStop}
use risc_v_co_simulator.Pipeline.Sound.Memory.{do_memory-KeepsSound}
use risc_v_co_simulator.Pipeline.Sound.Execute.{do_execute-KeepsSound}
use risc_v_co_simulator.Pipeline.Flow.{commit, following}
use risc_v_co_simulator.Pipeline.Flow.Steps.{MemoryDone, do_memory-done, driven, do_execute-done}
use risc_v_co_simulator.Pipeline.Flow.Decode.{IsRead, IsDecoded, issued, do_decode-done}
use risc_v_co_simulator.Pipeline.Flow.Fetch.{fetched, do_fetch-done}
use risc_v_co_simulator.Pipeline.Flow.Edge.{IsFlowing, IsEdge, moved, clock_lem, moved-IsEdge}

pub still_sound :
    (x : P) (m m1 : PipelineModel) → KeepsSound x → IsSound m → x m ≡ done tt m1 → IsSound m1
still_sound x m m1 keeps ok e =
    subst (λ (o : Outcome PipelineModel (Unit {0})). IsGood IsSound IsCycleStop o) e
      (keeps.safe m ok)

-- The stages of a cycle, one after the other.
pub record StagesDone (b : Build) (m m' : PipelineModel) : Type 0 where
  pub after_memory : PipelineModel
  pub after_execute : PipelineModel
  pub after_decode : PipelineModel
  pub after_fetch : PipelineModel
  pub memory_done : do_memory m ≡ done tt after_memory
  pub execute_done : do_execute after_memory ≡ done tt after_execute
  pub decode_done : do_decode b after_execute ≡ done tt after_decode
  pub fetch_done : do_fetch b after_decode ≡ done tt after_fetch
  pub ended :
      m'
      ≡ (λ (n : PipelineModel). record n { ticks_counter = n.ticks_counter + 1 })
          (hazard_unit_tick (clock after_fetch))

pub tick-StagesDone : (b : Build) (m m' : PipelineModel) → tick b m ≡ done tt m' → StagesDone b m m'
unfolding tick
tick-StagesDone b m m' e =
    let edge = modify (λ (n : PipelineModel). hazard_unit_tick (clock n)) in
    let count = modify (λ (n : PipelineModel). record n { ticks_counter = n.ticks_counter + 1 }) in
    let (_, m1, e1, r1) =
      bind-done do_memory (λ _. do_execute >> (do_decode b >> (do_fetch b >> (edge >> count)))) m m'
        tt e in
    let (_, m2, e2, r2) =
      bind-done do_execute (λ _. do_decode b >> (do_fetch b >> (edge >> count))) m1 m' tt r1 in
    let (_, m3, e3, r3) =
      bind-done (do_decode b) (λ _. do_fetch b >> (edge >> count)) m2 m' tt r2 in
    let (_, m4, e4, r4) = bind-done (do_fetch b) (λ _. edge >> count) m3 m' tt r3 in
    record {
      after_memory = m1;
      after_execute = m2;
      after_decode = m3;
      after_fetch = m4;
      memory_done = e1;
      execute_done = e2;
      decode_done = e3;
      fetch_done = e4;
      ended = sym (ap final r4);
    }

-- What a cycle has made of the state `m1` that its DoMemory left, with the operands `a` and `v` of
-- the instruction in the execute stage.
pub record CycleDone (m m1 m' : PipelineModel) (a v : ℕ) : Type 0 where
  pub memory_moved : m'.memory_register.current ≡ (drive a v m1).memory_register.next
  pub write_back_moved : m'.write_back_register.current ≡ m1.write_back_register.next
  pub regs_are : m'.reg_file.regs ≡ commit m.reg_file.regs m.write_back_register.current
  pub mmu_kept : m'.mmu ≡ m1.mmu
  pub unit_kept : m'.data_mem_unit ≡ m1.data_mem_unit
  pub redirect_kept : m'.pc_r ≡ (drive a v m1).pc_r
  pub aligned : next_pc (drive a v m1) % 4 == 0 ≡ true
  pub follows :
      following m'
      ≡ (if (drive a v m1).pc_r then next_pc (drive a v m1) else m.decode_register.current.pc_de)

-- Where the cycle goes on.
follows_lem :
    (redirect : Bool) (pc' target behind : ℕ) (x x' : ExecuteState)
    → pc' ≡ target
    → x' ≡ (if redirect then execute_zero else x)
    → x.pc_de ≡ behind
    → (if redirect then pc' else x'.pc_de) ≡ (if redirect then target else behind)
follows_lem true pc' target behind x x' p q r = p
follows_lem false pc' target behind x x' p q r = ap (λ (y : ExecuteState). y.pc_de) q ∙ r

abbrev counted : PipelineModel → PipelineModel
counted m = record m { ticks_counter = m.ticks_counter + 1 }

counted-IsEdge : (n h : PipelineModel) → IsEdge n h → IsEdge n (counted h)
counted-IsEdge n h e = record {
  mmu_kept = e.mmu_kept;
  unit_kept = e.unit_kept;
  file_kept = e.file_kept;
  redirect_kept = e.redirect_kept;
  memory_moved = e.memory_moved;
  write_back_moved = e.write_back_moved;
  pc_moved = e.pc_moved;
  execute_moved = e.execute_moved;
}

-- The state before the clock's edge, from the one after DoMemory.
abbrev pub landed :
    (word : ℕ)
    → RegFile
    → ControlUnit
    → TraceWriter
    → TraceWriter
    → (traced a v : ℕ) → PipelineModel
    → PipelineModel
landed word file unit w' w traced a v m = fetched word (issued file unit w' (driven a v w traced m))

pub record Landed (b : Build) (m m1 m' : PipelineModel) (a v : ℕ) : Type 0 where
  pub word : ℕ
  pub file : RegFile
  pub unit : ControlUnit
  pub decode_writer : TraceWriter
  pub execute_writer : TraceWriter
  pub traced : ℕ
  pub read : IsRead m file
  pub signals_are :
      Control.tick b.debug (fed m.decode_register.current.instr m.control_unit) ≡ done tt unit
  pub word_is : get_word m1.mmu m1.program_counter.current ≡ some word
  pub aligned : next_pc (drive a v m1) % 4 == 0 ≡ true
  pub flows : IsFlowing (landed word file unit decode_writer execute_writer traced a v m1)
  pub ended :
      m'
      ≡ counted (
          hazard_unit_tick
            (moved (landed word file unit decode_writer execute_writer traced a v m1)))

module _ (b : Build) (m m' : PipelineModel) (ok : IsSound m) (flows : IsFlowing m) where
  module _ (s : StagesDone b m m') (a v : ℕ) (a_is : source_a s.after_memory ≡ some a)
      (v_is : source_rs2 s.after_memory ≡ some v) where
    abbrev m1 : PipelineModel
    m1 = s.after_memory

    from_memory : MemoryDone m m1
    from_memory = do_memory-done m m1 s.memory_done

    m1-IsFlowing : IsFlowing m1
    m1-IsFlowing = subst IsFlowing (sym from_memory.left) (record {
      pc_on = flows.pc_on;
      decode_on = flows.decode_on;
      execute_on = flows.execute_on;
      memory_on = flows.memory_on;
      write_back_on = flows.write_back_on;
    })

    m1-IsSound : IsSound m1
    m1-IsSound = still_sound do_memory m m1 do_memory-KeepsSound ok s.memory_done

    from_decode : IsDecoded b s.after_execute s.after_decode
    from_decode =
        do_decode-done b s.after_execute s.after_decode
          (still_sound do_execute m1 s.after_execute do_execute-KeepsSound m1-IsSound
            s.execute_done)
          s.decode_done

    -- The state after the cycle, from the one after DoMemory.
    pub stages-Landed : Landed b m m1 m' a v
    unfolding drive next_pc
    stages-Landed =
        let (w, p, m2_is) =
          do_execute-done m1 s.after_execute a v m1-IsFlowing.execute_on a_is v_is s.execute_done in
        let d = from_decode in
        let (instr, word_is, m4_is, next_is) =
          do_fetch-done b s.after_decode s.after_fetch s.fetch_done in
        let at = d.left ∙ ap (issued d.file d.unit d.writer) m2_is in
        let start = m2_is ∙ ap (driven a v w p) from_memory.left in
        let read = subst (λ (t : PipelineModel). IsRead t d.file) start d.read in
        let n_is = m4_is ∙ ap (fetched instr) at in
        let n-IsFlowing : IsFlowing (landed instr d.file d.unit d.writer w p a v m1) = record {
          pc_on = m1-IsFlowing.pc_on;
          decode_on = m1-IsFlowing.decode_on;
          execute_on = m1-IsFlowing.execute_on;
          memory_on = m1-IsFlowing.memory_on;
          write_back_on = m1-IsFlowing.write_back_on;
        } in
        record {
          word = instr;
          file = d.file;
          unit = d.unit;
          decode_writer = d.writer;
          execute_writer = w;
          traced = p;
          read = record { regs_are = read.regs_are; shows1 = read.shows1; shows2 = read.shows2 };
          signals_are =
              subst
                (λ (t : PipelineModel).
                  Control.tick b.debug (fed t.decode_register.current.instr t.control_unit)
                  ≡ done tt d.unit)
                start d.signals_are;
          word_is =
              subst (λ (t : PipelineModel). get_word t.mmu t.program_counter.current ≡ some instr)
                at word_is;
          aligned = subst (λ (t : PipelineModel). next_pc t % 4 == 0 ≡ true) at next_is;
          flows = n-IsFlowing;
          ended =
              s.ended ∙ ap counted (ap hazard_unit_tick (ap clock n_is ∙ clock_lem _ n-IsFlowing));
        }

    pub stages-CycleDone : CycleDone m m1 m' a v
    unfolding drive next_pc filled load_control_signals
    stages-CycleDone =
        let l = stages-Landed in
        let n = landed l.word l.file l.unit l.decode_writer l.execute_writer l.traced a v m1 in
        let edge : IsEdge n m' =
          subst (IsEdge n) (sym l.ended) (counted-IsEdge n _ (moved-IsEdge n _ l.flows refl)) in
        record {
          memory_moved = edge.memory_moved;
          write_back_moved = edge.write_back_moved;
          regs_are = ap (λ (r : RegFile). r.regs) edge.file_kept ∙ l.read.regs_are;
          mmu_kept = edge.mmu_kept;
          unit_kept = edge.unit_kept;
          redirect_kept = edge.redirect_kept;
          aligned = l.aligned;
          follows =
              ap
                (λ (t : Bool).
                  if t then m'.program_counter.current else m'.execute_register.current.pc_de)
                edge.redirect_kept
              ∙ follows_lem (drive a v m1).pc_r _ _ _ _ _ edge.pc_moved edge.execute_moved
                  (ap (λ (t : PipelineModel). t.decode_register.current.pc_de) from_memory.left);
        }
