-- ===== src/Pipeline/Flow/Next.antt =====
-- The instruction behind, after a cycle of models/pipeline/pipeline.cpp without a jump or a halt.
use mathlib.Core.Path.{subst}
use risc_v_co_simulator.Base.{
  ℕ, ◌+◌, ◌%◌, ◌^◌, ◌<◌, ◌≡◌, ◌≢◌, sym, ap, ◌∙◌, refl, arith, Bool, true, false, if◌then◌else◌,
}
use risc_v_co_simulator.Runtime.{Build, final}
use risc_v_co_simulator.Isa
use risc_v_co_simulator.Isa.Encoding.{Encodes}
use risc_v_co_simulator.Functional.Instruction.{Rv32i, ecall, ebreak}
use risc_v_co_simulator.Pipeline.Instruction.{InstructionType, get_rs1, get_rs2, has_rs1, has_rs2}
use risc_v_co_simulator.Pipeline.Control as Control
use risc_v_co_simulator.Pipeline.Control.{ControlUnit, load_control_signals}
use risc_v_co_simulator.Pipeline.Stages.{DecodeState, ExecuteState, MemoryState, WriteBackState}
use risc_v_co_simulator.Pipeline.Signals.{fed, signals, format}
use risc_v_co_simulator.Pipeline.Signals.Encodings.{tick-signals}
use risc_v_co_simulator.Pipeline.Blocks.{fields_lem}
use risc_v_co_simulator.Pipeline.Model.{PipelineModel}
use risc_v_co_simulator.Pipeline.Execute.{drive}
use risc_v_co_simulator.Pipeline.Tick.{filled, next_pc}
use risc_v_co_simulator.Pipeline.Modules.Gates.{add_words, multiplexer2}
use risc_v_co_simulator.Pipeline.Tick.Hazard.{hazard_unit_tick, bypass, load_conflict}
use risc_v_co_simulator.Pipeline.Datapath.{decoded}
use risc_v_co_simulator.Pipeline.Flow.Edge.{IsFlowing, moved}
use risc_v_co_simulator.Pipeline.Flow.Steps.{MemoryDone}
use risc_v_co_simulator.Pipeline.Flow.Cycle.{CycleDone, Landed, landed}
use risc_v_co_simulator.Pipeline.Flow.Ready.{IsReady, read_state}
use risc_v_co_simulator.Pipeline.Flow.Front.{IsRestarted, hazard-IsRestarted}

-- The decode register holds the word `raw` of `pc`.
abbrev pub IsBehind : (raw pc : ℕ) → PipelineModel → Type 0
IsBehind raw pc m = m.decode_register.current ≡ record { v_de = false; pc_de = pc; instr = raw }

-- What DoDecode issues, from the control unit, the ports, the decode register and the redirection.
issue : ControlUnit → (d1 d2 : ℕ) → DecodeState → Bool → PipelineModel → ExecuteState
unfolding filled load_control_signals
issue u d1 d2 d redirect m = filled (record m {
  control_unit = u;
  reg_file = record (m.reg_file) { read_data1 = d1; read_data2 = d2 };
  decode_register = record (m.decode_register) { current = d };
  pc_r = redirect;
})

-- The equal parts of what the hazard unit computes.
ap4 :
    {T : Type 0} (f : InstructionType → ℕ → MemoryState → WriteBackState → T)
    {t t' : InstructionType} {x x' : ℕ} {r r' : MemoryState} {w w' : WriteBackState}
    → t ≡ t'
    → x ≡ x'
    → r ≡ r'
    → w ≡ w'
    → f t x r w ≡ f t' x' r' w'
ap4 f {t} {t'} {x} {x'} {r} {r'} {w} {w'} p q s u =
    ap (λ y. f y x r w) p
    ∙ (ap (λ y. f t' y r w) q ∙ (ap (λ y. f t' x' y w) s ∙ ap (λ y. f t' x' r' y) u))

module _ (b : Build) (i : Rv32i) (raw pc : ℕ) (word : raw < 2 ^ 32) (e : Encodes i raw)
    (not_ecall : i ≢ ecall) (not_ebreak : i ≢ ebreak) (m m1 m' : PipelineModel) (a v : ℕ)
    (from : MemoryDone m m1) (c : CycleDone m m1 m' a v) (l : Landed b m m1 m' a v)
    (behind : IsBehind raw pc m) (stay : (drive a v m1).pc_r ≡ false)
    (going : m'.program_counter.enable_flag ≡ true)
    (next : m.program_counter.current ≡ (pc + 4) % 2 ^ 32) where
  abbrev n : PipelineModel
  n = landed l.word l.file l.unit l.decode_writer l.execute_writer l.traced a v m1

  abbrev h : PipelineModel
  h = hazard_unit_tick (moved n)

  instr_is : m.decode_register.current.instr ≡ raw
  instr_is = ap (λ (d : DecodeState). d.instr) behind

  decode_is : m1.decode_register.current ≡ record { v_de = false; pc_de = pc; instr = raw }
  decode_is = ap (λ (t : PipelineModel). t.decode_register.current) from.left ∙ behind

  unit_is : l.unit ≡ signals i (fed raw m.control_unit)
  unit_is = ap final (
      sym l.signals_are
      ∙ (ap (λ (t : ℕ). Control.tick b.debug (fed t m.control_unit)) instr_is
          ∙ tick-signals raw word b.debug m.control_unit i not_ecall not_ebreak e))

  restarted : IsRestarted (moved n) h
  unfolding drive
  restarted =
      hazard-IsRestarted (moved n) h refl
        (record {
          pc_on = l.flows.pc_on;
          decode_on = l.flows.decode_on;
          execute_on = l.flows.execute_on;
          memory_on = l.flows.memory_on;
          write_back_on = l.flows.write_back_on;
        })
        stay (ap (λ (t : PipelineModel). t.program_counter.enable_flag) (sym l.ended) ∙ going)

  type_is : l.unit.instr_type ≡ format i
  type_is = ap (λ (u : ControlUnit). u.instr_type) unit_is

  issued_instr : m1.decode_register.current.instr ≡ raw
  issued_instr = ap (λ (d : DecodeState). d.instr) decode_is

  -- The hazard unit looks at the instruction, and at the stages as the cycle leaves them.
  seen :
      {T : Type 0} (f : InstructionType → ℕ → MemoryState → WriteBackState → T)
      → f l.unit.instr_type m1.decode_register.current.instr
          (drive a v m1).memory_register.next
          m1.write_back_register.next
        ≡ f (format i) raw m'.memory_register.current m'.write_back_register.current
  seen f = ap4 f type_is issued_instr (sym c.memory_moved) (sym c.write_back_moved)

  shown_port :
      (get : ℕ → ℕ) (port field : ℕ)
      → port ≡ l.file.regs (get m.decode_register.current.instr)
      → get raw ≡ field
      → port ≡ m'.reg_file.regs field
  shown_port get port field shows is =
      shows
      ∙ (ap (λ (x : ℕ → ℕ). x (get m.decode_register.current.instr))
            (l.read.regs_are ∙ sym c.regs_are)
          ∙ ap m'.reg_file.regs (ap get instr_is ∙ is))

  -- The end of the cycle, field by field.
  ends :
      {T : Type 0} (f : PipelineModel → T)
      → f m' ≡ f (record h { ticks_counter = h.ticks_counter + 1 })
  ends f = ap f l.ended

  issue_lem : m'.execute_register.current ≡ filled (decoded i raw (read_state pc m') m')
  unfolding issue filled load_control_signals drive
  issue_lem =
      let port1 = shown_port get_rs1 _ (Isa.rs1 raw) l.read.shows1 (fields_lem raw word).3 in
      let port2 = shown_port get_rs2 _ (Isa.rs2 raw) l.read.shows2 (fields_lem raw word).4 in
      let d = m1.decode_register.current in
      let j = (drive a v m1).pc_r in
      let u' = signals i (fed raw m.control_unit) in
      let d' : DecodeState = record { v_de = false; pc_de = pc; instr = raw } in
      let x1 = m'.reg_file.regs (Isa.rs1 raw) in
      let x2 = m'.reg_file.regs (Isa.rs2 raw) in
      ends (λ t. t.execute_register.current)
      ∙ (restarted.execute_kept
          ∙ (ap (λ u. issue u l.file.read_data1 l.file.read_data2 d j m') unit_is
              ∙ (ap (λ x. issue u' x l.file.read_data2 d j m') port1
                  ∙ (ap (λ x. issue u' x1 x d j m') port2
                      ∙ (ap (λ y. issue u' x1 x2 y j m') decode_is
                          ∙ ap (λ y. issue u' x1 x2 d' y m') stay)))))

  pub next-IsReady : IsReady i raw pc m'
  unfolding drive filled load_control_signals
  next-IsReady = record {
    word = word;
    encodes = e;
    issued = issue_lem;
    bypass1 =
        ends (λ t. t.hu_rs1)
        ∙ (restarted.bypass1 ∙ seen (λ t x r w. bypass (has_rs1 t) (get_rs1 x) r w));
    bypass2 =
        ends (λ t. t.hu_rs2)
        ∙ (restarted.bypass2 ∙ seen (λ t x r w. bypass (has_rs2 t) (get_rs2 x) r w));
    no_conflict1 =
        sym (seen (λ t x r w. load_conflict (has_rs1 t) (get_rs1 x) r)) ∙ restarted.no_conflict1;
    no_conflict2 =
        sym (seen (λ t x r w. load_conflict (has_rs2 t) (get_rs2 x) r)) ∙ restarted.no_conflict2;
    fresh = ends (λ t. t.must_take_halted_wb) ∙ restarted.fresh_kept;
    behind =
        ends (λ t. t.decode_register.current.pc_de)
        ∙ (ap (λ (d : DecodeState). d.pc_de) restarted.decode_kept
            ∙ (ap (λ (t : PipelineModel). t.program_counter.current) from.left ∙ next));
  }

  -- The pipeline still flows.
  pub next-IsFlowing : IsFlowing m'
  next-IsFlowing = subst IsFlowing (sym l.ended) (record {
    pc_on = restarted.flows.pc_on;
    decode_on = restarted.flows.decode_on;
    execute_on = restarted.flows.execute_on;
    memory_on = restarted.flows.memory_on;
    write_back_on = restarted.flows.write_back_on;
  })

  -- The word that was fetched is behind it.
  pub next-IsBehind : IsBehind l.word ((pc + 4) % 2 ^ 32) m'
  unfolding drive
  next-IsBehind =
      ends (λ t. t.decode_register.current)
      ∙ (restarted.decode_kept
          ∙ (ap (λ (j : Bool). word_of j m1.program_counter.current) stay
              ∙ ap (word_of false)
                  (ap (λ (t : PipelineModel). t.program_counter.current) from.left ∙ next)))
    where
      word_of : Bool → ℕ → DecodeState
      word_of j p = record { v_de = j; pc_de = p; instr = l.word }

  -- The program counter goes on to the next word.
  pub next-pc :
      m1.execute_register.current.is_jalr ≡ false
      → m'.program_counter.current ≡ (m.program_counter.current + 4) % 2 ^ 32
  unfolding drive next_pc
  next-pc not_jalr =
      ends (λ t. t.program_counter.current)
      ∙ (restarted.pc_kept
          ∙ (plain (drive a v m1).pc_r m1.execute_register.current.is_jalr _ _ _ stay not_jalr
              ∙ ap (λ (t : PipelineModel). (t.program_counter.current + 4) % 2 ^ 32) from.left))
    where
      plain :
          (j through : Bool) (pc de disp : ℕ)
          → j ≡ false
          → through ≡ false
          → add_words (if through then 0 else multiplexer2 j pc de) (multiplexer2 j 4 disp)
            ≡ (pc + 4) % 2 ^ 32
      plain false false pc de disp e f = refl
      plain true through pc de disp e f = absurd (ground arith)
      plain false true pc de disp e f = absurd (ground arith)
