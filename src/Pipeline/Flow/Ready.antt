-- ===== src/Pipeline/Flow/Ready.antt =====
-- An instruction in the execute stage with older instructions in flight, and its operands.
use risc_v_co_simulator.Base.{
  ℕ, ◌+◌, ◌%◌, ◌^◌, ◌<◌, ◌≡◌, sym, ap, ◌∙◌, refl, arith, Bool, true, false, some,
}
use risc_v_co_simulator.Isa
use risc_v_co_simulator.Isa.{State}
use risc_v_co_simulator.Isa.Encoding.{Encodes}
use risc_v_co_simulator.Functional.Instruction.{Rv32i, lui, auipc, jal, fence, unknown}
use risc_v_co_simulator.Pipeline.Instruction.{get_rs1, get_rs2, has_rs1, has_rs2}
use risc_v_co_simulator.Pipeline.Stages.{ExecuteState}
use risc_v_co_simulator.Pipeline.Signals.{format}
use risc_v_co_simulator.Pipeline.Blocks.{fields_lem}
use risc_v_co_simulator.Pipeline.Control.{load_control_signals}
use risc_v_co_simulator.Pipeline.Model.{PipelineModel, unused}
use risc_v_co_simulator.Pipeline.Execute.{source_a, source_rs2}
use risc_v_co_simulator.Pipeline.Tick.{filled}
use risc_v_co_simulator.Pipeline.Tick.Hazard.{bypass, load_conflict}
use risc_v_co_simulator.Pipeline.Forwarding.{forwarded, bypass_lem}
use risc_v_co_simulator.Pipeline.Datapath.{decoded, operand_a, operand_a_lem}
use risc_v_co_simulator.Pipeline.Sound.{IsSound}
use risc_v_co_simulator.Pipeline.Flow.{commit}
use risc_v_co_simulator.Pipeline.Flow.Steps.{MemoryDone}
use risc_v_co_simulator.Pipeline.Flow.Operands.{pending, forwarded-commit}

-- The registers of the register file, with `pc` as the program counter.
abbrev pub read_state : (pc : ℕ) → PipelineModel → State
read_state pc m = record { pc = pc; x = m.reg_file.regs; mem = m.mmu.cell }

-- The instruction `i`, the word `raw` at `pc`, is in the execute stage as DoDecode issues it with
-- the values of the register file. The hazard unit has set the bypasses of its operands, no load
-- that it needs is in the memory stage, and the decode register holds the word that follows it.
pub record IsReady (i : Rv32i) (raw pc : ℕ) (m : PipelineModel) : Type 0 where
  pub word : raw < 2 ^ 32
  pub encodes : Encodes i raw
  pub issued : m.execute_register.current ≡ filled (decoded i raw (read_state pc m) m)
  pub bypass1 :
      m.hu_rs1
      ≡ bypass
          (has_rs1 (format i))
          (get_rs1 raw)
          m.memory_register.current
          m.write_back_register.current
  pub bypass2 :
      m.hu_rs2
      ≡ bypass
          (has_rs2 (format i))
          (get_rs2 raw)
          m.memory_register.current
          m.write_back_register.current
  pub no_conflict1 :
      load_conflict (has_rs1 (format i)) (get_rs1 raw) m.memory_register.current ≡ false
  pub no_conflict2 :
      load_conflict (has_rs2 (format i)) (get_rs2 raw) m.memory_register.current ≡ false
  pub fresh : m.must_take_halted_wb ≡ unused
  pub behind : m.decode_register.current.pc_de ≡ (pc + 4) % 2 ^ 32

-- Whether an instruction uses the operand that comes from `rs1`, or the register `rs2`.
abbrev pub needs_a : Rv32i → Bool
needs_a jal = false
needs_a _ = true

abbrev pub needs_rs2 : Rv32i → Bool
needs_rs2 lui = false
needs_rs2 auipc = false
needs_rs2 jal = false
needs_rs2 fence = false
needs_rs2 unknown = false
needs_rs2 _ = true

module _ (i : Rv32i) (raw pc : ℕ) (m m1 : PipelineModel) (ready : IsReady i raw pc m)
    (from : MemoryDone m m1) where
  abbrev pub found_a : ℕ
  found_a =
      forwarded (has_rs1 (format i)) (get_rs1 raw) m.memory_register.current
        m.write_back_register.current m.execute_register.current.data1

  abbrev pub found_rs2 : ℕ
  found_rs2 =
      forwarded (has_rs2 (format i)) (get_rs2 raw) m.memory_register.current
        m.write_back_register.current m.execute_register.current.data2

  pub source_a_lem : source_a m1 ≡ some found_a
  unfolding source_a
  source_a_lem =
      ap source_a from.left
      ∙ rw (source_a, ready.fresh, ready.bypass1)
          (bypass_lem (has_rs1 (format i)) (get_rs1 raw) m.memory_register.current
            m.write_back_register.current m.execute_register.current.data1)

  pub source_rs2_lem : source_rs2 m1 ≡ some found_rs2
  unfolding source_rs2
  source_rs2_lem =
      ap source_rs2 from.left
      ∙ rw (source_rs2, ready.fresh, ready.bypass2)
          (bypass_lem (has_rs2 (format i)) (get_rs2 raw) m.memory_register.current
            m.write_back_register.current m.execute_register.current.data2)

  -- The state once the older instructions are finished.
  abbrev pub older_done : State
  older_done = record {
    pc = pc;
    x =
        commit (commit m.reg_file.regs m.write_back_register.current)
          (pending m.memory_register.current from.shown);
    mem = from.mmu.cell;
  }

  module _ (ok : IsSound m) where
    -- A register that an instruction reads is found with its forwarded value.
    found_lem :
        (used : Bool) (rs shown : ℕ)
        → used ≡ true
        → load_conflict used rs m.memory_register.current ≡ false
        → shown ≡ m.reg_file.regs rs
        → forwarded used rs m.memory_register.current m.write_back_register.current shown
          ≡ older_done.x rs
    found_lem true rs shown on free same =
        ap (λ (t : ℕ). forwarded true rs m.memory_register.current m.write_back_register.current t)
          same
        ∙ forwarded-commit m.reg_file.regs ok.registers.zero_reg m.memory_register.current
            m.write_back_register.current from.shown rs free
    found_lem false rs shown on free same = absurd (ground arith)

    pub found_rs2_lem : needs_rs2 i ≡ true → found_rs2 ≡ older_done.x (Isa.rs2 raw)
    unfolding filled load_control_signals has_rs2
    found_rs2_lem needed =
        let field = (fields_lem raw ready.word).4 in
        let held = ap (λ (t : ExecuteState). t.data2) ready.issued in
        found_lem (has_rs2 (format i)) (get_rs2 raw) m.execute_register.current.data2
          (uses i needed) ready.no_conflict2 (held ∙ ap m.reg_file.regs (sym field))
        ∙ ap older_done.x field
      where
        uses : (i : Rv32i) → needs_rs2 i ≡ true → has_rs2 (format i) ≡ true
        uses lui h = absurd (ground arith)
        uses auipc h = absurd (ground arith)
        uses jal h = absurd (ground arith)
        uses fence h = absurd (ground arith)
        uses unknown h = absurd (ground arith)
        uses _ h = refl

    module _ (pc_word : pc < 2 ^ 32) where
      held_a : m.execute_register.current.data1 ≡ operand_a i raw (read_state pc m)
      unfolding filled load_control_signals
      held_a =
          ap (λ (t : ExecuteState). t.data1) ready.issued
          ∙ operand_a_lem raw ready.word (read_state pc m) valid i ready.encodes m
        where
          valid : Isa.IsValid (read_state pc m)
          valid = record {
            pc_word = pc_word;
            zero_reg = ok.registers.zero_reg;
            reg_word = ok.registers.reg_word;
            cell_byte = ok.memory.cell_byte;
          }

      pub found_a_lem : needs_a i ≡ true → found_a ≡ operand_a i raw older_done
      unfolding has_rs1
      found_a_lem needed = of i needed held_a ready.no_conflict1
        where
          of :
              (i : Rv32i)
              → needs_a i ≡ true
              → m.execute_register.current.data1 ≡ operand_a i raw (read_state pc m)
              → load_conflict (has_rs1 (format i)) (get_rs1 raw) m.memory_register.current ≡ false
              → forwarded
                  (has_rs1 (format i))
                  (get_rs1 raw)
                  m.memory_register.current
                  m.write_back_register.current
                  m.execute_register.current.data1
                ≡ operand_a i raw older_done
          of lui h e free = e
          of auipc h e free = e
          of jal h e free = absurd (ground arith)
          of _ h e free =
              let field = (fields_lem raw ready.word).3 in
              found_lem true (get_rs1 raw) m.execute_register.current.data1 refl free
                (e ∙ ap m.reg_file.regs (sym field))
              ∙ ap older_done.x field
