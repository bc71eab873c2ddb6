-- ===== src/Pipeline/Datapath.antt =====
-- An instruction that goes through the stages with its operands at hand: what DoDecode, DoExecute
-- and the clock make of it, against the manual.
pub mod Refines
pub mod Memory
pub mod Store
use risc_v_co_simulator.Base.{
  ℕ, ◌+◌, ◌-◌, ◌*◌, ◌/◌, ◌%◌, ◌^◌, ◌<◌, ◌≡◌, ◌≢◌, ◌∙◌, ap, refl, arith, Bool-cases, inl, inr, u32,
  Bool, true, false, not, ◌||◌, ◌&&◌, ◌==◌, if◌then◌else◌, u8, bit_and, bit_and_low,
}
use risc_v_co_simulator.Isa
use risc_v_co_simulator.Isa.{State, Effect, apply}
use risc_v_co_simulator.Isa.Encoding.{Encodes, fields}
use risc_v_co_simulator.Functional.Instruction.{
  Rv32i, lui, auipc, jal, jalr, beq, bne, blt, bge, bltu, bgeu, lb, lh, lw, lbu, lhu, sb, sh, sw,
  addi, slti, sltiu, xori, ori, andi, slli, srli, srai, add, sub, sll, slt, sltu, xor, srl, sra, or,
  and, fence, ecall, ebreak, unknown,
}
use risc_v_co_simulator.Functional.Refines.Control.{clear_lowest}
use risc_v_co_simulator.Pipeline.Modules.Alu.{alu, cmp}
use risc_v_co_simulator.Pipeline.Modules.Gates.{add_words, multiplexer2}
use risc_v_co_simulator.Pipeline.Instruction.{
  InstructionType, j_type, b_type, immediate_extension_block, immediate_of, get_opcode,
  get_instruction_type, get_rd,
}
use risc_v_co_simulator.Pipeline.Stages.{MemoryState, ExecuteState}
use risc_v_co_simulator.Pipeline.Blocks.{
  alu-operation, operation, cmp-condition, condition, fields_lem, immediate, immediate_of-immediate,
}
use risc_v_co_simulator.Pipeline.Signals.{
  fed, signals, format, uses_immediate, has_destination, is, is_jalr, operation_of, condition_of,
  is_load,
}
use risc_v_co_simulator.Pipeline.Control.{load_control_signals}
use risc_v_co_simulator.Pipeline.Model.{PipelineModel}
use risc_v_co_simulator.Pipeline.Execute.{drive, executed, displacement}
use risc_v_co_simulator.Pipeline.Tick.{filled, next_pc}

-- The pipeline with an instruction decoded: its word and address in the decode register, its
-- operands on the read ports, its signals on the control unit, the memory as in `s`, and no jump
-- under way.
abbrev pub decoded : Rv32i → ℕ → State → PipelineModel → PipelineModel
decoded i raw s m = record m {
  pc_r = false;
  mmu = record (m.mmu) { cell = s.mem };
  control_unit = signals i (fed raw m.control_unit);
  decode_register = record (m.decode_register) {
    current = record { v_de = false; pc_de = s.pc; instr = raw };
  };
  reg_file = record (m.reg_file) { read_data1 = s.x (Isa.rs1 raw); read_data2 = s.x (Isa.rs2 raw) };
}

-- The clock edge that takes it to the execute stage.
abbrev pub clocked : PipelineModel → PipelineModel
clocked m = record m { execute_register = record (m.execute_register) { current = filled m } }

-- The execute stage on the operands that were read.
unfoldable pub executed_alone : PipelineModel → PipelineModel
unfolding drive
executed_alone m = drive m.execute_register.current.data1 m.execute_register.current.data2 m

-- What the wires after the execute stage mean for an instruction at `s` that uses no memory.
unfoldable pub retired : State → PipelineModel → Effect
unfolding next_pc
retired s m =
    let r = m.memory_register.next in
    Effect.next (record s {
      pc = if m.pc_r then next_pc m else (s.pc + 4) % 2 ^ 32;
      x = if r.wb_we then Isa.put s.x r.wb_a r.alu_res else s.x;
    })

-- The operands of an instruction: 0 of LUI, the address of AUIPC, or a register; and the immediate
-- or the other register.
abbrev pub operand_a : Rv32i → ℕ → State → ℕ
operand_a lui raw s = 0
operand_a auipc raw s = s.pc
operand_a _ raw s = s.x (Isa.rs1 raw)

abbrev pub operand_b : Rv32i → ℕ → State → ℕ
operand_b i raw s =
    if uses_immediate (format i) then immediate (format i) raw else s.x (Isa.rs2 raw)

-- Whether an instruction jumps, and where: what its signals make of the operands.
abbrev pub taken : Rv32i → ℕ → State → Bool
taken i raw s =
    (is (format i) j_type || is_jalr i)
    || (condition (condition_of i) (operand_a i raw s) (s.x (Isa.rs2 raw)) && is (format i) b_type)

abbrev pub target : Rv32i → ℕ → State → ℕ
target i raw s =
    if is_jalr i
    then u32 (
        0 + bit_and (operation (operation_of i) (operand_a i raw s) (operand_b i raw s)) 0xfffffffe)
    else u32 (s.pc + immediate (format i) raw)

abbrev pub retirement : Rv32i → ℕ → State → Effect
retirement i raw s = Effect.next (record s {
  pc = if taken i raw s then target i raw s else (s.pc + 4) % 2 ^ 32;
  x =
      if has_destination (format i) && true
      then Isa.put s.x (Isa.rd raw) (
          if is (format i) j_type || is_jalr i
          then u32 (s.pc + 4)
          else operation (operation_of i) (operand_a i raw s) (operand_b i raw s))
      else s.x;
})

-- The adder of DoFetch, for a jump and otherwise.
adder_lem :
    (jump through : Bool) (pc fetched r imm plain : ℕ)
    → (if jump
        then u32 (
            (if through then 0 else (if jump then pc else fetched))
            + (if jump then (if through then r else imm) else 4))
        else plain)
      ≡ (if jump then (if through then u32 (0 + r) else u32 (pc + imm)) else plain)
adder_lem true true pc fetched r imm plain = refl
adder_lem true false pc fetched r imm plain = refl
adder_lem false through pc fetched r imm plain = refl

type_lem : (i : Rv32i) → get_instruction_type ((fields i).0) ≡ format i
unfolding get_instruction_type
type_lem lui = refl
type_lem _ = refl

module _ (raw : ℕ) (word : raw < 2 ^ 32) where
  -- On a word that the manual encodes as an instruction, ImmediateExtensionBlock gives the
  -- immediate of that instruction's format.
  pub imm_lem :
      (i : Rv32i) → Encodes i raw → immediate_extension_block raw ≡ immediate (format i) raw
  unfolding immediate_extension_block
  imm_lem i e =
      let sign : u8 (bit_and (raw / 2 ^ 31) 1) ≡ bit_and (raw / 2 ^ 31) 1 =
        omega (arith, bit_and_low 1 (raw / 2 ^ 31)) in
      rw ((fields_lem raw word).0, e.opcode_field, sign, type_lem i)
        (immediate_of-immediate raw word (format i))

  immediate-lt : (t : InstructionType) → immediate t raw < 2 ^ 32
  unfolding immediate
  immediate-lt InstructionType.unknown = omega arith
  immediate-lt _ = ground arith

  module _ (s : State) (valid : Isa.IsValid s) (i : Rv32i) (e : Encodes i raw)
      (m : PipelineModel) where
    pub operand_a_lem :
        multiplexer2
          (get_opcode raw == 0b0110111)
          (multiplexer2 (get_opcode raw == 0b0010111) (s.x (Isa.rs1 raw)) s.pc)
          0
        ≡ operand_a i raw s
    operand_a_lem = rw ((fields_lem raw word).0, e.opcode_field) (of_opcode i)
      where
        of_opcode :
            (i : Rv32i)
            → multiplexer2
                ((fields i).0 == 0b0110111)
                (multiplexer2 ((fields i).0 == 0b0010111) (s.x (Isa.rs1 raw)) s.pc)
                0
              ≡ operand_a i raw s
        of_opcode lui = refl
        of_opcode _ = refl

    pub operand_a-lt : operand_a i raw s < 2 ^ 32
    operand_a-lt = bound i
      where
        bound : (i : Rv32i) → operand_a i raw s < 2 ^ 32
        bound lui = omega arith
        bound auipc = valid.pc_word
        bound _ = valid.reg_word _

    pub operand_b-lt : operand_b i raw s < 2 ^ 32
    operand_b-lt = elim (Bool-cases (uses_immediate (format i))) [
      | inl h ↦ rw h (immediate-lt (format i))
      | inr h ↦ rw h (valid.reg_word _)
    ]

    pub retire_lem : retired s (executed_alone (clocked (decoded i raw s m))) ≡ retirement i raw s
    unfolding retired executed_alone drive filled load_control_signals next_pc executed displacement
    retire_lem =
        rw
          (
            imm_lem i e,
            (fields_lem raw word).1,
            operand_a_lem,
            alu-operation (operand_a i raw s) (operand_b i raw s) operand_a-lt operand_b-lt
                (operation_of i),
            cmp-condition (operand_a i raw s) (s.x (Isa.rs2 raw)) operand_a-lt (valid.reg_word _)
                (condition_of i),
          )
          (ap
            (λ p. Effect.next (record s {
              pc = p;
              x =
                  if has_destination (format i) && true
                  then Isa.put s.x (Isa.rd raw) (
                      if is (format i) j_type || is_jalr i
                      then u32 (s.pc + 4)
                      else operation (operation_of i) (operand_a i raw s) (operand_b i raw s))
                  else s.x;
            }))
            (adder_lem (taken i raw s) (is_jalr i) s.pc m.program_counter.current
              (bit_and (operation (operation_of i) (operand_a i raw s) (operand_b i raw s))
                0xfffffffe)
              (immediate (format i) raw) ((s.pc + 4) % 2 ^ 32)))
