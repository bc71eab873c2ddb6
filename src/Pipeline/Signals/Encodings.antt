-- ===== src/Pipeline/Signals/Encodings.antt =====
-- The control unit on the encodings of the manual.
use risc_v_co_simulator.Base.{true, false, ◌∙◌, ℕ, ◌^◌, ◌<◌, ◌≡◌, ◌≢◌, refl, arith, Bool}
use risc_v_co_simulator.Isa.Encoding.{Encodes}
use risc_v_co_simulator.Runtime.{Stop, done, stop, ecall_exception, ebreak_exception}
use risc_v_co_simulator.Functional.Instruction.{
  Rv32i, lui, auipc, jal, jalr, lb, lh, lw, lbu, lhu, sb, sh, sw, slli, srli, srai, add, sub, srl,
  sra, fence, ecall, ebreak, unknown,
}
use risc_v_co_simulator.Pipeline.Instruction.{get_instruction_type, get_opcode}
use risc_v_co_simulator.Pipeline.Blocks.{fields_lem}
use risc_v_co_simulator.Pipeline.Control.{
  ControlUnit, tick, check_system, alu_op_of, cmp_control_of, alu_op_reg, alu_op_imm,
}
use risc_v_co_simulator.Pipeline.Signals.{fed, signals}
use risc_v_co_simulator.Isa.Encoding.{fields}

-- The instructions that end a program, and how.
abbrev pub is_system : Rv32i → Bool
is_system ecall = true
is_system ebreak = true
is_system _ = false

abbrev pub exception_of : Rv32i → Stop
exception_of ebreak = ebreak_exception
exception_of _ = ecall_exception

module _ (raw : ℕ) (word : raw < 2 ^ 32) (debug : Bool) (c : ControlUnit) where
  fed_opcode : (i : Rv32i) → Encodes i raw → get_opcode raw ≡ (fields i).0
  fed_opcode i e = (fields_lem raw word).0 ∙ e.opcode_field

  -- On a word that the manual encodes as an instruction but ECALL and EBREAK, the control unit
  -- throws nothing and sets every signal as `signals` says for that instruction.
  pub tick-signals :
      (i : Rv32i)
      → i ≢ ecall
      → i ≢ ebreak
      → Encodes i raw
      → tick debug (fed raw c) ≡ done tt (signals i (fed raw c))
  unfolding tick check_system alu_op_of cmp_control_of alu_op_reg alu_op_imm get_instruction_type
  tick-signals lui not_ecall not_ebreak e = rw (fed_opcode lui e) refl
  tick-signals auipc not_ecall not_ebreak e = rw (fed_opcode auipc e) refl
  tick-signals jal not_ecall not_ebreak e = rw (fed_opcode jal e) refl
  tick-signals jalr not_ecall not_ebreak e = rw (fed_opcode jalr e) refl
  tick-signals lb not_ecall not_ebreak e = rw (fed_opcode lb e) refl
  tick-signals lh not_ecall not_ebreak e = rw (fed_opcode lh e) refl
  tick-signals lw not_ecall not_ebreak e = rw (fed_opcode lw e) refl
  tick-signals lbu not_ecall not_ebreak e = rw (fed_opcode lbu e) refl
  tick-signals lhu not_ecall not_ebreak e = rw (fed_opcode lhu e) refl
  tick-signals sb not_ecall not_ebreak e = rw (fed_opcode sb e) refl
  tick-signals sh not_ecall not_ebreak e = rw (fed_opcode sh e) refl
  tick-signals sw not_ecall not_ebreak e = rw (fed_opcode sw e) refl
  tick-signals fence not_ecall not_ebreak e = rw (fed_opcode fence e) refl
  tick-signals slli not_ecall not_ebreak e =
      rw
        (
          fed_opcode slli e,
          (fields_lem raw word).2,
          e.funct3_field,
          (fields_lem raw word).5,
          e.funct7_field,
        )
        refl
  tick-signals srli not_ecall not_ebreak e =
      rw
        (
          fed_opcode srli e,
          (fields_lem raw word).2,
          e.funct3_field,
          (fields_lem raw word).5,
          e.funct7_field,
        )
        refl
  tick-signals srai not_ecall not_ebreak e =
      rw
        (
          fed_opcode srai e,
          (fields_lem raw word).2,
          e.funct3_field,
          (fields_lem raw word).5,
          e.funct7_field,
        )
        refl
  tick-signals add not_ecall not_ebreak e =
      rw
        (
          fed_opcode add e,
          (fields_lem raw word).2,
          e.funct3_field,
          (fields_lem raw word).5,
          e.funct7_field,
        )
        refl
  tick-signals sub not_ecall not_ebreak e =
      rw
        (
          fed_opcode sub e,
          (fields_lem raw word).2,
          e.funct3_field,
          (fields_lem raw word).5,
          e.funct7_field,
        )
        refl
  tick-signals srl not_ecall not_ebreak e =
      rw
        (
          fed_opcode srl e,
          (fields_lem raw word).2,
          e.funct3_field,
          (fields_lem raw word).5,
          e.funct7_field,
        )
        refl
  tick-signals sra not_ecall not_ebreak e =
      rw
        (
          fed_opcode sra e,
          (fields_lem raw word).2,
          e.funct3_field,
          (fields_lem raw word).5,
          e.funct7_field,
        )
        refl
  tick-signals ecall not_ecall not_ebreak e = absurd (not_ecall refl)
  tick-signals ebreak not_ecall not_ebreak e = absurd (not_ebreak refl)
  tick-signals unknown not_ecall not_ebreak e = absurd (omega (arith, e.opcode_field))
  tick-signals _ not_ecall not_ebreak e =
      rw ((fields_lem raw word).0, e.opcode_field, (fields_lem raw word).2, e.funct3_field) refl

  tick-ecall : Encodes ecall raw → tick debug (fed raw c) ≡ stop ecall_exception (fed raw c)
  unfolding tick check_system
  tick-ecall e =
      rw
        (
          (fields_lem raw word).0,
          e.opcode_field,
          (fields_lem raw word).2,
          e.funct3_field,
          (fields_lem raw word).5,
          e.funct7_field,
          (fields_lem raw word).4,
          e.rs2_field,
        )
        (ground arith)

  tick-ebreak : Encodes ebreak raw → tick debug (fed raw c) ≡ stop ebreak_exception (fed raw c)
  unfolding tick check_system
  tick-ebreak e =
      rw
        (
          (fields_lem raw word).0,
          e.opcode_field,
          (fields_lem raw word).2,
          e.funct3_field,
          (fields_lem raw word).5,
          e.funct7_field,
          (fields_lem raw word).4,
          e.rs2_field,
        )
        (ground arith)

  -- On the encoding of ECALL or EBREAK the control unit throws EcallException or EbreakException,
  -- and changes no signal.
  pub tick-system :
      (i : Rv32i)
      → Encodes i raw
      → is_system i ≡ true
      → tick debug (fed raw c) ≡ stop (exception_of i) (fed raw c)
  tick-system ecall e t = tick-ecall e
  tick-system ebreak e t = tick-ebreak e
  tick-system _ e t = absurd (ground arith)
