-- ===== src/Functional/Complete.antt =====
-- The decoder of models/functional/decoder.h on the encodings of the manual.
use risc_v_co_simulator.Base.{
  ℕ, ◌/◌, ◌%◌, ◌^◌, ◌<◌, ◌≡◌, refl, arith, Bool, not, ◌==◌, some, bit_and_low, bit_and_high,
}
use risc_v_co_simulator.Isa.Encoding.{Encodes}
use risc_v_co_simulator.Functional.Instruction.{
  Rv32i, lui, auipc, jal, jalr, srli, srai, add, sub, srl, sra, fence, ecall, ebreak, unknown,
  opcode,
}
use risc_v_co_simulator.Functional.Decoder.{
  decode, decode_branch, decode_load, decode_store, decode_op_imm, decode_op, has_bit,
}

module _ (raw : ℕ) (word : raw < 2 ^ 32) where
  bit_30 : (k : ℕ) → raw / 2 ^ 25 ≡ k → has_bit raw 30 ≡ not (k / 32 % 2 == 0)
  bit_30 k e = ground (arith, bit_and_high 30 raw 1, bit_and_low 1 (raw / 2 ^ 30))

  bit_20 : (k : ℕ) → raw / 2 ^ 20 % 32 ≡ k → has_bit raw 20 ≡ not (k % 2 == 0)
  bit_20 k e = ground (arith, bit_and_high 20 raw 1, bit_and_low 1 (raw / 2 ^ 20))

  opcode_lem : opcode raw ≡ raw % 2 ^ 7
  opcode_lem = omega arith

  module _ (debug : Bool) where
    -- A word that the manual encodes as an instruction is decoded as that instruction, in a debug
    -- build too.
    pub decode-Encodes : (i : Rv32i) → Encodes i raw → decode debug raw ≡ some i
    unfolding decode decode_branch decode_load decode_store decode_op_imm decode_op
    decode-Encodes lui e = rw (opcode_lem, e.opcode_field) refl
    decode-Encodes auipc e = rw (opcode_lem, e.opcode_field) refl
    decode-Encodes jal e = rw (opcode_lem, e.opcode_field) refl
    decode-Encodes fence e = rw (opcode_lem, e.opcode_field) refl
    decode-Encodes jalr e = rw (opcode_lem, e.opcode_field, e.funct3_field) (ground arith)
    decode-Encodes srli e =
        rw (opcode_lem, e.opcode_field, e.funct3_field, bit_30 _ e.funct7_field) refl
    decode-Encodes srai e =
        rw (opcode_lem, e.opcode_field, e.funct3_field, bit_30 _ e.funct7_field) refl
    decode-Encodes add e =
        rw (opcode_lem, e.opcode_field, e.funct3_field, bit_30 _ e.funct7_field) refl
    decode-Encodes sub e =
        rw (opcode_lem, e.opcode_field, e.funct3_field, bit_30 _ e.funct7_field) refl
    decode-Encodes srl e =
        rw (opcode_lem, e.opcode_field, e.funct3_field, bit_30 _ e.funct7_field) refl
    decode-Encodes sra e =
        rw (opcode_lem, e.opcode_field, e.funct3_field, bit_30 _ e.funct7_field) refl
    decode-Encodes ecall e = rw (opcode_lem, e.opcode_field, bit_20 _ e.rs2_field) refl
    decode-Encodes ebreak e = rw (opcode_lem, e.opcode_field, bit_20 _ e.rs2_field) refl
    decode-Encodes unknown e = absurd (omega (arith, e.opcode_field))
    decode-Encodes _ e = rw (opcode_lem, e.opcode_field, e.funct3_field) refl
