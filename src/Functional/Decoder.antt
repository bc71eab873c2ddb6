-- ===== src/Functional/Decoder.antt =====
-- models/functional/decoder.h: SWITCH_DECODER. `none` is a call of `std::terminate`: UNREACHABLE
-- on an opcode that no case names, and in a debug build the failed ASSERT on JALR.
use risc_v_co_simulator.Base.{
  ℕ, Bool, not, ◌&&◌, ◌^◌, Option, none, some, ◌==◌, if◌then◌else◌, bit_and,
}
use risc_v_co_simulator.Functional.Instruction.{
  Rv32i, lui, auipc, jal, jalr, beq, bne, blt, bge, bltu, bgeu, lb, lh, lw, lbu, lhu, sb, sh, sw,
  addi, slti, sltiu, xori, ori, andi, slli, srli, srai, add, sub, sll, slt, sltu, xor, srl, sra, or,
  and, fence, ecall, ebreak, unknown, opcode, funct3,
}

-- `raw & (1 << n)` as a condition
abbrev pub has_bit : ℕ → ℕ → Bool
has_bit raw n = not (bit_and raw (2 ^ n) == 0)

-- case 0b1100011
unfoldable pub decode_branch : ℕ → Rv32i
decode_branch raw =
    let f = funct3 raw in
    if f == 0
    then beq
    else if f == 1
    then bne
    else if f == 0b100
    then blt
    else if f == 0b101
    then bge
    else if f == 0b110
    then bltu
    else if f == 0b111
    then bgeu
    else unknown

-- case 0b0000011
unfoldable pub decode_load : ℕ → Rv32i
decode_load raw =
    let f = funct3 raw in
    if f == 0
    then lb
    else if f == 1
    then lh
    else if f == 0b010
    then lw
    else if f == 0b100
    then lbu
    else if f == 0b101
    then lhu
    else unknown

-- case 0b0100011
unfoldable pub decode_store : ℕ → Rv32i
decode_store raw =
    let f = funct3 raw in
    if f == 0 then sb else if f == 1 then sh else if f == 2 then sw else unknown

-- case 0b0010011
unfoldable pub decode_op_imm : ℕ → Rv32i
decode_op_imm raw =
    let f = funct3 raw in
    if f == 0
    then addi
    else if f == 0b010
    then slti
    else if f == 0b011
    then sltiu
    else if f == 0b100
    then xori
    else if f == 0b110
    then ori
    else if f == 0b111
    then andi
    else if f == 0b001
    then slli
    else if f == 0b101
    then (if has_bit raw 30 then srai else srli)
    else unknown

-- case 0b0110011
unfoldable pub decode_op : ℕ → Rv32i
decode_op raw =
    let f = funct3 raw in
    if f == 0
    then (if has_bit raw 30 then sub else add)
    else if f == 1
    then sll
    else if f == 0b010
    then slt
    else if f == 0b011
    then sltu
    else if f == 0b100
    then xor
    else if f == 0b101
    then (if has_bit raw 30 then sra else srl)
    else if f == 0b110
    then or
    else if f == 0b111
    then and
    else unknown

unfoldable pub decode : (debug : Bool) → ℕ → Option Rv32i
unfolding decode_branch decode_load decode_store decode_op_imm decode_op
decode debug raw =
    let op = opcode raw in
    if op == 0b0110111
    then some lui
    else if op == 0b0010111
    then some auipc
    else if op == 0b1101111
    then some jal
    else if op == 0b1100111
    then (if debug && not (funct3 raw == 0) then none else some jalr)
    else if op == 0b1100011
    then some (decode_branch raw)
    else if op == 0b0000011
    then some (decode_load raw)
    else if op == 0b0100011
    then some (decode_store raw)
    else if op == 0b0010011
    then some (decode_op_imm raw)
    else if op == 0b0110011
    then some (decode_op raw)
    else if op == 0b0001111
    then some fence
    else if op == 0b1110011
    then some (if has_bit raw 20 then ebreak else ecall)
    else none
