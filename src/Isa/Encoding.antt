-- ===== src/Isa/Encoding.antt =====
-- The encodings of RV32I, from the instruction listing of the manual: an opcode, and the fields
-- that the opcode leaves to the instruction.
use risc_v_co_simulator.Base.{ℕ, ◌/◌, ◌%◌, ◌^◌, ◌≡◌, Option, none, some}
use risc_v_co_simulator.Functional.Instruction.{
  Rv32i, lui, auipc, jal, jalr, beq, bne, blt, bge, bltu, bgeu, lb, lh, lw, lbu, lhu, sb, sh, sw,
  addi, slti, sltiu, xori, ori, andi, slli, srli, srai, add, sub, sll, slt, sltu, xor, srl, sra, or,
  and, fence, ecall, ebreak, unknown,
}

-- opcode, funct3, funct7 and the field of `rs2`
abbrev Fields : Type 0
Fields = ℕ × Option ℕ × Option ℕ × Option ℕ

abbrev pub fields : Rv32i → Fields
fields lui = (0b0110111, none, none, none)
fields auipc = (0b0010111, none, none, none)
fields jal = (0b1101111, none, none, none)
fields jalr = (0b1100111, some 0, none, none)
fields beq = (0b1100011, some 0, none, none)
fields bne = (0b1100011, some 1, none, none)
fields blt = (0b1100011, some 4, none, none)
fields bge = (0b1100011, some 5, none, none)
fields bltu = (0b1100011, some 6, none, none)
fields bgeu = (0b1100011, some 7, none, none)
fields lb = (0b0000011, some 0, none, none)
fields lh = (0b0000011, some 1, none, none)
fields lw = (0b0000011, some 2, none, none)
fields lbu = (0b0000011, some 4, none, none)
fields lhu = (0b0000011, some 5, none, none)
fields sb = (0b0100011, some 0, none, none)
fields sh = (0b0100011, some 1, none, none)
fields sw = (0b0100011, some 2, none, none)
fields addi = (0b0010011, some 0, none, none)
fields slti = (0b0010011, some 2, none, none)
fields sltiu = (0b0010011, some 3, none, none)
fields xori = (0b0010011, some 4, none, none)
fields ori = (0b0010011, some 6, none, none)
fields andi = (0b0010011, some 7, none, none)
fields slli = (0b0010011, some 1, some 0, none)
fields srli = (0b0010011, some 5, some 0, none)
fields srai = (0b0010011, some 5, some 0b0100000, none)
fields add = (0b0110011, some 0, some 0, none)
fields sub = (0b0110011, some 0, some 0b0100000, none)
fields sll = (0b0110011, some 1, some 0, none)
fields slt = (0b0110011, some 2, some 0, none)
fields sltu = (0b0110011, some 3, some 0, none)
fields xor = (0b0110011, some 4, some 0, none)
fields srl = (0b0110011, some 5, some 0, none)
fields sra = (0b0110011, some 5, some 0b0100000, none)
fields or = (0b0110011, some 6, some 0, none)
fields and = (0b0110011, some 7, some 0, none)
fields fence = (0b0001111, some 0, none, none)
fields ecall = (0b1110011, some 0, some 0, some 0)
fields ebreak = (0b1110011, some 0, some 0, some 1)
fields unknown = (128, none, none, none)

abbrev pub Fits : Option ℕ → ℕ → Type 0
Fits none v = Unit
Fits (some k) v = v ≡ k

-- `raw` is an encoding of the instruction; no word is one of `unknown`.
pub record Encodes (i : Rv32i) (raw : ℕ) : Type 0 where
  pub opcode_field : raw % 2 ^ 7 ≡ (fields i).0
  pub funct3_field : Fits ((fields i).1) (raw / 2 ^ 12 % 8)
  pub funct7_field : Fits ((fields i).2) (raw / 2 ^ 25)
  pub rs2_field : Fits ((fields i).3) (raw / 2 ^ 20 % 32)
