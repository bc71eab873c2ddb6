-- ===== src/Functional/Instruction.antt =====
-- models/functional/instruction.h: the names of the instructions, the bit-fields of the layouts of
-- `InstrLayout`, and the immediates that `GetImm` rebuilds from them. A structure of bit-fields
-- starts at the lowest bit.
use risc_v_co_simulator.Base.{ℕ, ◌+◌, ◌-◌, ◌*◌, ◌/◌, ◌%◌, ◌^◌, ◌==◌, if◌then◌else◌, bit_and, bits}

pub data Rv32i : Type 0 where
  lui auipc jal jalr : Rv32i
  beq bne blt bge bltu bgeu : Rv32i
  lb lh lw lbu lhu : Rv32i
  sb sh sw : Rv32i
  addi slti sltiu xori ori andi slli srli srai : Rv32i
  add sub sll slt sltu xor srl sra or and : Rv32i
  fence ecall ebreak unknown : Rv32i

abbrev pub opcode : ℕ → ℕ
opcode raw = bits raw 0 7

abbrev pub rd : ℕ → ℕ
rd raw = bits raw 7 5

abbrev pub funct3 : ℕ → ℕ
funct3 raw = bits raw 12 3

abbrev pub rs1 : ℕ → ℕ
rs1 raw = bits raw 15 5

abbrev pub rs2 : ℕ → ℕ
rs2 raw = bits raw 20 5

abbrev pub funct7 : ℕ → ℕ
funct7 raw = bits raw 25 7

-- `se--` on a field of `width` bits that is 0.
abbrev decremented : ℕ → ℕ
decremented width = (0 + 2 ^ width - 1) % 2 ^ width

-- RV32ITypeI::GetImm. `imm_i_type` is 12 bits of `imm` below 20 bits of `se`.
unfoldable pub get_imm_i : ℕ → ℕ
get_imm_i raw =
    let imm = bits raw 20 12 in
    let se = if bit_and (raw / 2 ^ 31) 1 == 0 then 0 else decremented 20 in imm + se * 2 ^ 12

-- RV32ITypeS::GetImm
unfoldable pub get_imm_s : ℕ → ℕ
get_imm_s raw =
    let imm0 = bits raw 7 5 in
    let imm1 = bits raw 25 7 in
    let se = if bit_and (raw / 2 ^ 31) 1 == 0 then 0 else decremented 20 in
    imm0 + imm1 * 2 ^ 5 + se * 2 ^ 12

-- RV32ITypeB::GetImm
unfoldable pub get_imm_b : ℕ → ℕ
get_imm_b raw =
    let imm2 = bits raw 7 1 in
    let imm0 = bits raw 8 4 in
    let imm1 = bits raw 25 6 in
    let imm3 = bits raw 31 1 in
    let se = if imm3 == 0 then 0 else decremented 20 in
    imm0 * 2 ^ 1 + imm1 * 2 ^ 5 + imm2 * 2 ^ 11 + se * 2 ^ 12

-- RV32ITypeU::GetImm: `instr.raw & (-(1u << 12))`
unfoldable pub get_imm_u : ℕ → ℕ
get_imm_u raw = bit_and raw ((0 + 2 ^ 32 - 2 ^ 12) % 2 ^ 32)

-- RV32ITypeJ::GetImm
unfoldable pub get_imm_j : ℕ → ℕ
get_imm_j raw =
    let imm2 = bits raw 12 8 in
    let imm1 = bits raw 20 1 in
    let imm0 = bits raw 21 10 in
    let imm3 = bits raw 31 1 in
    let se = if imm3 == 0 then 0 else decremented 12 in
    imm0 * 2 ^ 1 + imm1 * 2 ^ 11 + imm2 * 2 ^ 12 + se * 2 ^ 20
