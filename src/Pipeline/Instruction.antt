-- ===== src/Pipeline/Instruction.antt =====
-- models/pipeline/pipeline/instruction.h: the fields of an instruction by shifts and masks, the
-- type that an opcode has, and the immediate of each type.
use risc_v_co_simulator.Base.{
  ℕ, ◌+◌, ◌-◌, ◌*◌, ◌%◌, ◌^◌, Bool, true, false, ◌==◌, ◌||◌, if◌then◌else◌, bit_and, bits, ◌>>>◌,
  u8,
}

pub data InstructionType : Type 0 where
  unknown r_type i_type s_type b_type u_type j_type : InstructionType

unfoldable pub get_funct7 : ℕ → ℕ
get_funct7 instruction = u8 (bit_and (instruction >>> 25) 0x0000007f)

unfoldable pub get_rs2 : ℕ → ℕ
get_rs2 instruction = u8 (bit_and (instruction >>> 20) 0x0000001f)

unfoldable pub get_rs1 : ℕ → ℕ
get_rs1 instruction = u8 (bit_and (instruction >>> 15) 0x0000001f)

unfoldable pub get_funct3 : ℕ → ℕ
get_funct3 instruction = u8 (bit_and (instruction >>> 12) 0x00000007)

unfoldable pub get_rd : ℕ → ℕ
get_rd instruction = u8 (bit_and (instruction >>> 7) 0x0000001f)

unfoldable pub get_opcode : ℕ → ℕ
get_opcode instruction = u8 (bit_and instruction 0x0000007f)

unfoldable pub get_instruction_type : ℕ → InstructionType
get_instruction_type opcode =
    if opcode == 0b0110011
    then r_type
    else if opcode == 0b0100011
    then s_type
    else if opcode == 0b1100011
    then b_type
    else if opcode == 0b0000011
        || (opcode == 0b0010011 || (opcode == 0b1110011 || opcode == 0b1100111))
    then i_type
    else if opcode == 0b0110111 || opcode == 0b0010111
    then u_type
    else if opcode == 0b1101111
    then j_type
    else unknown

unfoldable pub has_rs1 : InstructionType → Bool
has_rs1 u_type = false
has_rs1 j_type = false
has_rs1 _ = true

unfoldable pub has_rs2 : InstructionType → Bool
has_rs2 r_type = true
has_rs2 i_type = true
has_rs2 s_type = true
has_rs2 b_type = true
has_rs2 _ = false

-- `if (sign) out.se--;` on a field `se` of `width` bits that is 0.
abbrev extension : (sign width : ℕ) → ℕ
extension sign width = if sign == 0 then 0 else (0 + 2 ^ width - 1) % 2 ^ width

-- The `switch` of ImmediateExtensionBlock: fields of `in` put into fields of `out`.
unfoldable pub immediate_of : InstructionType → (instr sign : ℕ) → ℕ
immediate_of unknown instr sign = 0
immediate_of r_type instr sign = 0
immediate_of i_type instr sign = bits instr 20 12 + extension sign 20 * 2 ^ 12
immediate_of s_type instr sign =
    bits instr 7 5 + bits instr 25 7 * 2 ^ 5 + extension sign 20 * 2 ^ 12
immediate_of b_type instr sign =
    bits instr 8 4 * 2 ^ 1
    + bits instr 25 6 * 2 ^ 5
    + bits instr 7 1 * 2 ^ 11
    + extension sign 20 * 2 ^ 12
immediate_of j_type instr sign =
    bits instr 21 10 * 2 ^ 1
    + bits instr 20 1 * 2 ^ 11
    + bits instr 12 8 * 2 ^ 12
    + extension sign 12 * 2 ^ 20
immediate_of u_type instr sign = bits instr 12 20 * 2 ^ 12

unfoldable pub immediate_extension_block : ℕ → ℕ
unfolding get_instruction_type get_opcode immediate_of
immediate_extension_block instr =
    immediate_of (get_instruction_type (get_opcode instr)) instr (u8 (bit_and (instr >>> 31) 1))
