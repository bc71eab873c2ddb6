-- ===== src/Isa.antt =====
-- What an RV32I hart does, as the RISC-V unprivileged manual says it: an independent description
-- that the two models are held to. Immediates, signs and shifts are plain arithmetic here.
pub mod Encoding
pub mod Checked
use risc_v_co_simulator.Base.{
  ℕ, ◌+◌, ◌-◌, ◌*◌, ◌/◌, ◌%◌, ◌^◌, ◌<◌, ◌≡◌, Bool, not, Option, none, some, ltb, ◌==◌,
  if◌then◌else◌, bit_and, bit_or, bit_xor, ◌||◌, ◌≢◌, refl, true, false, ==_refl, arith,
}
use risc_v_co_simulator.Memory.{Cells, read_bytes, write_bytes}
use risc_v_co_simulator.Memory.Access.{IsBytes}
use risc_v_co_simulator.Functional.Instruction.{
  Rv32i, lui, auipc, jal, jalr, beq, bne, blt, bge, bltu, bgeu, lb, lh, lw, lbu, lhu, sb, sh, sw,
  addi, slti, sltiu, xori, ori, andi, slli, srli, srai, add, sub, sll, slt, sltu, xor, srl, sra, or,
  and, fence, ecall, ebreak, unknown,
}

pub record State : Type 0 where
  pub pc : ℕ
  pub x : ℕ → ℕ
  pub mem : Cells

-- Values fit their types, and register 0 holds 0.
pub record IsValid (s : State) : Type 0 where
  pub pc_word : s.pc < 2 ^ 32
  pub zero_reg : s.x 0 ≡ 0
  pub reg_word : (i : ℕ) → s.x i < 2 ^ 32
  pub cell_byte : IsBytes s.mem

pub data Effect : Type 0 where
  next : State → Effect
  fault environment_call breakpoint illegal misaligned internal_error : Effect

-- A number of `width` bits, extended to 32 by its highest bit.
abbrev pub sext : (width value : ℕ) → ℕ
sext width value = if ltb value (2 ^ (width - 1)) then value else value + 2 ^ 32 - 2 ^ width

abbrev pub imm_i : ℕ → ℕ
imm_i raw = sext 12 (raw / 2 ^ 20)

abbrev pub imm_s : ℕ → ℕ
imm_s raw = sext 12 (raw / 2 ^ 25 * 2 ^ 5 + raw / 2 ^ 7 % 2 ^ 5)

abbrev pub imm_b : ℕ → ℕ
imm_b raw = sext 13 (
    raw / 2 ^ 31 * 2 ^ 12
    + raw / 2 ^ 7 % 2 * 2 ^ 11
    + raw / 2 ^ 25 % 2 ^ 6 * 2 ^ 5
    + raw / 2 ^ 8 % 2 ^ 4 * 2)

abbrev pub imm_u : ℕ → ℕ
imm_u raw = raw / 2 ^ 12 * 2 ^ 12

abbrev pub imm_j : ℕ → ℕ
imm_j raw = sext 21 (
    raw / 2 ^ 31 * 2 ^ 20
    + raw / 2 ^ 12 % 2 ^ 8 * 2 ^ 12
    + raw / 2 ^ 20 % 2 * 2 ^ 11
    + raw / 2 ^ 21 % 2 ^ 10 * 2)

abbrev pub rd : ℕ → ℕ
rd raw = raw / 2 ^ 7 % 32

abbrev pub rs1 : ℕ → ℕ
rs1 raw = raw / 2 ^ 15 % 32

abbrev pub rs2 : ℕ → ℕ
rs2 raw = raw / 2 ^ 20 % 32

-- Signed order: unsigned order after the sign bit is flipped.
abbrev pub signed_lt : ℕ → ℕ → Bool
signed_lt a b = ltb ((a + 2 ^ 31) % 2 ^ 32) ((b + 2 ^ 31) % 2 ^ 32)

abbrev pub flag : Bool → ℕ
flag c = if c then 1 else 0

-- Shifts by the low five bits of `b`; the arithmetic one fills with copies of the sign.
abbrev pub shift_left : ℕ → ℕ → ℕ
shift_left a b = a * 2 ^ (b % 32) % 2 ^ 32

abbrev pub shift_right : ℕ → ℕ → ℕ
shift_right a b = a / 2 ^ (b % 32)

abbrev pub shift_right_arith : ℕ → ℕ → ℕ
shift_right_arith a b =
    a / 2 ^ (b % 32) + (if ltb a (2 ^ 31) then 0 else 2 ^ 32 - 2 ^ (32 - b % 32))

-- Register 0 is wired to 0.
abbrev pub put : (ℕ → ℕ) → ℕ → ℕ → ℕ → ℕ
put x i v j = if j == 0 then 0 else if i == j then v else x j

abbrev pub continue_with : State → (ℕ → ℕ) → Effect
continue_with s x = next (record s { pc = (s.pc + 4) % 2 ^ 32; x = x })

abbrev pub result : ℕ → State → ℕ → Effect
result raw s v = continue_with s (put s.x (rd raw) v)

abbrev pub branch : Bool → ℕ → State → Effect
branch taken raw s = next (record s { pc = (s.pc + (if taken then imm_b raw else 4)) % 2 ^ 32 })

abbrev pub loaded : ℕ → State → (ℕ → ℕ) → Option ℕ → Effect
loaded raw s extend none = fault
loaded raw s extend (some v) = result raw s (extend v)

abbrev pub load : (size : ℕ) → (ℕ → ℕ) → ℕ → State → Effect
load size extend raw s =
    loaded raw s extend (read_bytes size s.mem ((s.x (rs1 raw) + imm_i raw) % 2 ^ 32))

abbrev pub stored : State → Option Cells → Effect
stored s none = fault
stored s (some mem) = next (record s { pc = (s.pc + 4) % 2 ^ 32; mem = mem })

abbrev pub store : (size : ℕ) → ℕ → State → Effect
store size raw s =
    stored s (write_bytes size (s.x (rs2 raw)) ((s.x (rs1 raw) + imm_s raw) % 2 ^ 32) s.mem)

abbrev op_imm : (ℕ → ℕ → ℕ) → ℕ → State → Effect
op_imm f raw s = result raw s (f (s.x (rs1 raw)) (imm_i raw))

abbrev op : (ℕ → ℕ → ℕ) → ℕ → State → Effect
op f raw s = result raw s (f (s.x (rs1 raw)) (s.x (rs2 raw)))

abbrev compare_and_branch : (ℕ → ℕ → Bool) → ℕ → State → Effect
compare_and_branch c raw s = branch (c (s.x (rs1 raw)) (s.x (rs2 raw))) raw s

-- The instruction without the check of where it goes on.
unfoldable pub apply : Rv32i → ℕ → State → Effect
apply lui raw s = result raw s (imm_u raw)
apply auipc raw s = result raw s ((s.pc + imm_u raw) % 2 ^ 32)
apply jal raw s =
    next (record s { pc = (s.pc + imm_j raw) % 2 ^ 32; x = put s.x (rd raw) ((s.pc + 4) % 2 ^ 32) })
apply jalr raw s = next (record s {
  pc = (s.x (rs1 raw) + imm_i raw) % 2 ^ 32 / 2 * 2;
  x = put s.x (rd raw) ((s.pc + 4) % 2 ^ 32);
})
apply beq raw s = compare_and_branch (λ a b. a == b) raw s
apply bne raw s = compare_and_branch (λ a b. not (a == b)) raw s
apply blt raw s = compare_and_branch signed_lt raw s
apply bge raw s = compare_and_branch (λ a b. not (signed_lt a b)) raw s
apply bltu raw s = compare_and_branch ltb raw s
apply bgeu raw s = compare_and_branch (λ a b. not (ltb a b)) raw s
apply lb raw s = load 1 (sext 8) raw s
apply lh raw s = load 2 (sext 16) raw s
apply lw raw s = load 4 (λ v. v) raw s
apply lbu raw s = load 1 (λ v. v) raw s
apply lhu raw s = load 2 (λ v. v) raw s
apply sb raw s = store 1 raw s
apply sh raw s = store 2 raw s
apply sw raw s = store 4 raw s
apply addi raw s = op_imm (λ a b. (a + b) % 2 ^ 32) raw s
apply slti raw s = op_imm (λ a b. flag (signed_lt a b)) raw s
apply sltiu raw s = op_imm (λ a b. flag (ltb a b)) raw s
apply xori raw s = op_imm bit_xor raw s
apply ori raw s = op_imm bit_or raw s
apply andi raw s = op_imm bit_and raw s
apply slli raw s = op_imm shift_left raw s
apply srli raw s = op_imm shift_right raw s
apply srai raw s = op_imm shift_right_arith raw s
apply add raw s = op (λ a b. (a + b) % 2 ^ 32) raw s
apply sub raw s = op (λ a b. (a + (2 ^ 32 - b)) % 2 ^ 32) raw s
apply sll raw s = op shift_left raw s
apply slt raw s = op (λ a b. flag (signed_lt a b)) raw s
apply sltu raw s = op (λ a b. flag (ltb a b)) raw s
apply xor raw s = op bit_xor raw s
apply srl raw s = op shift_right raw s
apply sra raw s = op shift_right_arith raw s
apply or raw s = op bit_or raw s
apply and raw s = op bit_and raw s
apply fence raw s = continue_with s s.x
apply ecall raw s = environment_call
apply ebreak raw s = breakpoint
apply unknown raw s = illegal

-- An instruction that goes on elsewhere than behind itself raises an exception if the target is not
-- the address of a word, and changes nothing.
abbrev pub checked : (pc : ℕ) → Effect → Effect
checked pc (next s) = if s.pc == (pc + 4) % 2 ^ 32 || s.pc % 4 == 0 then next s else misaligned
checked pc e = e

unfoldable pub exec : Rv32i → ℕ → State → Effect
exec i raw s = checked s.pc (apply i raw s)
