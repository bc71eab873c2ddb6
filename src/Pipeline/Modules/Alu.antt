-- ===== src/Pipeline/Modules/Alu.antt =====
-- models/pipeline/modules/alu.h and cmp.h.
use risc_v_co_simulator.Base.{
  ℕ, ◌+◌, ◌-◌, ◌^◌, Bool, false, not, ltb, leb, ◌==◌, if◌then◌else◌, u32, bit_and, bit_or, bit_xor,
  ◌<<<◌, ◌>>>◌, to_int32, of_int32, ltb_ℤ, shr_ℤ,
}

pub data AluControl : Type 0 where
  nop add sub sll slt sltu xor srl sra or and : AluControl

-- ALU. For shifts only the five lowest bits of `src_b` are used.
unfoldable pub alu : AluControl → (src_a src_b : ℕ) → ℕ
alu nop src_a src_b = 0
alu add src_a src_b = u32 (src_a + src_b)
alu sub src_a src_b = u32 (src_a + 2 ^ 32 - src_b)
alu and src_a src_b = bit_and src_a src_b
alu or src_a src_b = bit_or src_a src_b
alu xor src_a src_b = bit_xor src_a src_b
alu sll src_a src_b = u32 (src_a <<< bit_and src_b 0x0000001f)
alu srl src_a src_b = src_a >>> bit_and src_b 0x0000001f
alu sra src_a src_b = of_int32 (shr_ℤ (to_int32 src_a) (bit_and src_b 0x0000001f))
alu slt src_a src_b = if ltb_ℤ (to_int32 src_a) (to_int32 src_b) then 1 else 0
alu sltu src_a src_b = if ltb src_a src_b then 1 else 0

pub data CmpControl : Type 0 where
  nop eq ne lt ge ltu geu : CmpControl

-- Cmp at `uint32_t` and `int32_t`.
unfoldable pub cmp : CmpControl → (lhs rhs : ℕ) → Bool
cmp nop lhs rhs = false
cmp eq lhs rhs = lhs == rhs
cmp ne lhs rhs = not (lhs == rhs)
cmp lt lhs rhs = ltb_ℤ (to_int32 lhs) (to_int32 rhs)
cmp ltu lhs rhs = ltb lhs rhs
cmp ge lhs rhs = not (ltb_ℤ (to_int32 lhs) (to_int32 rhs))
cmp geu lhs rhs = leb rhs lhs
