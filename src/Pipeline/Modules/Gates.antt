-- ===== src/Pipeline/Modules/Gates.antt =====
-- models/pipeline/modules/gates.h and common.h.
use risc_v_co_simulator.Base.{
  ℕ, ◌+◌, ◌/◌, ◌^◌, Bool, Option, none, some, ◌==◌, if◌then◌else◌, bit_or, u32,
}

-- Add<uint32_t>
abbrev pub add_words : ℕ → ℕ → ℕ
add_words lhs rhs = u32 (lhs + rhs)

abbrev pub multiplexer2 : Bool → (src1 src2 : ℕ) → ℕ
multiplexer2 control src1 src2 = if control then src2 else src1

-- `none` is UNREACHABLE.
unfoldable pub multiplexer3 : (control src1 src2 src3 : ℕ) → Option ℕ
multiplexer3 control src1 src2 src3 =
    if control == 0
    then some src1
    else if control == 1
    then some src2
    else if control == 2
    then some src3
    else none

unfoldable pub sign_extend_from_byte : ℕ → ℕ
sign_extend_from_byte target = if target / 2 ^ 7 == 0 then target else bit_or target 0xffffff00

unfoldable pub sign_extend_from_byte2 : ℕ → ℕ
sign_extend_from_byte2 target = if target / 2 ^ 15 == 0 then target else bit_or target 0xffff0000
