-- ===== src/Runtime.antt =====
-- models/shared/runtime.h: the return codes, and the ways in which a run of either model ends.
pub mod Binds
pub mod Safe
use risc_v_co_simulator.Base.{
  ℕ, ◌%◌, ◌^◌, ◌≤◌, ◌<◌, ◌≡◌, Bool, true, false, Option, none, some, ltb, if◌then◌else◌, u32, ◌<<<◌,
  ◌>>>◌, to_int32, of_int32, shr_ℤ,
}

pub data ReturnCode : Type 0 where
  error_none file_open_error elf_load_error mmu_init_error mmu_alloc_error segfault_error ecall
        ebreak :
      ReturnCode

-- How code stops before its end: a `return` of `Run`, `std::terminate` (UNREACHABLE, or ASSERT in
-- a debug build), a signal on an access to an unmapped page, or an exception.
pub data Stop : Type 0 where
  returned : ReturnCode → Stop
  terminated killed out_of_range : Stop
  -- exceptions: `EcallException`, `EbreakException`, `InvalidInstructionException`,
  -- `std::logic_error` itself and `AlignmentException`
  ecall_exception ebreak_exception invalid_instruction logic_error alignment : Stop
  -- `FileOpenException`, `ElfLoadException`, `AllocationException` and `OutOfMemoryException`
  file_open elf_load allocation out_of_memory : Stop

pub data Outcome (S A : Type 0) : Type 0 where
  done : A → S → Outcome S A
  stop : Stop → S → Outcome S A

-- Stateful code over `S`. The state at a stop is kept: the trace files outlive the run.
abbrev pub M : Type 0 → Type 0 → Type 0
M S A = S → Outcome S A

infixl 5 ◌>>=◌ ◌>>◌
abbrev pub ◌>>=◌ : {S A B : Type 0} → M S A → (A → M S B) → M S B
◌>>=◌ m f s = elim (m s) [ done a s' ↦ f a s' | stop e s' ↦ stop e s' ]

abbrev pub ◌>>◌ : {S B : Type 0} → M S (Unit {0}) → M S B → M S B
m >> k = m >>= λ _. k

abbrev pub pure : {S A : Type 0} → A → M S A
pure a s = done a s

abbrev pub final : {S A : Type 0} → Outcome S A → S
final (done a s) = s
final (stop e s) = s

-- How the program was built. C++ leaves a 32-bit shift by 32 or more undefined: what the compiled
-- code gives there is a parameter, one function for each of `<<`, `>>` and `>>` of an `int32_t`.
pub record Build : Type 0 where
  pub debug : Bool
  pub wide_shl : ℕ → ℕ → ℕ
  pub wide_shr : ℕ → ℕ → ℕ
  pub wide_sar : ℕ → ℕ → ℕ

unfoldable pub shl : Build → ℕ → ℕ → ℕ
shl b x n = if ltb n 32 then u32 (x <<< n) else u32 (b.wide_shl x n)

unfoldable pub shr : Build → ℕ → ℕ → ℕ
shr b x n = if ltb n 32 then x >>> n else u32 (b.wide_shr x n)

unfoldable pub sar : Build → ℕ → ℕ → ℕ
sar b x n = if ltb n 32 then of_int32 (shr_ℤ (to_int32 x) n) else u32 (b.wide_sar x n)

-- The shift instructions of x86 use the count modulo 32 (Intel SDM, SAL/SAR/SHL/SHR).
pub record MasksCounts (b : Build) : Type 0 where
  pub shl_masks : (x n : ℕ) → x < 2 ^ 32 → 32 ≤ n → u32 (b.wide_shl x n) ≡ u32 (x <<< (n % 32))
  pub shr_masks : (x n : ℕ) → x < 2 ^ 32 → 32 ≤ n → u32 (b.wide_shr x n) ≡ x >>> (n % 32)
  pub sar_masks :
      (x n : ℕ)
      → x < 2 ^ 32
      → 32 ≤ n
      → u32 (b.wide_sar x n) ≡ of_int32 (shr_ℤ (to_int32 x) (n % 32))

abbrev pub modify : {S : Type 0} → (S → S) → M S (Unit {0})
modify f s = done tt (f s)

abbrev pub throw_if : {S : Type 0} → Bool → Stop → M S (Unit {0})
throw_if true e s = stop e s
throw_if false e s = done tt s

abbrev pub or_throw : {S A : Type 0} → Stop → Option A → M S A
or_throw e none s = stop e s
or_throw e (some a) s = done a s

-- The exceptions that RunProgram answers with a code.
unfoldable pub caught : Stop → Option ReturnCode
caught file_open = some file_open_error
caught elf_load = some elf_load_error
caught allocation = some mmu_alloc_error
caught _ = none
