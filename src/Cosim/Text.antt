-- ===== src/Cosim/Text.antt =====
-- The text of a test's result in co_simulator/co_simulator.cpp.
use Prim.Native.String.{String}
use risc_v_co_simulator.Base.{
  pos, ◌≡◌, refl, arith, Bool, true, false, ◌||◌, List, [], ◌∷◌, ◌++◌, bit_or, if◌then◌else◌,
}
use risc_v_co_simulator.Cosim.Compare.{
  regfile_mismatch, mmu_mismatch, exec_path_mismatch, code_string_representation,
}

-- Texts with a comma between each and the next.
abbrev pub commas : List String → List String
commas [] = []
commas (s ∷ []) = s ∷ []
commas (s ∷ t ∷ ts) = s ∷ ", " ∷ commas (t ∷ ts)

abbrev pub named : Bool → String → List String
named b s = if b then s ∷ [] else []

-- The text of a code that is made of any mismatches, at least one, is their names in parentheses,
-- in the order of the registers, the memory and the execution path, with a comma between each and
-- the next.
pub code_string_representation_lem :
    (r m p : Bool)
    → r || m || p ≡ true
    → code_string_representation (
        pos (
          bit_or
            (bit_or (if r then regfile_mismatch else 0) (if m then mmu_mismatch else 0))
            (if p then exec_path_mismatch else 0)))
      ≡ "("
          ∷ commas (
              named r "REGFILE_MISMATCH"
              ++ (named m "MMU_MISMATCH" ++ named p "EXEC_PATH_MISMATCH"))
        ++ (")" ∷ [])
unfolding code_string_representation
code_string_representation_lem true true true h = refl
code_string_representation_lem true true false h = refl
code_string_representation_lem true false true h = refl
code_string_representation_lem true false false h = refl
code_string_representation_lem false true true h = refl
code_string_representation_lem false true false h = refl
code_string_representation_lem false false true h = refl
code_string_representation_lem false false false h = absurd (ground arith)
