-- ===== src/Cosim/Compare.antt =====
-- co_simulator/co_simulator.h and co_simulator.cpp: the result of a test.
use Prim.Native.String.{String}
use risc_v_co_simulator.Base.{
  of_int32, ℕ, Bool, true, false, not, ◌||◌, List, [], ◌∷◌, ◌++◌, Option, none, some, ℤ, pos,
  negsuc, ◌==◌, if◌then◌else◌, bit_and, bit_or,
}
use risc_v_co_simulator.Runtime.{ReturnCode, error_none, ecall, ebreak}
use risc_v_co_simulator.Cosim.Files.{compare_two_files}

-- RV32ICoSimResult
abbrev pub functional_failed : ℕ
functional_failed = 1

abbrev pub pipeline_failed : ℕ
pipeline_failed = 2

abbrev pub regfile_mismatch : ℕ
regfile_mismatch = 0b100

abbrev pub mmu_mismatch : ℕ
mmu_mismatch = 0b1000

abbrev pub exec_path_mismatch : ℕ
exec_path_mismatch = 0b10000

-- The trace files that a run of one model leaves.
pub record TraceFiles : Type 0 where
  pub mmu : Option (List ℕ)
  pub reg_file : Option (List ℕ)
  pub decoder : Option (List ℕ)

-- `if (CompareTwoFiles(...))` around the code of a mismatch.
abbrev pub mismatch : ℕ → Option ℤ → Option ℕ
mismatch code none = none
mismatch code (some (pos n)) = some (if n == 0 then 0 else code)
mismatch code (some (negsuc n)) = some code

unfoldable pub compare_reg_file_traces : (functional pipeline : TraceFiles) → Option ℕ
unfolding compare_two_files
compare_reg_file_traces f p = mismatch regfile_mismatch (compare_two_files f.reg_file p.reg_file)

unfoldable pub compare_mmu_traces : (functional pipeline : TraceFiles) → Option ℕ
unfolding compare_two_files
compare_mmu_traces f p = mismatch mmu_mismatch (compare_two_files f.mmu p.mmu)

unfoldable pub compare_execution_path_traces : (functional pipeline : TraceFiles) → Option ℕ
unfolding compare_two_files
compare_execution_path_traces f p =
    mismatch exec_path_mismatch (compare_two_files f.decoder p.decoder)

abbrev pub joined : Option ℕ → Option ℕ → Option ℕ
joined none b = none
joined (some a) none = none
joined (some a) (some b) = some (bit_or a b)

-- CompareTraces
unfoldable pub compare_traces : (functional pipeline : TraceFiles) → Option ℕ
compare_traces f p =
    joined (joined (compare_reg_file_traces f p) (compare_mmu_traces f p))
      (compare_execution_path_traces f p)

-- IsReturnCodeValid
abbrev pub is_return_code_valid : ReturnCode → Bool
is_return_code_valid error_none = true
is_return_code_valid ecall = true
is_return_code_valid ebreak = true
is_return_code_valid _ = false

-- RunTest, given the return code and the trace files of each model's RunProgram.
unfoldable pub run_test : (functional pipeline : ReturnCode × TraceFiles) → Option ℕ
run_test (f_code, f) (p_code, p) =
    if not (is_return_code_valid f_code)
    then some functional_failed
    else if not (is_return_code_valid p_code)
    then some pipeline_failed
    else compare_traces f p

-- The parts of the text, with a comma before each but the first.
abbrev comma_joined : Bool → List String → List String
comma_joined true parts = ", " ∷ parts
comma_joined false parts = parts

-- The mismatches of a code, as the pieces that are printed in turn.
abbrev mismatch_text : ℕ → List String
mismatch_text code =
    let regfile = not (bit_and code 0b100 == 0) in
    let mmu = not (bit_and code 0b1000 == 0) in
    let path = not (bit_and code 0b10000 == 0) in
    "(" ∷ (if regfile then "REGFILE_MISMATCH" ∷ [] else [])
    ++ ((if mmu then comma_joined regfile ("MMU_MISMATCH" ∷ []) else [])
        ++ ((if path then comma_joined (regfile || mmu) ("EXEC_PATH_MISMATCH" ∷ []) else [])
            ++ ")" ∷ []))

-- CodeStringRepresentation
unfoldable pub code_string_representation : ℤ → List String
code_string_representation (negsuc n) =
    if n == 0 then "(SETUP_FAIL)" ∷ [] else mismatch_text (of_int32 (negsuc n))
code_string_representation (pos code) =
    if code == 0
    then "(ERROR_NONE)" ∷ []
    else if code == 1
    then "(FUNCTIONAL_FAILED)" ∷ []
    else if code == 2
    then "(PIPELINE_FAILED)" ∷ []
    else mismatch_text code
