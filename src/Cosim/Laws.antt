-- ===== src/Cosim/Laws.antt =====
-- The comparison of traces of utils/system.cpp and co_simulator/co_simulator.cpp.
use risc_v_co_simulator.Base.{
  ℕ, suc, ◌≡◌, ◌≢◌, ◌↔◌, refl, ap, arith, List, [], ◌∷◌, ◌++◌, Option, none, some, ℤ, pos, negsuc,
  ◌==◌, if◌then◌else◌, Bool, true, false, not, bit_or-zero,
}
use risc_v_co_simulator.Cosim.Files.{length, strcmp, compare_two_files}
use risc_v_co_simulator.Cosim.Compare.{
  TraceFiles, mismatch, joined, compare_traces, compare_reg_file_traces, compare_mmu_traces,
  compare_execution_path_traces, run_test, is_return_code_valid,
}
use risc_v_co_simulator.Runtime.{ReturnCode}
use risc_v_co_simulator.Trace.{
  TraceWriter, write, trace_set_memory, trace_binary_if_enabled, le_bytes,
}

-- The C string at the start of a buffer.
abbrev pub c_string : List ℕ → List ℕ
c_string [] = []
c_string (b ∷ bs) = if b == 0 then [] else b ∷ c_string bs

strcmp_zero :
    (as' bs : List ℕ)
    → length as' ≡ length bs
    → (strcmp (as' ++ 0 ∷ []) (bs ++ 0 ∷ []) ≡ pos 0) ↔ (c_string as' ≡ c_string bs)
unfolding strcmp
strcmp_zero [] [] e = ((λ _. refl), (λ _. refl))
strcmp_zero [] (b ∷ bs) e = absurd (omega arith)
strcmp_zero (a ∷ as') [] e = absurd (omega arith)
strcmp_zero (a ∷ as') (b ∷ bs) e = ground (arith, strcmp_zero as' bs)

-- Two files that can be read compare as equal exactly when they have the same length and the same
-- bytes up to the first byte that is 0.
pub compare_two_files_iff :
    (bytes1 bytes2 : List ℕ)
    → (compare_two_files (some bytes1) (some bytes2) ≡ some (pos 0))
      ↔ ((length bytes1 ≡ length bytes2) × (c_string bytes1 ≡ c_string bytes2))
unfolding compare_two_files
compare_two_files_iff bytes1 bytes2 = ground (arith, strcmp_zero bytes1 bytes2)

mismatch_iff :
    (code : ℕ) (o : Option ℤ) → code ≢ 0 → (mismatch code o ≡ some 0) ↔ (o ≡ some (pos 0))
mismatch_iff code none h = ground arith
mismatch_iff code (some (pos n)) h = ground arith
mismatch_iff code (some (negsuc n)) h = ground arith

joined_iff : (a b : Option ℕ) → (joined a b ≡ some 0) ↔ ((a ≡ some 0) × (b ≡ some 0))
joined_iff none b = ground arith
joined_iff (some a) none = ground arith
joined_iff (some a) (some b) = ground (arith, bit_or-zero a b)

guarded_iff :
    (v w : Bool) (o : Option ℕ)
    → ((if not v then some 1 else if not w then some 2 else o) ≡ some 0)
      ↔ ((v ≡ true) × (w ≡ true) × (o ≡ some 0))
guarded_iff true true o = ground arith
guarded_iff true false o = ground arith
guarded_iff false w o = ground arith

-- RunTest gives 0 exactly when both models end with a valid code and each of the three pairs of
-- traces compares as equal.
pub run_test_iff :
    (f_code p_code : ReturnCode) (f p : TraceFiles)
    → (run_test (f_code, f) (p_code, p) ≡ some 0) ↔ (
        (is_return_code_valid f_code ≡ true)
        × (is_return_code_valid p_code ≡ true)
        × (compare_two_files f.reg_file p.reg_file ≡ some (pos 0))
        × (compare_two_files f.mmu p.mmu ≡ some (pos 0))
        × (compare_two_files f.decoder p.decoder ≡ some (pos 0)))
unfolding run_test compare_traces compare_reg_file_traces compare_mmu_traces
    compare_execution_path_traces
run_test_iff f_code p_code f p =
    let reg_file = compare_two_files f.reg_file p.reg_file in
    let mmu = compare_two_files f.mmu p.mmu in
    let path = compare_two_files f.decoder p.decoder in
    let first = joined_iff (mismatch 0b100 reg_file) (mismatch 0b1000 mmu) in
    let both =
      joined_iff (joined (mismatch 0b100 reg_file) (mismatch 0b1000 mmu)) (mismatch 0b10000 path) in
    let r = mismatch_iff 0b100 reg_file (ground arith) in
    let m = mismatch_iff 0b1000 mmu (ground arith) in
    let d = mismatch_iff 0b10000 path (ground arith) in
    let guards =
      guarded_iff (is_return_code_valid f_code) (is_return_code_valid p_code)
        (joined (joined (mismatch 0b100 reg_file) (mismatch 0b1000 mmu)) (mismatch 0b10000 path)) in
    (
      (λ h.
          let g = guards.0 h in
          let t = both.0 (g.2) in
          (g.0, g.1, r.0 (first.0 (t.0)).0, m.0 (first.0 (t.0)).1, d.0 (t.1))),
      (λ (v, w, a, b, c). guards.1 (v, w, both.1 (first.1 (r.1 a, m.1 b), d.1 c))),
    )

abbrev pub opened : TraceWriter
opened = record {
  must_trace = true;
  mmu_stream = some [];
  reg_file_stream = none;
  decoder_stream = none;
}

length-prefix :
    (bytes rest1 rest2 : List ℕ)
    → length rest1 ≡ length rest2
    → length (bytes ++ rest1) ≡ length (bytes ++ rest2)
length-prefix [] rest1 rest2 h = h
length-prefix (b ∷ bs) rest1 rest2 h = ap suc (length-prefix bs rest1 rest2 h)

-- Two binary traces of the memory that start with a store of a byte compare as equal if what
-- follows has the same length, whatever was stored, where, and what follows.
pub byte_store_hides :
    (a1 v1 a2 v2 : ℕ) (rest1 rest2 : List ℕ)
    → length rest1 ≡ length rest2
    → compare_two_files
        (write rest1 (trace_set_memory false "setb " 0 a1 v1 opened).mmu_stream)
        (write rest2 (trace_set_memory false "setb " 0 a2 v2 opened).mmu_stream)
      ≡ some (pos 0)
unfolding compare_two_files trace_set_memory trace_binary_if_enabled le_bytes strcmp
byte_store_hides a1 v1 a2 v2 rest1 rest2 h =
    let same = length-prefix [] rest1 rest2 h in rw same (ground arith)
