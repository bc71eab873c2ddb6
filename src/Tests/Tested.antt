-- ===== src/Tests/Tested.antt =====
-- A test of the co-simulator on a file system of a few paths.
use Prim.Native.String.{String}
use text.Mathlib.Text as Text
use text.Mathlib.TextEquality as TextEquality
use risc_v_co_simulator.Base.{
  ◌++◌, bit_or, ℕ, ◌≡◌, ◌≢◌, ◌↔◌, refl, ap, ◌∙◌, arith, Bool, true, false, Option, none, some, List,
  [], ◌∷◌, pos, All, if◌then◌else◌,
}
use risc_v_co_simulator.Runtime.{done}
use risc_v_co_simulator.Cosim.System.{
  is_regular, System, FileKind, KeepsFiles, setup_files, create_new_file, file_exists, remove_file,
  create_file,
}
use risc_v_co_simulator.Cosim.Compare.{
  regfile_mismatch, mmu_mismatch, exec_path_mismatch, code_string_representation,
}
use risc_v_co_simulator.Cosim.Text.{commas, named, code_string_representation_lem}
use risc_v_co_simulator.Cosim.Setup.{setup_files-empty}
use risc_v_co_simulator.Cosim.Simulator.{Rv32iCoSimulator, Run, setup_before_test, test_program}
use risc_v_co_simulator.Cosim.Agrees.{Agrees, test_program_iff}
use risc_v_co_simulator.Tests.Machines.{x86, interpreter, pipeline, silent}
use risc_v_co_simulator.Tests.Hosts.{host, file}
use risc_v_co_simulator.Tests.Loads.{ecall_content}

abbrev Disk : Type 0
Disk = String → Option (List ℕ)

-- `d` with another entry at `p`.
abbrev put : Disk → String → Option (List ℕ) → Disk
put d p o q = if Text.◌==◌ q p then o else d q

abbrev kind_of : Option (List ℕ) → Option FileKind
kind_of none = none
kind_of (some _) = some FileKind.regular

abbrev opened : Option (List ℕ) → List ℕ
opened none = []
opened (some bytes) = bytes

abbrev disk : System Disk
disk = record {
  stat = λ p d. kind_of (d p);
  mkdir = λ p d. (true, d);
  open_create = λ p d. (true, put d p (some (opened (d p))));
  close = λ p d. true;
  remove = λ p d. (true, put d p none);
  fts = λ p d. some [];
}

put-same : (d : Disk) (p : String) (o : Option (List ℕ)) → put d p o p ≡ o
put-same d p o = rw ((TextEquality.eq_iff p p).1 refl) refl

put-other : (d : Disk) (p q : String) (o : Option (List ℕ)) → q ≢ p → put d p o q ≡ d q
put-other d p q o ne = go (Text.◌==◌ q p) (TextEquality.eq_iff q p).0
  where
    go : (b : Bool) → (b ≡ true → q ≡ p) → (if b then o else d q) ≡ d q
    go true h = absurd (ne (h refl))
    go false h = refl

disk-KeepsFiles : KeepsFiles disk (λ d p. d p) (λ _. Unit {0})
disk-KeepsFiles = record {
  stat_none = λ p d _ e. missing (d p) e;
  remove_none = λ p d _ e. put-same d p none;
  remove_other = λ p q d _ _ ne. put-other d p q none ne;
  create_empty = λ p d _ e h. put-same d p (some (opened (d p))) ∙ ap (λ o. some (opened o)) h;
  create_other = λ p q d _ _ ne. put-other d p q (some (opened (d p))) ne;
}
  where
    missing : (o : Option (List ℕ)) → is_regular (kind_of o) ≡ false → o ≡ none
    missing o e = ground arith

-- One of two files is there from an earlier test.
abbrev old_disk : Disk
old_disk = put (λ _. none) "a" (some (7 ∷ []))

setup_files-empty_example :
    All (λ p. (setup_files disk ("a" ∷ "b" ∷ []) old_disk).1 p ≡ some []) ("a" ∷ "b" ∷ [])
unfolding setup_files create_new_file file_exists remove_file create_file
setup_files-empty_example =
    setup_files-empty disk (λ d p. d p) (λ _. Unit {0}) disk-KeepsFiles ("a" ∷ "b" ∷ []) old_disk
      (tt, (tt, tt))
      ((λ e. absurd (ground (arith, (TextEquality.eq_iff "a" "b").1 e)), tt), (tt, tt)) refl

abbrev ecall_run : Run
ecall_run = record {
  build = x86;
  host = host;
  functional_fuel = 5;
  pipeline_fuel = 12;
  path = some (file ecall_content 120);
}

abbrev simulator : Rv32iCoSimulator
simulator = record {
  functional_model = interpreter [];
  pipeline_model = pipeline [];
  should_delete_traces = true;
  readable_traces = false;
  writer = silent;
}

test_program_iff_example :
    ((s' : Rv32iCoSimulator × Disk) × (test_program disk ecall_run simulator old_disk
        ≡ done (some (pos 0)) s'))
    ↔ (((setup_before_test disk simulator old_disk).0 ≡ true)
        × Agrees ecall_run (setup_before_test disk simulator old_disk).1)
test_program_iff_example = test_program_iff disk ecall_run simulator old_disk

code_string_representation_lem_example :
    code_string_representation (
      pos (
        bit_or
          (bit_or (if true then regfile_mismatch else 0) (if false then mmu_mismatch else 0))
          (if true then exec_path_mismatch else 0)))
    ≡ "("
        ∷ commas (
            named true "REGFILE_MISMATCH"
            ++ (named false "MMU_MISMATCH" ++ named true "EXEC_PATH_MISMATCH"))
      ++ (")" ∷ [])
code_string_representation_lem_example = code_string_representation_lem true false true refl
