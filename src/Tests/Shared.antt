-- ===== src/Tests/Shared.antt =====
-- Instances of the theorems on the memory, the traces and the comparison of them.
use risc_v_co_simulator.Base.{
  ◌*◌, leb, ltb, ◌&&◌, ◌-◌, ◌+◌, if◌then◌else◌, ℕ, ◌%◌, ◌^◌, ◌≡◌, ◌↔◌, refl, true, false, List, [],
  ◌∷◌, some, pos,
}
use risc_v_co_simulator.Runtime.{ecall}
use risc_v_co_simulator.Tests.Machines.{silent}
use risc_v_co_simulator.Trace.{write, trace_set_memory}
use risc_v_co_simulator.Memory.{Mmu, get_half, set_half, Cells, write_bytes, update}
use risc_v_co_simulator.Memory.Access.{getter-setter, half, byte_of}
use risc_v_co_simulator.Cosim.Files.{length, compare_two_files}
use risc_v_co_simulator.Cosim.Compare.{TraceFiles, run_test, is_return_code_valid}
use risc_v_co_simulator.Cosim.Laws.{
  compare_two_files_iff, run_test_iff, byte_store_hides, c_string, opened,
}

abbrev zeros : Cells
zeros q = some 0

abbrev zero_memory : Mmu
zero_memory = record { cell = zeros; allocated_chunks = []; readable_traces = false }

-- `zeros` after a store of the half-word 0x1234 at address 8.
abbrev written : Cells
written = update (update zeros 8 0x34) 9 0x12

half_stored : Mmu
half_stored = record zero_memory { cell = written }

getter-setter_example :
    (get_half half_stored 8 ≡ some (0x1234 % 2 ^ (8 * 2)))
    × ((q : ℕ)
        → written q ≡ (if leb 8 q && ltb q (8 + 2) then some (byte_of 0x1234 (q - 8)) else zeros q))
unfolding half_stored set_half write_bytes trace_set_memory
getter-setter_example = getter-setter half 0x1234 8 zero_memory half_stored silent silent refl

-- Files that differ after a byte that is 0.
compare_two_files_iff_example :
    (compare_two_files (some (7 ∷ 0 ∷ 1 ∷ [])) (some (7 ∷ 0 ∷ 2 ∷ [])) ≡ some (pos 0)) ↔ (
      (length (7 ∷ 0 ∷ 1 ∷ []) ≡ length (7 ∷ 0 ∷ 2 ∷ []))
      × (c_string (7 ∷ 0 ∷ 1 ∷ []) ≡ c_string (7 ∷ 0 ∷ 2 ∷ [])))
compare_two_files_iff_example = compare_two_files_iff (7 ∷ 0 ∷ 1 ∷ []) (7 ∷ 0 ∷ 2 ∷ [])

abbrev traces : List ℕ → TraceFiles
traces bytes = record { mmu = some bytes; reg_file = some (5 ∷ []); decoder = some (6 ∷ []) }

run_test_iff_example : (run_test (ecall, traces (1 ∷ [])) (ecall, traces (2 ∷ [])) ≡ some 0) ↔ (
    (is_return_code_valid ecall ≡ true)
    × (is_return_code_valid ecall ≡ true)
    × (compare_two_files (some (5 ∷ [])) (some (5 ∷ [])) ≡ some (pos 0))
    × (compare_two_files (some (1 ∷ [])) (some (2 ∷ [])) ≡ some (pos 0))
    × (compare_two_files (some (6 ∷ [])) (some (6 ∷ [])) ≡ some (pos 0)))
run_test_iff_example = run_test_iff ecall ecall (traces (1 ∷ [])) (traces (2 ∷ []))

byte_store_hides_example :
    compare_two_files
      (write (2 ∷ []) (trace_set_memory false "setb " 0 4096 1 opened).mmu_stream)
      (write (3 ∷ []) (trace_set_memory false "setb " 0 8192 200 opened).mmu_stream)
    ≡ some (pos 0)
byte_store_hides_example = byte_store_hides 4096 1 8192 200 (2 ∷ []) (3 ∷ []) refl
