-- ===== src/Cosim/Files.antt =====
-- CompareTwoFiles of utils/system.cpp. A file is its bytes, and `none` where it cannot be opened;
-- reading it is taken to give all of them.
use risc_v_co_simulator.Base.{
  ℕ, suc, List, [], ◌∷◌, ◌++◌, Option, none, some, ℤ, pos, negsuc, ltb, ◌==◌, if◌then◌else◌,
}

abbrev pub length : List ℕ → ℕ
length [] = 0
length (x ∷ xs) = suc (length xs)

-- strcmp, by the sign of its result. The bytes after the first 0 are no part of a C string.
unfoldable pub strcmp : List ℕ → List ℕ → ℤ
strcmp [] bs = pos 0
strcmp (a ∷ as') [] = pos 0
strcmp (a ∷ as') (b ∷ bs) =
    let rest = strcmp as' bs in
    if a == b then (if a == 0 then pos 0 else rest) else if ltb a b then negsuc 0 else pos 1

-- Both buffers hold the file's bytes and a 0 behind them. `none` is FileOpenException.
unfoldable pub compare_two_files : (file1 file2 : Option (List ℕ)) → Option ℤ
unfolding strcmp
compare_two_files none file2 = none
compare_two_files (some bytes1) none = none
compare_two_files (some bytes1) (some bytes2) =
    let sz = length bytes1 in
    let tmp_sz = length bytes2 in
    if ltb tmp_sz sz
    then some (pos 1)
    else if ltb sz tmp_sz
    then some (negsuc 0)
    else some (strcmp (bytes1 ++ 0 ∷ []) (bytes2 ++ 0 ∷ []))
