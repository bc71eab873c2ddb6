-- ===== src/Cosim/Setup.antt =====
-- utils/system.cpp and co_simulator/: the trace files before a test.
use Prim.Native.String.{String}
use risc_v_co_simulator.Base.{
  ℕ, ◌≡◌, ◌≢◌, refl, sym, ap, ◌∙◌, arith, Bool, true, false, Option, none, some, List, [], ◌∷◌, All,
  All-map, if◌then◌else◌,
}
use risc_v_co_simulator.Cosim.System.{
  System, KeepsFiles, is_regular, and_then, file_exists, remove_file, create_file, create_new_file,
  setup_files,
}

-- No path is listed twice.
abbrev pub AllDistinct : List String → Type 0
AllDistinct [] = Unit
AllDistinct (p ∷ names) = All (λ q. p ≢ q) names × AllDistinct names

module _ {S : Type 0} (sys : System S) (content : S → String → Option (List ℕ))
    (names : String → Type 0) (keeps : KeepsFiles sys content names) where
  and_then-true :
      (r : Bool × S) (k : S → Bool × S)
      → (and_then r k).0 ≡ true
      → (r.0 ≡ true) × (and_then r k ≡ k r.1)
  and_then-true (false, s) k e = absurd (ground arith)
  and_then-true (true, s) k e = (refl, refl)

  cleared : String → S → Bool × S
  unfolding file_exists remove_file
  cleared p s = if file_exists sys p s then remove_file sys p s else (true, s)

  cleared-none :
      (p : String) (s : S) → names p → (cleared p s).0 ≡ true → content (cleared p s).1 p ≡ none
  unfolding cleared file_exists remove_file
  cleared-none p s at e = go (is_regular (sys.stat p s)) refl e
    where
      go :
          (b : Bool)
          → is_regular (sys.stat p s) ≡ b
          → (if b then sys.remove p s else (true, s)).0 ≡ true
          → content (if b then sys.remove p s else (true, s)).1 p ≡ none
      go true h e = keeps.remove_none p s at e
      go false h e = keeps.stat_none p s at h

  cleared-other :
      (p q : String) (s : S) → names p → names q → q ≢ p → content (cleared p s).1 q ≡ content s q
  unfolding cleared file_exists remove_file
  cleared-other p q s at aq ne = go (is_regular (sys.stat p s))
    where
      go : (b : Bool) → content (if b then sys.remove p s else (true, s)).1 q ≡ content s q
      go true = keeps.remove_other p q s at aq ne
      go false = refl

  create_file-empty :
      (p : String) (s : S)
      → names p
      → (create_file sys p s).0 ≡ true
      → content s p ≡ none
      → content (create_file sys p s).1 p ≡ some []
  unfolding create_file
  create_file-empty p s at e h = keeps.create_empty p s at (ground (arith, e)) h

  -- A new file is empty, and no other has changed.
  create_new_file-empty :
      (p : String) (s : S)
      → names p
      → (create_new_file sys p s).0 ≡ true
      → (content (create_new_file sys p s).1 p ≡ some [])
        × ((q : String) → names q → q ≢ p → content (create_new_file sys p s).1 q ≡ content s q)
  unfolding create_new_file cleared create_file
  create_new_file-empty p s at e =
      let (done, same) = and_then-true (cleared p s) (create_file sys p) e in
      (
        ap (λ r. content r.1 p) same
            ∙ create_file-empty p (cleared p s).1 at (ap (λ r. r.0) (sym same) ∙ e)
                (cleared-none p s at done),
        λ q aq ne.
            ap (λ r. content r.1 q) same
            ∙ keeps.create_other p q (cleared p s).1 at aq ne
            ∙ cleared-other p q s at aq ne,
      )

  setup_files-other :
      (paths : List String) (q : String) (s : S)
      → names q
      → All names paths
      → (setup_files sys paths s).0 ≡ true
      → All (λ p. q ≢ p) paths
      → content (setup_files sys paths s).1 q ≡ content s q
  unfolding setup_files
  setup_files-other [] q s aq at e out = refl
  setup_files-other (p ∷ paths) q s aq (at, ats) e (ne, out) =
      let (done, same) = and_then-true (create_new_file sys p s) (setup_files sys paths) e in
      ap (λ r. content r.1 q) same
      ∙ setup_files-other paths q (create_new_file sys p s).1 aq ats (ap (λ r. r.0) (sym same) ∙ e)
          out
      ∙ (create_new_file-empty p s at done).1 q aq ne

  -- On a file system that keeps the files at the paths in question (`KeepsFiles`): each of them is
  -- the only one of them for its file and names nothing but regular files, O_CREAT makes an empty
  -- file there, removing a path leaves none, and no call on one of them changes another. SetupFiles
  -- on such paths that are all different, where it returns true, leaves each of them an empty file.
  pub setup_files-empty :
      (paths : List String) (s : S)
      → All names paths
      → AllDistinct paths
      → (setup_files sys paths s).0 ≡ true
      → All (λ p. content (setup_files sys paths s).1 p ≡ some []) paths
  unfolding setup_files
  setup_files-empty [] s at apart e = tt
  setup_files-empty (p ∷ paths) s (at, ats) (out, apart) e =
      let (done, same) = and_then-true (create_new_file sys p s) (setup_files sys paths) e in
      let e' = ap (λ r. r.0) (sym same) ∙ e in
      let s1 = (create_new_file sys p s).1 in
      (
        ap (λ r. content r.1 p) same
            ∙ setup_files-other paths p s1 at ats e' out
            ∙ (create_new_file-empty p s at done).0,
        All-map paths (λ q h. ap (λ r. content r.1 q) same ∙ h)
            (setup_files-empty paths s1 ats apart e'),
      )
