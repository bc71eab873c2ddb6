-- ===== src/Cosim/System.antt =====
-- utils/system.cpp: files and directories, over the calls that the operating system answers.
use Prim.Native.String.{String}
use risc_v_co_simulator.Base.{
  ◌≡◌, ◌≢◌, ℕ, Bool, true, false, ◌&&◌, Option, none, some, List, [], ◌∷◌, if◌then◌else◌,
}

-- What `stat` says that a path is.
pub data FileKind : Type 0 where
  regular directory other : FileKind

-- What `fts_read` says of an entry: `fts_info` by the groups of RemoveDirectory's cases.
pub data FtsInfo : Type 0 where
  fts_d fts_dp fts_f fts_sl fts_slnone fts_default : FtsInfo
  fts_ns fts_dnr fts_err fts_dc fts_dot fts_nsok fts_unsupported : FtsInfo

-- The calls, on a state `S` of the file system.
pub record System (S : Type 0) : Type 0 where
  -- `none` where `stat` fails.
  pub stat : String → S → Option FileKind
  -- Whether `mkdir` succeeds, and the state after it.
  pub mkdir : String → S → Bool × S
  -- `open` with O_WRONLY | O_CREAT: whether the descriptor is valid, and the state after it.
  pub open_create : String → S → Bool × S
  -- Whether `close` of that descriptor succeeds.
  pub close : String → S → Bool
  pub remove : String → S → Bool × S
  -- The entries below a path in the order of `fts_read`, `none` where `fts_open` fails.
  pub fts : String → S → Option (List (FtsInfo × String))

abbrev pub is_directory : Option FileKind → Bool
is_directory (some FileKind.directory) = true
is_directory _ = false

abbrev pub is_regular : Option FileKind → Bool
is_regular (some FileKind.regular) = true
is_regular _ = false

-- `a && b` where both change the state.
abbrev pub and_then : {S : Type 0} → Bool × S → (S → Bool × S) → Bool × S
and_then (false, s) k = (false, s)
and_then (true, s) k = k s

module _ {S : Type 0} (sys : System S) where
  -- DirectoryExists
  unfoldable pub directory_exists : String → S → Bool
  directory_exists path s = is_directory (sys.stat path s)

  -- CreateDirectory
  unfoldable pub create_directory : String → S → Bool × S
  create_directory path s = sys.mkdir path s

  -- CreateDirectoryIfNotExists
  unfoldable pub create_directory_if_not_exists : String → S → Bool × S
  unfolding directory_exists create_directory
  create_directory_if_not_exists path s = elim (directory_exists path s) [
    | true ↦ (true, s)
    | false ↦ create_directory path s
  ]

  -- FileExists
  unfoldable pub file_exists : String → S → Bool
  file_exists path s = is_regular (sys.stat path s)

  -- CreateFile
  unfoldable pub create_file : String → S → Bool × S
  create_file path s =
      let (opened, s') = sys.open_create path s in (opened && sys.close path s', s')

  -- CreateFileIfNotExists
  unfoldable pub create_file_if_not_exists : String → S → Bool × S
  unfolding file_exists create_file
  create_file_if_not_exists path s = elim (file_exists path s) [
    | true ↦ (true, s)
    | false ↦ create_file path s
  ]

  -- RemoveFile
  unfoldable pub remove_file : String → S → Bool × S
  remove_file path s = sys.remove path s

  -- CreateNewFile
  unfoldable pub create_new_file : String → S → Bool × S
  unfolding file_exists create_file remove_file
  create_new_file path s =
      and_then (if file_exists path s then remove_file path s else (true, s)) (create_file path)

  -- A case of RemoveDirectory's `switch`: whether it goes on without a failure, and the state.
  unfoldable pub remove_entry : FtsInfo → String → S → Bool × S
  remove_entry FtsInfo.fts_dp path s = sys.remove path s
  remove_entry FtsInfo.fts_f path s = sys.remove path s
  remove_entry FtsInfo.fts_sl path s = sys.remove path s
  remove_entry FtsInfo.fts_slnone path s = sys.remove path s
  remove_entry FtsInfo.fts_default path s = sys.remove path s
  remove_entry _ path s = (true, s)

  -- The loop of RemoveDirectory, from the value that `success` has.
  unfoldable pub remove_entries : List (FtsInfo × String) → (success : Bool) → S → Bool × S
  unfolding remove_entry
  remove_entries [] success s = (success, s)
  remove_entries ((info, path) ∷ entries) success s =
      let (removed, s') = remove_entry info path s in remove_entries entries (success && removed) s'

  -- RemoveDirectory
  unfoldable pub remove_directory : String → S → Bool × S
  unfolding remove_entries
  remove_directory path s = elim (sys.fts path s) [
    | none ↦ (false, s)
    | some entries ↦ remove_entries entries true s
  ]

  -- SetupDirectory of co_simulator.cpp
  unfoldable pub setup_directory : String → S → Bool × S
  setup_directory path s = create_directory_if_not_exists path s

  -- SetupFiles of co_simulator.h: up to the first file that cannot be created.
  unfoldable pub setup_files : List String → S → Bool × S
  unfolding create_new_file
  setup_files [] s = (true, s)
  setup_files (name ∷ names) s = and_then (create_new_file name s) (setup_files names)

-- What the calls do to the contents of the files at the paths of `names`, `none` where a path is no
-- regular file: each path is the only one of them for its file, and names nothing but regular files.
-- A file that O_CREAT makes there is empty, and no call on one of the paths changes another.
pub record KeepsFiles {S : Type 0} (sys : System S) (content : S → String → Option (List ℕ))
    (names : String → Type 0) : Type 0 where
  pub stat_none :
      (p : String) (s : S) → names p → is_regular (sys.stat p s) ≡ false → content s p ≡ none
  pub remove_none :
      (p : String) (s : S)
      → names p
      → (sys.remove p s).0 ≡ true
      → content (sys.remove p s).1 p ≡ none
  pub remove_other :
      (p q : String) (s : S)
      → names p
      → names q
      → q ≢ p
      → content (sys.remove p s).1 q ≡ content s q
  pub create_empty :
      (p : String) (s : S)
      → names p
      → (sys.open_create p s).0 ≡ true
      → content s p ≡ none
      → content (sys.open_create p s).1 p ≡ some []
  pub create_other :
      (p q : String) (s : S)
      → names p
      → names q
      → q ≢ p
      → content (sys.open_create p s).1 q ≡ content s q
