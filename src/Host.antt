-- ===== src/Host.antt =====
-- The host's memory calls that models/shared/mmu_fixed_offset.h makes on its area: a record of the
-- calls, and what their manual pages promise. Addresses are offsets in the area.
use risc_v_co_simulator.Base.{
  ℕ, ◌+◌, ◌%◌, ◌≤◌, ◌<◌, ◌≡◌, ◌≢◌, ◌⊎◌, Option, none, some, All, List, [], ◌∷◌, Bool, true, false,
  zero, suc,
}
use risc_v_co_simulator.Memory.{Cells, size}

pub record Host : Type 0 where
  -- `mmap` with MAP_FIXED | MAP_PRIVATE | MAP_ANONYMOUS: the cells after it, `none` for MAP_FAILED.
  pub mmap : (prot vaddr length : ℕ) → Cells → Option Cells
  -- The cells after `munmap`, `none` where it returns -1.
  pub munmap : (vaddr length : ℕ) → Cells → Option Cells

-- mmap(2), munmap(2): an anonymous mapping starts as zeros and replaces what was mapped there, and
-- whole pages change only.
pub record MapsPages (h : Host) : Type 0 where
  pub mmap_zero :
      (prot v n : ℕ) (c c' : Cells) (q : ℕ)
      → h.mmap prot v n c ≡ some c'
      → v ≤ q
      → q < v + n
      → c' q ≡ some 0
  pub mmap_outside :
      (prot v n : ℕ) (c c' : Cells) (q : ℕ)
      → h.mmap prot v n c ≡ some c'
      → n % 4096 ≡ 0
      → (q < v) ⊎ (v + n ≤ q)
      → c' q ≡ c q
  pub mmap_empty : (prot v : ℕ) (c : Cells) → h.mmap prot v 0 c ≡ none
  pub munmap_none :
      (v n : ℕ) (c c' : Cells) (q : ℕ) → h.munmap v n c ≡ some c' → v ≤ q → q < v + n → c' q ≡ none
  pub munmap_outside :
      (v n : ℕ) (c c' : Cells) (q : ℕ)
      → h.munmap v n c ≡ some c'
      → n % 4096 ≡ 0
      → (q < v) ⊎ (v + n ≤ q)
      → c' q ≡ c q

-- A host with memory to spare, which refuses no call on whole pages of the area.
pub record Grants (h : Host) : Type 0 where
  pub mmap_some :
      (prot v n : ℕ) (c : Cells)
      → v % 4096 ≡ 0
      → n % 4096 ≡ 0
      → 0 < n
      → v + n ≤ size
      → h.mmap prot v n c ≢ none
  pub munmap_some :
      (v n : ℕ) (c : Cells) → v % 4096 ≡ 0 → n % 4096 ≡ 0 → 0 < n → h.munmap v n c ≢ none

-- A file that has been opened for reading.
pub record File : Type 0 where
  -- `pread` into an object: the bytes read, `none` where it returns -1.
  pub pread : (count offset : ℕ) → Option (List ℕ)
  -- `pread` into the area: the number it returns, `none` for -1, and the cells after it.
  pub pread_into : (vaddr count offset : ℕ) → Cells → Option ℕ × Cells

abbrev pub mapped : Option ℕ → Bool
mapped none = false
mapped (some _) = true

-- The `n` bytes of a file's content from `offset` on.
abbrev pub slice : (content : ℕ → ℕ) → (n offset : ℕ) → List ℕ
slice content zero offset = []
slice content (suc n) offset = content offset ∷ slice content n (offset + 1)

-- pread(2) on a regular file that holds `len` bytes: what it reads is the content, it changes no
-- byte but those it is told to fill, it maps and unmaps nothing, and it reads all that it is asked
-- for, at most 0x7ffff000 bytes, where the file has them and the buffer is mapped.
pub record Holds (content : ℕ → ℕ) (len : ℕ) (f : File) : Type 0 where
  pub content_byte : (i : ℕ) → content i < 256
  pub pread_byte : (n o : ℕ) (bs : List ℕ) → f.pread n o ≡ some bs → All (λ b. b < 256) bs
  pub pread_bytes :
      (n o : ℕ) → n ≤ 0x7ffff000 → o + n ≤ len → f.pread n o ≡ some (slice content n o)
  pub into_bytes :
      (v n o i : ℕ) (c : Cells)
      → (f.pread_into v n o c).0 ≡ some n
      → i < n
      → (f.pread_into v n o c).1 (v + i) ≡ some (content (o + i))
  pub into_outside :
      (v n o q : ℕ) (c : Cells) → (q < v) ⊎ (v + n ≤ q) → (f.pread_into v n o c).1 q ≡ c q
  pub into_mapped : (v n o q : ℕ) (c : Cells) → mapped ((f.pread_into v n o c).1 q) ≡ mapped (c q)
  pub into_all :
      (v n o : ℕ) (c : Cells)
      → n ≤ 0x7ffff000
      → o + n ≤ len
      → ((i : ℕ) → i < n → mapped (c (v + i)) ≡ true)
      → (f.pread_into v n o c).0 ≡ some n
