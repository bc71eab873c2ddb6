-- ===== src/Tests/Hosts.antt =====
-- A host that keeps its pages as a function, and a file that is a list of bytes.
use mathlib.Core.Path.{subst}
use risc_v_co_simulator.Base.{
  ℕ, zero, suc, ◌+◌, ◌-◌, ◌%◌, ◌≤◌, ◌<◌, ◌≡◌, refl, arith, Bool, true, ◌&&◌, none, some, List, [],
  ◌∷◌, All, leb, ltb, ◌==◌, if◌then◌else◌,
}
use risc_v_co_simulator.Memory.{Cells}
use risc_v_co_simulator.Host.{Host, MapsPages, Grants, File, Holds, mapped, slice}
use risc_v_co_simulator.Elf.{byte_at}

abbrev within : (v n q : ℕ) → Bool
within v n q = leb v q && ltb q (v + n)

abbrev pub host : Host
host = record {
  mmap = λ prot v n c. if n == 0 then none else some (λ q. if within v n q then some 0 else c q);
  munmap = λ v n c. some (λ q. if within v n q then none else c q);
}

pub host-MapsPages : MapsPages host
host-MapsPages = record {
  mmap_zero = λ prot v n c c' q e lo hi. ground arith;
  mmap_outside = λ prot v n c c' q e whole out. ground arith;
  mmap_empty = λ prot v c. refl;
  munmap_none = λ v n c c' q e lo hi. ground arith;
  munmap_outside = λ v n c c' q e whole out. ground arith;
}

pub host-Grants : Grants host
host-Grants = record {
  mmap_some = λ prot v n c hv hn pos inside e. absurd (ground arith);
  munmap_some = λ v n c hv hn pos e. absurd (ground arith);
}

abbrev pub content_of : List ℕ → ℕ → ℕ
content_of bytes i = byte_at bytes i % 256

abbrev all_mapped : (v n : ℕ) → Cells → Bool
all_mapped v zero c = true
all_mapped v (suc n) c = mapped (c v) && all_mapped (v + 1) n c

-- A file whose content is `content`, `len` bytes of it.
abbrev pub file : (content : ℕ → ℕ) → (len : ℕ) → File
file content len = record {
  pread = λ n o. if leb (o + n) len then some (slice content n o) else none;
  pread_into = λ v n o c.
      if leb (o + n) len && all_mapped v n c
      then (some n, λ q. if within v n q then some (content (o + (q - v))) else c q)
      else (none, c);
}

all_mapped-at :
    (v n : ℕ) (c : Cells) (q : ℕ)
    → all_mapped v n c ≡ true
    → v ≤ q
    → q < v + n
    → mapped (c q) ≡ true
all_mapped-at v zero c q e lo hi = absurd (omega arith)
all_mapped-at v (suc n) c q e lo hi = ground (arith, all_mapped-at (v + 1) n c q)

all_mapped-all :
    (v n : ℕ) (c : Cells) → ((i : ℕ) → i < n → mapped (c (v + i)) ≡ true) → all_mapped v n c ≡ true
all_mapped-all v zero c live = refl
all_mapped-all v (suc n) c live =
    let first = live 0 (omega arith) in
    let rest =
      all_mapped-all (v + 1) n c
        (λ i h. subst (λ t. mapped (c t) ≡ true) (omega arith) (live (i + 1) (omega (arith, h)))) in
    ground (arith, first, rest)

slice-All :
    (content : ℕ → ℕ) (n o : ℕ)
    → ((i : ℕ) → content i < 256)
    → All (λ b. b < 256) (slice content n o)
slice-All content zero o h = tt
slice-All content (suc n) o h = (h o, slice-All content n (o + 1) h)

pub file-Holds :
    (content : ℕ → ℕ) (len : ℕ) → ((i : ℕ) → content i < 256) → Holds content len (file content len)
file-Holds content len h = record {
  content_byte = h;
  pread_byte = λ n o bs e. subst (All (λ b. b < 256)) (slice_is n o bs e) (slice-All content n o h);
  pread_bytes = λ n o short inside. ground (arith, inside);
  into_bytes = λ v n o i c e lt. ground (arith, lt);
  into_outside = λ v n o q c out. ground arith;
  into_mapped = λ v n o q c. ground (arith, all_mapped-at v n c q);
  into_all = λ v n o c short inside live. ground (arith, all_mapped-all v n c live);
}
  where
    slice_is :
        (n o : ℕ) (bs : List ℕ)
        → (if leb (o + n) len then some (slice content n o) else none) ≡ some bs
        → slice content n o ≡ bs
    slice_is n o bs e = ground arith

-- An executable with one segment of eight bytes, the first four of them an ECALL in the file, behind
-- a header of type RISCV_ATTRIBUTES with 33 bytes in the file and none in memory.
abbrev pub ecall_elf : List ℕ
ecall_elf =
    127 ∷ 69 ∷ 76 ∷ 70 ∷ 1 ∷ 1 ∷ 1 ∷ 0 ∷ 0 ∷ 0 ∷ 0 ∷ 0 ∷ 0 ∷ 0 ∷ 0 ∷ 0 ∷ 2 ∷ 0 ∷ 243 ∷ 0 ∷ 1 ∷ 0 ∷ 0
    ∷ 0 ∷ 116 ∷ 0 ∷ 1 ∷ 0 ∷ 52 ∷ 0 ∷ 0 ∷ 0 ∷ 0 ∷ 0 ∷ 0 ∷ 0 ∷ 0 ∷ 0 ∷ 0 ∷ 0 ∷ 52 ∷ 0 ∷ 32 ∷ 0 ∷ 2 ∷ 0
    ∷ 0 ∷ 0 ∷ 0 ∷ 0 ∷ 0 ∷ 0 ∷ 3 ∷ 0 ∷ 0 ∷ 112 ∷ 120 ∷ 0 ∷ 0 ∷ 0 ∷ 0 ∷ 0 ∷ 0 ∷ 0 ∷ 0 ∷ 0 ∷ 0 ∷ 0 ∷ 33
    ∷ 0 ∷ 0 ∷ 0 ∷ 0 ∷ 0 ∷ 0 ∷ 0 ∷ 4 ∷ 0 ∷ 0 ∷ 0 ∷ 1 ∷ 0 ∷ 0 ∷ 0 ∷ 1 ∷ 0 ∷ 0 ∷ 0 ∷ 116 ∷ 0 ∷ 0 ∷ 0
    ∷ 116 ∷ 0 ∷ 1 ∷ 0 ∷ 116 ∷ 0 ∷ 1 ∷ 0 ∷ 4 ∷ 0 ∷ 0 ∷ 0 ∷ 8 ∷ 0 ∷ 0 ∷ 0 ∷ 5 ∷ 0 ∷ 0 ∷ 0 ∷ 0 ∷ 16 ∷ 0
    ∷ 0 ∷ 115 ∷ 0 ∷ 0 ∷ 0 ∷ []
