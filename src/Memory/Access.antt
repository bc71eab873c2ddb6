-- ===== src/Memory/Access.antt =====
-- The laws of the loads and stores of models/shared/mmu_fixed_offset.h.
use native.Mathlib.Nat.{pow-suc, one-le-pow, div-add-mod, div-div-eq-div-mul}
use risc_v_co_simulator.Base.{
  refl, ℕ, zero, suc, ◌+◌, ◌*◌, ◌/◌, ◌%◌, ◌^◌, ◌≤◌, ◌<◌, ◌≡◌, ap, ◌∙◌, ◌⊎◌, ◌↔◌, Option, none, some,
  leb, ltb, ◌&&◌, if◌then◌else◌, ◌-◌, arith,
}
use risc_v_co_simulator.Trace.{TraceWriter}
use risc_v_co_simulator.Memory.{
  Mmu, with_cells, get_byte, get_half, get_word, set_byte, set_half, set_word, Cells, read_bytes,
  write_bytes, update,
}

-- The byte that a cell holds, 0 where none is mapped.
abbrev pub stored : Option ℕ → ℕ
stored none = 0
stored (some b) = b

abbrev pub IsBytes : Cells → Type 0
IsBytes c = (q : ℕ) → stored (c q) < 256

update-IsBytes : (c : Cells) (p b : ℕ) → IsBytes c → b < 256 → IsBytes (update c p b)
update-IsBytes c p b bytes h q = ground (arith, bytes q)

pub write_bytes_outside :
    (n v p : ℕ) (c c' : Cells) (q : ℕ)
    → write_bytes n v p c ≡ some c'
    → (q < p) ⊎ (p + n ≤ q)
    → c' q ≡ c q
unfolding write_bytes
write_bytes_outside zero v p c c' q h out = ground arith
write_bytes_outside (suc n) v p c c' q h out =
    ground (arith, write_bytes_outside n (v / 256) (p + 1) (update c p (v % 256)) c' q)

pub write_bytes_mapped :
    (n v p : ℕ) (c c' : Cells) (q : ℕ)
    → write_bytes n v p c ≡ some c'
    → (c' q ≡ none) ↔ (c q ≡ none)
unfolding write_bytes
write_bytes_mapped zero v p c c' q h = ground arith
write_bytes_mapped (suc n) v p c c' q h =
    ground (arith, write_bytes_mapped n (v / 256) (p + 1) (update c p (v % 256)) c' q)

mod_bytes : (p v : ℕ) → v % (256 * p) ≡ v % 256 + 256 * (v / 256 % p)
mod_bytes p v = omega (
  arith,
  div-add-mod v (256 * p),
  div-add-mod (v / 256) p,
  ap (λ (t : ℕ). p * t) (div-div-eq-div-mul v 256 p),
)

pub read-write_bytes :
    (n v p : ℕ) (c c' : Cells)
    → write_bytes n v p c ≡ some c'
    → read_bytes n c' p ≡ some (v % 256 ^ n)
unfolding write_bytes read_bytes
read-write_bytes zero v p c c' h = ap some (omega arith)
read-write_bytes (suc n) v p c c' h =
    let split : v % 256 ^ suc n ≡ v % 256 + 256 * (v / 256 % 256 ^ n) =
      ap (λ (t : ℕ). v % t) (omega (arith, pow-suc 256 n)) ∙ mod_bytes (256 ^ n) v in
    rw split (
      ground (
        arith,
        write_bytes_outside n (v / 256) (p + 1) (update c p (v % 256)) c' p,
        read-write_bytes n (v / 256) (p + 1) (update c p (v % 256)) c',
      ))

-- A loaded value fits its width.
pub read_bytes-lt : (n p : ℕ) (c : Cells) → IsBytes c → stored (read_bytes n c p) < 256 ^ n
unfolding read_bytes
read_bytes-lt zero p c bytes = omega arith
read_bytes-lt (suc n) p c bytes =
    rw power (ground (arith, one-le-pow n 256, bytes p, read_bytes-lt n (p + 1) c bytes))
  where
    power : 256 ^ suc n ≡ 256 * 256 ^ n
    power = omega (arith, pow-suc 256 n)

-- A store keeps every byte below 256.
pub write_bytes-IsBytes :
    (n v p : ℕ) (c c' : Cells)
    → IsBytes c
    → (q : ℕ) → write_bytes n v p c ≡ some c'
    → stored (c' q) < 256
unfolding write_bytes
write_bytes-IsBytes zero v p c c' bytes q h = ground (arith, bytes q)
write_bytes-IsBytes (suc n) v p c c' bytes q h = ground (
  arith,
  write_bytes-IsBytes n (v / 256) (p + 1) (update c p (v % 256)) c'
      (update-IsBytes c p (v % 256) bytes (omega arith)) q,
)

-- The bytes of a value, lowest first.
abbrev pub byte_of : ℕ → ℕ → ℕ
byte_of v zero = v % 256
byte_of v (suc i) = byte_of (v / 256) i

first_byte : (v p q : ℕ) → q ≡ p → byte_of v (q - p) ≡ v % 256
first_byte v p q same =
    let none_before : q - p ≡ 0 = omega (arith, same) in ap (byte_of v) none_before

later_byte : (v p q : ℕ) → p < q → byte_of v (q - p) ≡ byte_of (v / 256) (q - (p + 1))
later_byte v p q after =
    let next : q - p ≡ suc (q - (p + 1)) = omega (arith, after) in ap (byte_of v) next

-- Where a store that succeeds has left which byte.
write_bytes-byte :
    (n v p : ℕ) (c c' : Cells) (q : ℕ)
    → write_bytes n v p c ≡ some c'
    → c' q ≡ (if leb p q && ltb q (p + n) then some (byte_of v (q - p)) else c q)
unfolding write_bytes
write_bytes-byte zero v p c c' q h = ground arith
write_bytes-byte (suc n) v p c c' q h = ground (
  arith,
  write_bytes-byte n (v / 256) (p + 1) (update c p (v % 256)) c' q,
  later_byte v p q,
  first_byte v p q,
)

-- The three widths of the memory's accesses.
pub data Width : Type 0 where
  byte half word : Width

abbrev pub bytes_of : Width → ℕ
bytes_of byte = 1
bytes_of half = 2
bytes_of word = 4

abbrev pub getter : Width → Mmu → ℕ → Option ℕ
getter byte = get_byte
getter half = get_half
getter word = get_word

abbrev pub setter : Width → (value vaddr : ℕ) → Mmu → TraceWriter → Option Mmu × TraceWriter
setter byte = set_byte
setter half = set_half
setter word = set_word

with_cells-some : (m m' : Mmu) (o : Option Cells) → with_cells m o ≡ some m' → o ≡ some m'.cell
with_cells-some m m' none e = absurd (ground arith)
with_cells-some m m' (some c) e = ground arith

setter-stores :
    (k : Width) (value p : ℕ) (m m' : Mmu) (w w' : TraceWriter)
    → setter k value p m w ≡ (some m', w')
    → write_bytes (bytes_of k) value p m.cell ≡ some m'.cell
unfolding set_byte set_half set_word
setter-stores byte value p m m' w w' e = with_cells-some m m' _ (ap (λ r. r.0) e)
setter-stores half value p m m' w w' e = with_cells-some m m' _ (ap (λ r. r.0) e)
setter-stores word value p m m' w w' e = with_cells-some m m' _ (ap (λ r. r.0) e)

getter-read : (k : Width) (p : ℕ) (m : Mmu) → getter k m p ≡ read_bytes (bytes_of k) m.cell p
unfolding get_byte get_half get_word
getter-read byte p m = refl
getter-read half p m = refl
getter-read word p m = refl

-- After SetByte, SetHalf or SetWord where it does not fault (`setter`): the getter of the same
-- width at the same address gives the value's low 8, 16 or 32 bits, and the 1, 2 or 4 bytes from
-- the address on are those of the value, lowest first, while every other byte is as before.
pub getter-setter :
    (k : Width) (value p : ℕ) (m m' : Mmu) (w w' : TraceWriter)
    → setter k value p m w ≡ (some m', w')
    → (getter k m' p ≡ some (value % 2 ^ (8 * bytes_of k)))
      × ((q : ℕ)
          → m'.cell q ≡ (
              if leb p q && ltb q (p + bytes_of k) then some (byte_of value (q - p)) else m.cell q))
getter-setter k value p m m' w w' e =
    let stored = setter-stores k value p m m' w w' e in
    (
      getter-read k p m'
          ∙ read-write_bytes (bytes_of k) value p m.cell m'.cell stored
          ∙ ap (λ t. some (value % t)) (width k),
      λ q. write_bytes-byte (bytes_of k) value p m.cell m'.cell q stored,
    )
  where
    width : (k : Width) → 256 ^ bytes_of k ≡ 2 ^ (8 * bytes_of k)
    width byte = omega arith
    width half = omega arith
    width word = omega arith
