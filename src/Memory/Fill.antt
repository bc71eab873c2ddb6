-- ===== src/Memory/Fill.antt =====
-- models/shared/mmu_fixed_offset.h: what Memset does to the bytes of the area.
use risc_v_co_simulator.Base.{
  ℕ, zero, suc, ◌+◌, ◌≤◌, ◌<◌, ◌≡◌, ◌≢◌, ◌⊎◌, arith, true, Option, none, some,
}
use risc_v_co_simulator.Runtime.{Stop, done, stop}
use risc_v_co_simulator.Memory.{Cells, Mmu, update}
use risc_v_co_simulator.Memory.Allocate.{fill, memset}
use risc_v_co_simulator.Host.{mapped}

pub fill-mapped :
    (n vaddr byte : ℕ) (c c' : Cells) (q : ℕ)
    → fill n vaddr byte c ≡ some c'
    → mapped (c' q) ≡ true
    → mapped (c q) ≡ true
unfolding fill
fill-mapped zero vaddr byte c c' q e live = ground arith
fill-mapped (suc n) vaddr byte c c' q e live =
    ground (arith, fill-mapped n (vaddr + 1) byte (update c vaddr byte) c' q)

-- The bytes that a fill leaves alone.
pub fill-outside :
    (n vaddr byte : ℕ) (c c' : Cells) (q : ℕ)
    → fill n vaddr byte c ≡ some c'
    → (q < vaddr) ⊎ (vaddr + n ≤ q)
    → c' q ≡ c q
unfolding fill
fill-outside zero vaddr byte c c' q e out = ground arith
fill-outside (suc n) vaddr byte c c' q e out =
    ground (arith, fill-outside n (vaddr + 1) byte (update c vaddr byte) c' q)

-- The bytes that a fill sets.
pub fill-inside :
    (n vaddr byte : ℕ) (c c' : Cells) (q : ℕ)
    → fill n vaddr byte c ≡ some c'
    → vaddr ≤ q
    → q < vaddr + n
    → c' q ≡ some byte
unfolding fill
fill-inside zero vaddr byte c c' q e lo hi = absurd (omega arith)
fill-inside (suc n) vaddr byte c c' q e lo hi = ground (
  arith,
  fill-outside n (vaddr + 1) byte (update c vaddr byte) c' q,
  fill-inside n (vaddr + 1) byte (update c vaddr byte) c' q,
)

-- A fill of bytes that are mapped does not fault.
pub fill-total :
    (n vaddr byte : ℕ) (c : Cells)
    → ((q : ℕ) → vaddr ≤ q → q < vaddr + n → mapped (c q) ≡ true)
    → fill n vaddr byte c ≢ none
unfolding fill
fill-total zero vaddr byte c live e = absurd (ground arith)
fill-total (suc n) vaddr byte c live e = ground (
  arith,
  live vaddr (omega arith) (omega arith),
  fill-total n (vaddr + 1) byte (update c vaddr byte) (λ q lo hi. still q lo hi),
)
  where
    still : (q : ℕ) → vaddr + 1 ≤ q → q < vaddr + 1 + n → mapped (update c vaddr byte q) ≡ true
    still q lo hi = ground (arith, live q)

pub memset-done :
    (vaddr byte n : ℕ) (m m' : Mmu)
    → memset vaddr byte n m ≡ done tt m'
    → fill n vaddr byte m.cell ≡ some m'.cell
unfolding memset
memset-done vaddr byte n m m' e = go (fill n vaddr byte m.cell) e
  where
    go :
        (o : Option Cells)
        → (elim o [ none ↦ stop Stop.killed m | some c ↦ done tt (record m { cell = c }) ])
          ≡ done tt m'
        → o ≡ some m'.cell
    go none e = absurd (ground arith)
    go (some c) e = ground arith
