-- ===== src/Memory/Stops.antt =====
-- models/shared/mmu_fixed_offset.h: the exceptions and faults with which a request can stop.
use mathlib.Core.Path.{subst}
use risc_v_co_simulator.Base.{ℕ, ◌≡◌, arith, Bool, true, false, Option, none, some, [], ◌∷◌, ◌++◌}
use risc_v_co_simulator.Runtime.{
  Stop, out_of_memory, Outcome, done, stop, or_throw, modify, throw_if,
}
use risc_v_co_simulator.Runtime.Binds.{StopsIn, bind-StopsIn}
use risc_v_co_simulator.Memory.{Cells}
use risc_v_co_simulator.Memory.Allocate.{map_chunk, allocate_memory, allocate_stack, fill, memset}
use risc_v_co_simulator.Host.{Host}

-- ElfLoadException, AllocationException, OutOfMemoryException, or a fault.
abbrev pub IsLoadStop : Stop → Type 0
IsLoadStop Stop.elf_load = Unit
IsLoadStop Stop.allocation = Unit
IsLoadStop Stop.out_of_memory = Unit
IsLoadStop Stop.killed = Unit
IsLoadStop _ = ⊥

-- The stop is `e`, of the kind that is meant.
pub stops_at :
    {S A : Type 0} (a e : Stop) (s s' : S)
    → IsLoadStop a
    → ◌≡◌ {A = Outcome S A} (stop a s) (stop e s')
    → IsLoadStop e
stops_at {S} {A} a e s s' ok r = subst IsLoadStop same ok
  where
    same : a ≡ e
    same = ground arith

pub throw_if-StopsIn :
    {S : Type 0} (b : Bool) (a : Stop) → IsLoadStop a → StopsIn {S = S} IsLoadStop (throw_if b a)
throw_if-StopsIn true a ok s s' e r = stops_at a e s s' ok r
throw_if-StopsIn false a ok s s' e r = absurd (ground arith)

pub or_throw-StopsIn :
    {S A : Type 0} (o : Option A) (a : Stop)
    → IsLoadStop a
    → StopsIn {S = S} IsLoadStop (or_throw a o)
or_throw-StopsIn none a ok s s' e r = stops_at a e s s' ok r
or_throw-StopsIn (some x) a ok s s' e r = absurd (ground arith)

pub done-StopsIn :
    {S A : Type 0} (f : S → S) (a : A) → StopsIn {S = S} IsLoadStop (λ s. done a (f s))
done-StopsIn f a s s' e r = absurd (ground arith)

map_chunk-StopsIn : (h : Host) (prot v n : ℕ) → StopsIn IsLoadStop (map_chunk h prot v n)
unfolding map_chunk
map_chunk-StopsIn h prot v n m m' e r = go (h.mmap prot v n m.cell) r
  where
    go :
        (o : Option Cells)
        → (elim o [
          | none ↦ stop Stop.allocation m
          | some c ↦
              done tt
                (record m { cell = c; allocated_chunks = m.allocated_chunks ++ ((v, n) ∷ []) })
        ])
          ≡ stop e m'
        → IsLoadStop e
    go none r = stops_at Stop.allocation e m m' tt r
    go (some c) r = absurd (ground arith)

pub allocate_memory-StopsIn :
    (h : Host) (v n prot : ℕ) → StopsIn IsLoadStop (allocate_memory h v n prot)
unfolding allocate_memory
allocate_memory-StopsIn h v n prot =
    bind-StopsIn IsLoadStop _ _ (throw_if-StopsIn _ out_of_memory tt)
      (λ _. bind-StopsIn IsLoadStop _ _ (map_chunk-StopsIn h _ _ _) (λ _. done-StopsIn (λ s. s) _))

pub allocate_stack-StopsIn : (h : Host) → StopsIn IsLoadStop (allocate_stack h)
unfolding allocate_stack
allocate_stack-StopsIn h =
    bind-StopsIn IsLoadStop _ _ (map_chunk-StopsIn h _ _ _) (λ _. done-StopsIn (λ s. s) _)

pub memset-StopsIn : (v b n : ℕ) → StopsIn IsLoadStop (memset v b n)
unfolding memset
memset-StopsIn v b n m m' e r = go (fill n v b m.cell) r
  where
    go :
        (o : Option Cells)
        → (elim o [ none ↦ stop Stop.killed m | some c ↦ done tt (record m { cell = c }) ])
          ≡ stop e m'
        → IsLoadStop e
    go none r = stops_at Stop.killed e m m' tt r
    go (some c) r = absurd (ground arith)

pub modify-StopsIn : {S : Type 0} (f : S → S) → StopsIn {S = S} IsLoadStop (modify f)
modify-StopsIn f s s' e r = absurd (ground arith)
