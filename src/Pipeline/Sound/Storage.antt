-- ===== src/Pipeline/Sound/Storage.antt =====
-- The data memory unit of models/pipeline/modules/data_mem_unit.h keeps the memory sound.
use risc_v_co_simulator.Base.{
  ℕ, ◌^◌, ◌<◌, ◌≡◌, refl, arith, Bool, true, false, Option, none, some, bit_or-lt, ◌==◌,
  if◌then◌else◌, u8, u16,
}
use risc_v_co_simulator.Trace.{TraceWriter}
use risc_v_co_simulator.Memory as Mem
use risc_v_co_simulator.Memory.{Mmu, Cells, read_bytes, write_bytes, with_cells}
use risc_v_co_simulator.Memory.Access.{stored, IsBytes, read_bytes-lt, write_bytes-IsBytes}
use risc_v_co_simulator.Memory.Steps.{stored-IsTracked}
use risc_v_co_simulator.Pipeline.Modules.Gates.{sign_extend_from_byte, sign_extend_from_byte2}
use risc_v_co_simulator.Pipeline.Modules.Storage.{
  DataMemUnit, Access, value, failure, accessed, get_data, store_value, tick_data_mem, ticked_store,
  ticked_load,
}
use risc_v_co_simulator.Pipeline.Sound.{IsMmuSound, IsCycleStop}

-- What the unit gives is as `P` says, or it stops as a cycle may.
abbrev pub IsGoodAccess : {A : Type 0} → (A → Type 0) → Access A → Type 0
IsGoodAccess P (value a) = P a
IsGoodAccess P (failure e) = IsCycleStop e

accessed-IsGoodAccess :
    (n : ℕ) (f : ℕ → ℕ) (o : Option ℕ)
    → ((v : ℕ) → v < 256 ^ n → f v < 2 ^ 32)
    → stored o < 256 ^ n
    → IsGoodAccess (λ v. v < 2 ^ 32) (accessed f o)
accessed-IsGoodAccess n f none fits h = tt
accessed-IsGoodAccess n f (some v) fits h = fits v h

sign_extend_from_byte-lt : (v : ℕ) → v < 2 ^ 32 → sign_extend_from_byte v < 2 ^ 32
unfolding sign_extend_from_byte
sign_extend_from_byte-lt v h = ground (arith, bit_or-lt 32 v 0xffffff00 h (omega arith))

sign_extend_from_byte2-lt : (v : ℕ) → v < 2 ^ 32 → sign_extend_from_byte2 v < 2 ^ 32
unfolding sign_extend_from_byte2
sign_extend_from_byte2-lt v h = ground (arith, bit_or-lt 32 v 0xffff0000 h (omega arith))

-- A test among the modes of the unit.
either :
    {A : Type 0} (P : A → Type 0) (c : Bool) (x y : Access A)
    → IsGoodAccess P x
    → IsGoodAccess P y
    → IsGoodAccess P (if c then x else y)
either P true x y hx hy = hx
either P false x y hx hy = hy

module _ (d : DataMemUnit) (m : Mmu) where
  got :
      (n : ℕ) (f : ℕ → ℕ)
      → ((v : ℕ) → v < 256 ^ n → f v < 2 ^ 32)
      → IsBytes m.cell
      → IsGoodAccess (λ v. v < 2 ^ 32) (accessed f (read_bytes n m.cell d.address))
  got n f fits bytes =
      accessed-IsGoodAccess n f (read_bytes n m.cell d.address) fits
        (read_bytes-lt n d.address m.cell bytes)

  pub get_data-lt : IsBytes m.cell → IsGoodAccess (λ v. v < 2 ^ 32) (get_data d m)
  unfolding get_data Mem.get_byte Mem.get_half Mem.get_word
  get_data-lt bytes =
      let P = λ (v : ℕ). v < 2 ^ 32 in
      let signed_byte =
        got 1 sign_extend_from_byte (λ v h. sign_extend_from_byte-lt v (omega (arith, h))) bytes in
      let signed_half =
        got 2 sign_extend_from_byte2 (λ v h. sign_extend_from_byte2-lt v (omega (arith, h)))
          bytes in
      let word = got 4 (λ v. v) (λ v h. omega (arith, h)) bytes in
      let byte = got 1 (λ v. v) (λ v h. omega (arith, h)) bytes in
      let half = got 2 (λ v. v) (λ v h. omega (arith, h)) bytes in
      either P (d.store_mode == 0) _ _ signed_byte (
        either P (d.store_mode == 1) _ _ signed_half (
          either P (d.store_mode == 2) _ _ word
            (either P (d.store_mode == 4) _ _ byte (either P (d.store_mode == 5) _ _ half tt))))

  module _ (ok : IsMmuSound m) where
    with_cells-IsMmuSound :
        (n v p : ℕ)
        → IsGoodAccess IsMmuSound (accessed (λ x. x) (with_cells m (write_bytes n v p m.cell)))
    with_cells-IsMmuSound n v p =
        go (write_bytes n v p m.cell) (λ m' e. stored-IsTracked n v p m m' e ok.tracked)
          (λ c' q. write_bytes-IsBytes n v p m.cell c' ok.cell_byte q)
      where
        go :
            (o : Option Cells)
            → ((m' : Mmu) → with_cells m o ≡ some m' → Mem.Chunks.IsTracked m')
            → ((c : Cells) (q : ℕ) → o ≡ some c → stored (c q) < 256)
            → IsGoodAccess IsMmuSound (accessed (λ x. x) (with_cells m o))
        go none t b = tt
        go (some c) t b = record { tracked = t _ refl; cell_byte = λ q. b c q refl }

    store_value-IsMmuSound : (w : TraceWriter) → IsGoodAccess IsMmuSound (store_value d m w).0
    unfolding store_value Mem.set_byte Mem.set_half Mem.set_word
    store_value-IsMmuSound w =
        first (d.store_mode == 0) _ _ (with_cells-IsMmuSound 1 (u8 d.write_data) d.address) (
          first (d.store_mode == 1) _ _ (with_cells-IsMmuSound 2 (u16 d.write_data) d.address)
            (first (d.store_mode == 2) _ _ (with_cells-IsMmuSound 4 d.write_data d.address) tt))
      where
        first :
            (c : Bool) (x y : Access Mmu × TraceWriter)
            → IsGoodAccess IsMmuSound (x.0)
            → IsGoodAccess IsMmuSound (y.0)
            → IsGoodAccess IsMmuSound ((if c then x else y).0)
        first true x y hx hy = hx
        first false x y hx hy = hy

    abbrev Leaves : DataMemUnit × Mmu → Type 0
    Leaves p = IsMmuSound (p.1)

    pub tick_data_mem-IsMmuSound : (w : TraceWriter) → IsGoodAccess Leaves ((tick_data_mem d m w).0)
    unfolding tick_data_mem
    tick_data_mem-IsMmuSound w =
        go d.write_enable (store_value d m w) (store_value-IsMmuSound w) (get_data d m)
          (get_data-lt ok.cell_byte)
      where
        go :
            (b : Bool) (x : Access Mmu × TraceWriter)
            → IsGoodAccess IsMmuSound (x.0)
            → (y : Access ℕ) → IsGoodAccess (λ v. v < 2 ^ 32) y
            → IsGoodAccess Leaves (
                (if◌then◌else◌ {A = Access (DataMemUnit × Mmu) × TraceWriter} b
                  (ticked_store d (x.0), x.1)
                  (ticked_load d m y, w)).0)
        go true (value _, _) h y k = h
        go true (failure _, _) h y k = h
        go false x h (value _) k = ok
        go false x h (failure _) k = k
