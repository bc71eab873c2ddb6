-- ===== src/Isa/Checked.antt =====
-- Where the manual's exception on a jump to an address that is not one of a word is not raised.
use risc_v_co_simulator.Base.{
  ℕ, ◌+◌, ◌%◌, ◌^◌, ◌≡◌, Bool, Option, none, some, ◌==◌, if◌then◌else◌, ◌||◌, ◌≢◌, refl, true,
  false, ==_refl, arith,
}
use risc_v_co_simulator.Memory.{Cells}
use risc_v_co_simulator.Functional.Instruction.{Rv32i, lb, lh, lw, lbu, lhu, sb, sh, sw}
use risc_v_co_simulator.Isa.{
  State, Effect, next, misaligned, put, rd, loaded, stored, checked, apply, exec,
}

-- Where no exception is raised.
pub checked-eq : (pc : ℕ) (e : Effect) → checked pc e ≢ misaligned → checked pc e ≡ e
checked-eq pc (next s) h = go (s.pc == (pc + 4) % 2 ^ 32 || s.pc % 4 == 0) h
  where
    go :
        (b : Bool)
        → (if b then next s else misaligned) ≢ misaligned
        → (if b then next s else misaligned) ≡ next s
    go true h = refl
    go false h = absurd (h refl)
checked-eq pc e h = refl

-- What goes on behind itself, or stops, is not changed by the check.
pub checked-lands :
    (pc : ℕ) (s : State)
    → s.pc == (pc + 4) % 2 ^ 32 || s.pc % 4 == 0 ≡ true
    → checked pc (next s) ≡ next s
checked-lands pc s h = rw h refl

checked-behind :
    (s : State) (x : ℕ → ℕ) (mem : Cells)
    → checked s.pc (next (record { pc = (s.pc + 4) % 2 ^ 32; x = x; mem = mem }))
      ≡ next (record { pc = (s.pc + 4) % 2 ^ 32; x = x; mem = mem })
checked-behind s x mem =
    checked-lands s.pc (record { pc = (s.pc + 4) % 2 ^ 32; x = x; mem = mem })
      (rw (==_refl ((s.pc + 4) % 2 ^ 32)) refl)

pub checked-loaded :
    (raw : ℕ) (s : State) (extend : ℕ → ℕ) (o : Option ℕ)
    → checked s.pc (loaded raw s extend o) ≡ loaded raw s extend o
checked-loaded raw s extend none = refl
checked-loaded raw s extend (some v) = checked-behind s (put s.x (rd raw) (extend v)) s.mem

pub checked-stored : (s : State) (o : Option Cells) → checked s.pc (stored s o) ≡ stored s o
checked-stored s none = refl
checked-stored s (some mem) = checked-behind s s.x mem

-- The loads and stores.
abbrev pub accesses : Rv32i → Bool
accesses lb = true
accesses lh = true
accesses lw = true
accesses lbu = true
accesses lhu = true
accesses sb = true
accesses sh = true
accesses sw = true
accesses _ = false

pub exec-access :
    (i : Rv32i) (raw : ℕ) (s : State) → accesses i ≡ true → exec i raw s ≡ apply i raw s
unfolding exec apply
exec-access lb raw s h = checked-loaded raw s _ _
exec-access lh raw s h = checked-loaded raw s _ _
exec-access lw raw s h = checked-loaded raw s _ _
exec-access lbu raw s h = checked-loaded raw s _ _
exec-access lhu raw s h = checked-loaded raw s _ _
exec-access sb raw s h = checked-stored s _
exec-access sh raw s h = checked-stored s _
exec-access sw raw s h = checked-stored s _
exec-access _ raw s h = absurd (ground arith)
