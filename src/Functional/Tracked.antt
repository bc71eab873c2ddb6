-- ===== src/Functional/Tracked.antt =====
-- The interpreter's handlers and the chunks of its memory.
pub mod Run
use risc_v_co_simulator.Base.{
  ℕ, zero, suc, ◌≡◌, refl, sym, ap, arith, Bool, true, false, not, ◌&&◌, ◌==◌, Option, none, some,
  if◌then◌else◌,
}
use risc_v_co_simulator.Runtime.{Stop, Outcome, done, stop, final, M, ◌>>=◌, ◌>>◌, Build}
use risc_v_co_simulator.Trace.{TraceWriter}
use risc_v_co_simulator.Memory as Mem
use risc_v_co_simulator.Memory.{Mmu, write_bytes, with_cells}
use risc_v_co_simulator.Memory.Chunks.{IsTracked}
use risc_v_co_simulator.Memory.Steps.{stored-IsTracked}
use risc_v_co_simulator.Functional.Regfile as Regfile
use risc_v_co_simulator.Functional.Model.{
  FunctionalModel, read_reg, write_reg, get_word, get_half, get_byte, set_word, set_byte, get_pc,
  set_pc, advance, load_from_pc, decode_and_goto, trace_executed, or_stop, stored,
}

-- Code that keeps every mapped byte of the memory in a chunk, however it ends.
pub record KeepsTracked {A : Type 0} (x : M FunctionalModel A) : Type 0 where
  pub keeps : (m : FunctionalModel) → IsTracked m.mmu → IsTracked (final (x m)).mmu

pub bind-KeepsTracked :
    {A B : Type 0} (x : M FunctionalModel A) (k : A → M FunctionalModel B)
    → KeepsTracked x
    → ((a : A) → KeepsTracked (k a))
    → KeepsTracked (x >>= k)
bind-KeepsTracked {A} {B} x k hx hk = record { keeps = λ m ok. go (x m) (hx.keeps m ok) }
  where
    go :
        (o : Outcome FunctionalModel A)
        → IsTracked (final o).mmu
        → IsTracked
            (final (elim o as (λ _. Outcome FunctionalModel B) [
              | done a s ↦ k a s
              | stop e s ↦ stop e s
            ])).mmu
    go (done a s) h = (hk a).keeps s h
    go (stop e s) h = h

or_stop-KeepsTracked :
    {A : Type 0} (e : Stop) (o : Option A) (m : FunctionalModel)
    → IsTracked m.mmu
    → IsTracked (final (or_stop e o m)).mmu
or_stop-KeepsTracked e none m h = h
or_stop-KeepsTracked e (some a) m h = h

pub read_reg-KeepsTracked : (idx : ℕ) → KeepsTracked (read_reg idx)
unfolding read_reg
read_reg-KeepsTracked idx = record {
  keeps = λ m h. or_stop-KeepsTracked _ (Regfile.read_reg idx m.registers) m h;
}

pub write_reg-KeepsTracked : (value idx : ℕ) → KeepsTracked (write_reg value idx)
unfolding write_reg
write_reg-KeepsTracked value idx = record {
  keeps = λ m h.
      go m (Regfile.write_reg value idx m.registers m.writer).1 h
        (Regfile.write_reg value idx m.registers m.writer).0;
}
  where
    go :
        (m : FunctionalModel) (w : TraceWriter)
        → IsTracked m.mmu
        → (o : Option Regfile.Rv32iRegFile)
        → IsTracked
            (final (elim o as (λ _. Outcome FunctionalModel (Unit {0})) [
              | none ↦ stop Stop.out_of_range (record m { writer = w })
              | some r ↦ done tt (record m { registers = r; writer = w })
            ])).mmu
    go m w h none = h
    go m w h (some r) = h

pub get_word-KeepsTracked : (vaddr : ℕ) → KeepsTracked (get_word vaddr)
unfolding get_word
get_word-KeepsTracked vaddr = record {
  keeps = λ m h. or_stop-KeepsTracked _ (Mem.get_word m.mmu vaddr) m h;
}

pub get_half-KeepsTracked : (vaddr : ℕ) → KeepsTracked (get_half vaddr)
unfolding get_half
get_half-KeepsTracked vaddr = record {
  keeps = λ m h. or_stop-KeepsTracked _ (Mem.get_half m.mmu vaddr) m h;
}

pub get_byte-KeepsTracked : (vaddr : ℕ) → KeepsTracked (get_byte vaddr)
unfolding get_byte
get_byte-KeepsTracked vaddr = record {
  keeps = λ m h. or_stop-KeepsTracked _ (Mem.get_byte m.mmu vaddr) m h;
}

-- A store of `n` bytes, and its trace.
store-KeepsTracked :
    (n value vaddr : ℕ) (m : FunctionalModel) (w : TraceWriter)
    → IsTracked m.mmu
    → IsTracked (final (stored (with_cells m.mmu (write_bytes n value vaddr m.mmu.cell), w) m)).mmu
store-KeepsTracked n value vaddr m w h =
    go (with_cells m.mmu (write_bytes n value vaddr m.mmu.cell))
      (λ m' e. stored-IsTracked n value vaddr m.mmu m' e h)
  where
    go :
        (o : Option Mmu)
        → ((m' : Mmu) → o ≡ some m' → IsTracked m')
        → IsTracked (final (stored (o, w) m)).mmu
    go none ok = h
    go (some m') ok = ok m' refl

pub set_byte-KeepsTracked : (value vaddr : ℕ) → KeepsTracked (set_byte value vaddr)
unfolding set_byte Mem.set_byte
set_byte-KeepsTracked value vaddr = record { keeps = λ m h. store-KeepsTracked 1 value vaddr m _ h }

pub set_word-KeepsTracked : (value vaddr : ℕ) → KeepsTracked (set_word value vaddr)
unfolding set_word Mem.set_word
set_word-KeepsTracked value vaddr = record { keeps = λ m h. store-KeepsTracked 4 value vaddr m _ h }

pub get_pc-KeepsTracked : KeepsTracked get_pc
get_pc-KeepsTracked = record { keeps = λ m h. h }

pub set_pc-KeepsTracked : (pc : ℕ) → KeepsTracked (set_pc pc)
set_pc-KeepsTracked pc = record { keeps = λ m h. h }

pub advance-KeepsTracked : KeepsTracked advance
advance-KeepsTracked = record { keeps = λ m h. h }
