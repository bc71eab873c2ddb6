-- ===== src/Functional/Refines/Safety.antt =====
-- How a run of the interpreter can end.
use risc_v_co_simulator.Base.{
  ℕ, zero, suc, ◌<◌, ◌≡◌, ◌^◌, ◌%◌, refl, arith, Bool, true, false, not, ◌&&◌, ◌==◌, if◌then◌else◌,
  Option, none, some,
}
use risc_v_co_simulator.Runtime.{Build, MasksCounts}
use risc_v_co_simulator.Isa
use risc_v_co_simulator.Isa.{State, Effect, apply}
use risc_v_co_simulator.Memory.{Cells, read_bytes}
use risc_v_co_simulator.Memory.Access.{read_bytes-lt, stored}
use risc_v_co_simulator.Functional.Instruction.{Rv32i}
use risc_v_co_simulator.Functional.Decoder.{decode}
use risc_v_co_simulator.Functional.Interpreted.{interpreted, follow, walk}
use risc_v_co_simulator.Functional.Model.{FunctionalModel}
use risc_v_co_simulator.Functional.Handlers.{run}
use risc_v_co_simulator.Functional.Refines.State.{view, effect}
use risc_v_co_simulator.Functional.Refines.Valid.{Keeps, interpreted-Keeps}
use risc_v_co_simulator.Functional.Refines.Loop.{run-walk}

-- A valid state, or an end that the program or its memory asked for.
abbrev pub IsOrderly : Effect → Type 0
IsOrderly (Effect.next s) = Isa.IsValid s
IsOrderly Effect.internal_error = ⊥
IsOrderly _ = Unit

-- An instruction has no error of the interpreter's own.
internal : Effect → Bool
internal Effect.internal_error = true
internal _ = false

orderly : (e : Effect) → Keeps e → internal e ≡ false → IsOrderly e
unfolding internal
orderly (Effect.next s) k h = k
orderly Effect.internal_error k h = absurd (ground arith)
orderly Effect.fault k h = tt
orderly _ k h = tt

module _ (raw : ℕ) (s : State) where
  loaded_lem : (o : Option ℕ) → internal (Isa.loaded raw s (λ v. v) o) ≡ false
  unfolding internal
  loaded_lem none = refl
  loaded_lem (some v) = refl

  stored_lem : (o : Option Cells) → internal (Isa.stored s o) ≡ false
  unfolding internal
  stored_lem none = refl
  stored_lem (some v) = refl

  interpreted_lem : (i : Rv32i) → internal (interpreted i raw s) ≡ false
  unfolding internal interpreted apply
  interpreted_lem Rv32i.lui = refl
  interpreted_lem Rv32i.auipc = refl
  interpreted_lem Rv32i.jal = refl
  interpreted_lem Rv32i.jalr = ground arith
  interpreted_lem Rv32i.beq = refl
  interpreted_lem Rv32i.bne = refl
  interpreted_lem Rv32i.blt = refl
  interpreted_lem Rv32i.bge = refl
  interpreted_lem Rv32i.bltu = refl
  interpreted_lem Rv32i.bgeu = refl
  interpreted_lem Rv32i.lb = loaded_lem _
  interpreted_lem Rv32i.lh = loaded_lem _
  interpreted_lem Rv32i.lw = loaded_lem _
  interpreted_lem Rv32i.lbu = loaded_lem _
  interpreted_lem Rv32i.lhu = loaded_lem _
  interpreted_lem Rv32i.sb = stored_lem _
  interpreted_lem Rv32i.sh = stored_lem _
  interpreted_lem Rv32i.sw = stored_lem _
  interpreted_lem Rv32i.addi = refl
  interpreted_lem Rv32i.slti = refl
  interpreted_lem Rv32i.sltiu = refl
  interpreted_lem Rv32i.xori = refl
  interpreted_lem Rv32i.ori = refl
  interpreted_lem Rv32i.andi = refl
  interpreted_lem Rv32i.slli = refl
  interpreted_lem Rv32i.srli = refl
  interpreted_lem Rv32i.srai = refl
  interpreted_lem Rv32i.add = refl
  interpreted_lem Rv32i.sub = refl
  interpreted_lem Rv32i.sll = refl
  interpreted_lem Rv32i.slt = refl
  interpreted_lem Rv32i.sltu = refl
  interpreted_lem Rv32i.xor = refl
  interpreted_lem Rv32i.srl = refl
  interpreted_lem Rv32i.sra = refl
  interpreted_lem Rv32i.or = refl
  interpreted_lem Rv32i.and = refl
  interpreted_lem Rv32i.fence = refl
  interpreted_lem Rv32i.ecall = refl
  interpreted_lem Rv32i.ebreak = refl
  interpreted_lem Rv32i.unknown = refl

follow-IsOrderly :
    (debug : Bool) (go_on : ℕ → State → Effect)
    → ((raw : ℕ) (s : State) → raw < 2 ^ 32 → Isa.IsValid s → IsOrderly (go_on raw s))
    → (e : Effect) → IsOrderly e
    → IsOrderly (follow debug go_on e)
follow-IsOrderly debug go_on rest (Effect.next s) valid =
    go (debug && not (s.pc % 4 == 0)) (read_bytes 4 s.mem s.pc)
      (omega (arith, read_bytes-lt 4 s.pc s.mem valid.cell_byte))
  where
    go :
        (b : Bool) (o : Option ℕ)
        → stored o < 2 ^ 32
        → IsOrderly
            (if b then Effect.illegal else elim o [ none ↦ Effect.fault | some raw ↦ go_on raw s ])
    go true o h = tt
    go false none h = tt
    go false (some raw) h = rest raw s h valid
follow-IsOrderly debug go_on rest Effect.internal_error h = h
follow-IsOrderly debug go_on rest Effect.fault h = tt
follow-IsOrderly debug go_on rest _ h = tt

walk-IsOrderly :
    (debug : Bool) (fuel raw : ℕ) (s : State)
    → raw < 2 ^ 32
    → Isa.IsValid s
    → IsOrderly (walk debug interpreted fuel raw s)
unfolding walk
walk-IsOrderly debug zero raw s word valid = valid
walk-IsOrderly debug (suc fuel) raw s word valid =
    decoded (decode debug raw) (walk-IsOrderly debug fuel)
  where
    decoded :
        (d : Option Rv32i)
        → ((raw' : ℕ) (s' : State)
            → raw' < 2 ^ 32
            → Isa.IsValid s'
            → IsOrderly (walk debug interpreted fuel raw' s'))
        → IsOrderly (elim d [
          | none ↦ Effect.illegal
          | some i ↦
              follow debug (λ raw' s'. walk debug interpreted fuel raw' s') (interpreted i raw s)
        ])
    decoded none ih = tt
    decoded (some i) ih =
        follow-IsOrderly debug (walk debug interpreted fuel) ih (interpreted i raw s)
          (orderly _ (interpreted-Keeps raw word s valid i) (interpreted_lem raw s i))

-- On a machine that masks its shift counts and from a valid state, a run of the interpreter of any
-- length leaves a valid state, or it has returned ECALL or EBREAK, or an access to an unmapped page
-- has killed it, or it was terminated. It returns no other code, and no register index is out of
-- range.
pub run-IsOrderly :
    (build : Build) (fuel : ℕ) (m : FunctionalModel)
    → MasksCounts build
    → Isa.IsValid (view m)
    → IsOrderly (effect (run build fuel m))
run-IsOrderly build fuel m masks valid = rw (run-walk build masks fuel m valid) (
    follow-IsOrderly build.debug (walk build.debug interpreted fuel)
      (λ raw s h v. walk-IsOrderly build.debug fuel raw s h v) (Effect.next (view m)) valid)
