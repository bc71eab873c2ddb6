-- ===== src/Functional/Refines/Memory.antt =====
-- The handlers of the loads and stores of models/functional/model.cpp against the manual.
use risc_v_co_simulator.Isa.Checked.{exec-access}
use risc_v_co_simulator.Base.{
  sym, ℕ, ◌+◌, ◌%◌, ◌^◌, ◌<◌, ◌≤◌, ◌≡◌, ◌∙◌, ap, refl, arith, Option, none, some, u8, u16, u32,
}
use risc_v_co_simulator.Runtime.{◌>>=◌, ◌>>◌, killed}
use risc_v_co_simulator.Isa
use risc_v_co_simulator.Memory as Mem
use risc_v_co_simulator.Memory.{Mmu, Cells, read_bytes, write_bytes, update}
use risc_v_co_simulator.Trace.{TraceWriter}
use risc_v_co_simulator.Memory.Access.{read_bytes-lt, stored as byte}
use risc_v_co_simulator.Functional.Instruction.{lw, lbu, lhu, sb, sw, rd, rs1, rs2, get_imm_i}
use risc_v_co_simulator.Functional.Immediates.{get_imm_i-eq, get_imm_s-eq}
use risc_v_co_simulator.Functional.Model.{
  FunctionalModel, read_reg, write_reg, get_word, get_half, get_byte, set_word, set_byte, advance,
  stored, or_stop,
}
use risc_v_co_simulator.Functional.Handlers.Memory.{
  handle_lb, handle_lh, handle_lw, handle_lbu, handle_lhu, handle_sb, handle_sh, handle_sw,
}
use risc_v_co_simulator.Functional.Refines.State.{
  view, effect, result_lem, read_rs1_lem, read_both_lem,
}

-- A store of one byte depends on the low byte of its value.
write_byte_mod :
    (v w p : ℕ) (c : Cells) → v % 256 ≡ w % 256 → write_bytes 1 v p c ≡ write_bytes 1 w p c
unfolding write_bytes
write_byte_mod v w p c h i = elim (c p) [ none ↦ none | some _ ↦ some (update c p (h i)) ]

module _ (raw : ℕ) (word : raw < 2 ^ 32) (m : FunctionalModel) (valid : Isa.IsValid (view m)) where
  -- The rest of a load, for the value that memory gives.
  load_value :
      (o : Option ℕ)
      → byte o < 2 ^ 32
      → effect ((or_stop killed o >>= λ v. write_reg v (rd raw) >> advance) m)
        ≡ Isa.loaded raw (view m) (λ v. v) o
  load_value none h = refl
  load_value (some v) h = result_lem raw m valid v h

  load-Refines :
      (n : ℕ)
      → 256 ^ n ≤ 2 ^ 32
      → effect (
          (read_reg (rs1 raw) >>= λ a.
          (λ s. or_stop killed (read_bytes n s.mmu.cell (u32 (a + get_imm_i raw))) s) >>= λ v.
          write_reg v (rd raw) >> advance)
            m)
        ≡ Isa.load n (λ v. v) raw (view m)
  load-Refines n fits =
      let a = u32 (m.registers.regs (rs1 raw) + Isa.imm_i raw) in
      ap effect (read_rs1_lem raw m _)
      ∙ rw (get_imm_i-eq raw word) (
          load_value (read_bytes n m.mmu.cell a)
            (omega (arith, read_bytes-lt n a m.mmu.cell valid.cell_byte)))

  pub lw-Refines : effect (handle_lw raw m) ≡ Isa.apply lw raw (view m)
  unfolding handle_lw Isa.apply get_word Mem.get_word
  lw-Refines = load-Refines 4 (omega arith)

  pub lbu-Refines : effect (handle_lbu raw m) ≡ Isa.apply lbu raw (view m)
  unfolding handle_lbu Isa.apply get_byte Mem.get_byte
  lbu-Refines = load-Refines 1 (omega arith)

  pub lhu-Refines : effect (handle_lhu raw m) ≡ Isa.apply lhu raw (view m)
  unfolding handle_lhu Isa.apply get_half Mem.get_half
  lhu-Refines = load-Refines 2 (omega arith)

  pub lb-Refines : effect (handle_lb raw m) ≡ Isa.apply lbu raw (view m)
  unfolding handle_lb Isa.apply get_byte Mem.get_byte
  lb-Refines = load-Refines 1 (omega arith)

  pub lh-Refines : effect (handle_lh raw m) ≡ Isa.apply lhu raw (view m)
  unfolding handle_lh Isa.apply get_half Mem.get_half
  lh-Refines = load-Refines 2 (omega arith)

  -- The rest of a store, for the memory that the setter leaves.
  store_cells :
      (w : TraceWriter) (c : Option Cells)
      → effect (((λ s. stored (Mem.with_cells m.mmu c, w) s) >> advance) m) ≡ Isa.stored (view m) c
  store_cells w none = refl
  store_cells w (some c) = refl

  pub sw-Refines : effect (handle_sw raw m) ≡ Isa.apply sw raw (view m)
  unfolding handle_sw Isa.apply set_word Mem.set_word
  sw-Refines = ap effect (read_both_lem raw m _) ∙ rw (get_imm_s-eq raw word) (store_cells _ _)

  store_byte :
      (w : TraceWriter) (v a : ℕ)
      → v % 256 ≡ m.registers.regs (rs2 raw) % 256
      → effect
          (((λ s. stored (Mem.with_cells m.mmu (write_bytes 1 v a m.mmu.cell), w) s) >> advance) m)
        ≡ Isa.stored (view m) (write_bytes 1 (m.registers.regs (rs2 raw)) a m.mmu.cell)
  store_byte w v a low =
      store_cells w (write_bytes 1 v a m.mmu.cell)
      ∙ ap (Isa.stored (view m)) (write_byte_mod v (m.registers.regs (rs2 raw)) a m.mmu.cell low)

  pub sb-Refines : effect (handle_sb raw m) ≡ Isa.apply sb raw (view m)
  unfolding handle_sb Isa.apply set_byte Mem.set_byte
  sb-Refines =
      ap effect (read_both_lem raw m _)
      ∙ rw (get_imm_s-eq raw word) (store_byte _ (u8 (m.registers.regs (rs2 raw))) _ (omega arith))

  pub sh-Refines : effect (handle_sh raw m) ≡ Isa.apply sb raw (view m)
  unfolding handle_sh Isa.apply set_byte Mem.set_byte
  sh-Refines =
      ap effect (read_both_lem raw m _)
      ∙ rw (get_imm_s-eq raw word)
          (store_byte _ (u8 (u16 (m.registers.regs (rs2 raw)))) _ (omega arith))

  -- From a valid state, the handlers of LB and LH do what the manual says of LBU and LHU, and the
  -- handler of SH what it says of SB.
  pub narrow-Refines :
      (effect (handle_lb raw m) ≡ Isa.exec lbu raw (view m))
      × (effect (handle_lh raw m) ≡ Isa.exec lhu raw (view m))
      × (effect (handle_sh raw m) ≡ Isa.exec sb raw (view m))
  narrow-Refines = (
    lb-Refines ∙ sym (exec-access lbu raw (view m) refl),
    lh-Refines ∙ sym (exec-access lhu raw (view m) refl),
    sh-Refines ∙ sym (exec-access sb raw (view m) refl),
  )
