-- ===== src/Functional/Refines/Handle.antt =====
-- Every handler of the interpreter, and its loop, against `Interpreted`.
use risc_v_co_simulator.Isa.Checked.{checked-eq}
use risc_v_co_simulator.Base.{
  sym, ℕ, ◌<◌, ◌≡◌, ◌≢◌, ◌⊎◌, ◌^◌, ◌∙◌, inl, inr, refl, arith, Bool-cases,
}
use risc_v_co_simulator.Runtime.{Build, MasksCounts}
use risc_v_co_simulator.Isa
use risc_v_co_simulator.Isa.{exec, apply}
use risc_v_co_simulator.Functional.Instruction.{
  Rv32i, lui, auipc, jal, jalr, beq, bne, blt, bge, bltu, bgeu, lb, lh, lw, lbu, lhu, sb, sh, sw,
  addi, slti, sltiu, xori, ori, andi, slli, srli, srai, add, sub, sll, slt, sltu, xor, srl, sra, or,
  and, fence, ecall, ebreak, unknown, rd, rs1,
}
use risc_v_co_simulator.Functional.Interpreted.{interpreted, clobbers}
use risc_v_co_simulator.Functional.Model.{FunctionalModel}
use risc_v_co_simulator.Functional.Handlers.{handle}
use risc_v_co_simulator.Functional.Handlers.Control.{handle_jalr}
use risc_v_co_simulator.Functional.Refines.State.{view, effect}
use risc_v_co_simulator.Functional.Refines.Control.{
  lui-Refines, auipc-Refines, jal-Refines, jalr-Refines, beq-Refines, bne-Refines, blt-Refines,
  bge-Refines, bltu-Refines, bgeu-Refines, jalr-clobbers,
}
use risc_v_co_simulator.Functional.Refines.Memory.{
  lb-Refines, lh-Refines, lw-Refines, lbu-Refines, lhu-Refines, sb-Refines, sh-Refines, sw-Refines,
}
use risc_v_co_simulator.Functional.Refines.Arith.{
  addi-Refines, slti-Refines, sltiu-Refines, xori-Refines, ori-Refines, andi-Refines, slli-Refines,
  srli-Refines, srai-Refines, add-Refines, sub-Refines, sll-Refines, slt-Refines, sltu-Refines,
  xor-Refines, srl-Refines, sra-Refines, or-Refines, and-Refines,
}

interpreted-apply :
    (i : Rv32i) (raw : ℕ) (s : Isa.State)
    → i ≢ lb
    → i ≢ lh
    → i ≢ sh
    → (i ≡ jalr → (rd raw ≢ rs1 raw) ⊎ (rs1 raw ≡ 0))
    → interpreted i raw s ≡ apply i raw s
unfolding interpreted
interpreted-apply lb raw s not_lb not_lh not_sh apart = absurd (not_lb refl)
interpreted-apply lh raw s not_lb not_lh not_sh apart = absurd (not_lh refl)
interpreted-apply sh raw s not_lb not_lh not_sh apart = absurd (not_sh refl)
interpreted-apply jalr raw s not_lb not_lh not_sh apart = elim (Bool-cases (clobbers raw)) [
  | inl e ↦ let safe = apart refl in absurd (ground arith)
  | inr e ↦ rw e
]
interpreted-apply i raw s not_lb not_lh not_sh apart = refl

module _ (raw : ℕ) (word : raw < 2 ^ 32) (m : FunctionalModel) (valid : Isa.IsValid (view m)) where
  jalr_interpreted : effect (handle_jalr raw m) ≡ interpreted jalr raw (view m)
  unfolding interpreted
  jalr_interpreted = elim (Bool-cases (clobbers raw)) [
    | inl e ↦ rw e (jalr-clobbers raw word m valid (ground arith) (ground arith))
    | inr e ↦ rw e (jalr-Refines raw word m valid (ground arith))
  ]

  module _ (build : Build) (masks : MasksCounts build) where
    -- On a machine that masks its shift counts, for a word of 32 bits and from a valid state, the
    -- handler of every instruction does what `interpreted` says: the manual's instruction, but that
    -- a jump to an address that is not one of a word raises no exception and is taken, LB and LH
    -- load without a sign, SH stores one byte, and a JALR that links into the register it jumps
    -- through jumps by the link.
    pub handle-interpreted :
        (i : Rv32i) → effect (handle build i raw m) ≡ interpreted i raw (view m)
    unfolding handle interpreted
    handle-interpreted lui = lui-Refines raw word m valid
    handle-interpreted auipc = auipc-Refines raw word m valid
    handle-interpreted jal = jal-Refines raw word m valid
    handle-interpreted jalr = jalr_interpreted
    handle-interpreted beq = beq-Refines raw word m valid
    handle-interpreted bne = bne-Refines raw word m valid
    handle-interpreted blt = blt-Refines raw word m valid
    handle-interpreted bge = bge-Refines raw word m valid
    handle-interpreted bltu = bltu-Refines raw word m valid
    handle-interpreted bgeu = bgeu-Refines raw word m valid
    handle-interpreted lb = lb-Refines raw word m valid
    handle-interpreted lh = lh-Refines raw word m valid
    handle-interpreted lw = lw-Refines raw word m valid
    handle-interpreted lbu = lbu-Refines raw word m valid
    handle-interpreted lhu = lhu-Refines raw word m valid
    handle-interpreted sb = sb-Refines raw word m valid
    handle-interpreted sh = sh-Refines raw word m valid
    handle-interpreted sw = sw-Refines raw word m valid
    handle-interpreted addi = addi-Refines raw m valid word
    handle-interpreted slti = slti-Refines raw m valid word
    handle-interpreted sltiu = sltiu-Refines raw m valid word
    handle-interpreted xori = xori-Refines raw m valid word
    handle-interpreted ori = ori-Refines raw m valid word
    handle-interpreted andi = andi-Refines raw m valid word
    handle-interpreted slli = slli-Refines raw m valid word build masks
    handle-interpreted srli = srli-Refines raw m valid word build masks
    handle-interpreted srai = srai-Refines raw m valid word build masks
    handle-interpreted add = add-Refines raw m valid
    handle-interpreted sub = sub-Refines raw m valid
    handle-interpreted sll = sll-Refines raw m valid build masks
    handle-interpreted slt = slt-Refines raw m valid
    handle-interpreted sltu = sltu-Refines raw m valid
    handle-interpreted xor = xor-Refines raw m valid
    handle-interpreted srl = srl-Refines raw m valid build masks
    handle-interpreted sra = sra-Refines raw m valid build masks
    handle-interpreted or = or-Refines raw m valid
    handle-interpreted and = and-Refines raw m valid
    handle-interpreted fence = refl
    handle-interpreted ecall = refl
    handle-interpreted ebreak = refl
    handle-interpreted unknown = refl

    -- On a machine that masks its shift counts, for a word of 32 bits and from a valid state, the
    -- handler of every instruction but LB, LH and SH, and of JALR unless it links into the register
    -- it jumps through (register 0 apart), changes the program counter, the registers and the
    -- memory exactly as the manual says, or stops as the manual says, unless the manual has an
    -- exception for a jump to an address that is not one of a word (`misaligned`).
    pub handle-Refines :
        (i : Rv32i)
        → i ≢ lb
        → i ≢ lh
        → i ≢ sh
        → (i ≡ jalr → (rd raw ≢ rs1 raw) ⊎ (rs1 raw ≡ 0))
        → exec i raw (view m) ≢ Isa.misaligned
        → effect (handle build i raw m) ≡ exec i raw (view m)
    unfolding exec
    handle-Refines i not_lb not_lh not_sh apart aligned =
        handle-interpreted i
        ∙ (interpreted-apply i raw (view m) not_lb not_lh not_sh apart
            ∙ sym (checked-eq (view m).pc (apply i raw (view m)) aligned))
