-- ===== src/Pipeline/Datapath/Refines.antt =====
-- The instructions that use no memory, through DoDecode and DoExecute, against the manual.
use risc_v_co_simulator.Base.{
  ℕ, ◌+◌, ◌*◌, ◌/◌, ◌%◌, ◌^◌, ◌<◌, ◌≡◌, ◌≢◌, ◌∙◌, ap, refl, arith, u32, Bool, true, false, ◌&&◌,
  if◌then◌else◌, bit_and,
}
use risc_v_co_simulator.Isa
use risc_v_co_simulator.Isa.{State, Effect, apply}
use risc_v_co_simulator.Isa.Encoding.{Encodes, fields}
use risc_v_co_simulator.Functional.Instruction.{
  Rv32i, lui, jalr, beq, bne, blt, bge, bltu, bgeu, lb, lh, lw, lbu, lhu, sb, sh, sw, fence, ecall,
  ebreak, unknown,
}
use risc_v_co_simulator.Functional.Refines.Control.{clear_lowest}
use risc_v_co_simulator.Pipeline.Blocks.{operation, condition, immediate}
use risc_v_co_simulator.Pipeline.Signals.{uses_memory}
use risc_v_co_simulator.Pipeline.Model.{PipelineModel}
use risc_v_co_simulator.Pipeline.Datapath.{
  decoded, clocked, executed_alone, retired, retire_lem, retirement,
}

branch_pc :
    (c : Bool) (pc imm : ℕ)
    → (if c && true then u32 (pc + imm) else (pc + 4) % 2 ^ 32)
      ≡ (pc + (if c then imm else 4)) % 2 ^ 32
branch_pc true pc imm = refl
branch_pc false pc imm = refl

module _ (raw : ℕ) (word : raw < 2 ^ 32) (s : State) (valid : Isa.IsValid s)
    (m : PipelineModel) where
  branch_lem :
      (c : Bool)
      → Effect.next
          (record s { pc = if c && true then u32 (s.pc + Isa.imm_b raw) else (s.pc + 4) % 2 ^ 32 })
        ≡ Isa.branch c raw s
  branch_lem c = ap (λ p. Effect.next (record s { pc = p })) (branch_pc c s.pc (Isa.imm_b raw))

  retirement-apply :
      (i : Rv32i)
      → i ≢ fence
      → i ≢ ecall
      → i ≢ ebreak
      → i ≢ unknown
      → uses_memory i ≡ false
      → retirement i raw s ≡ apply i raw s
  unfolding operation condition immediate apply
  retirement-apply beq a b c d f = branch_lem _
  retirement-apply bne a b c d f = branch_lem _
  retirement-apply blt a b c d f = branch_lem _
  retirement-apply bge a b c d f = branch_lem _
  retirement-apply bltu a b c d f = branch_lem _
  retirement-apply bgeu a b c d f = branch_lem _
  retirement-apply jalr a b c d f =
      let t = (s.x (Isa.rs1 raw) + Isa.imm_i raw) % 2 ^ 32 in
      let even : u32 (0 + bit_and t 0xfffffffe) ≡ t / 2 * 2 =
        omega (arith, clear_lowest t (omega arith)) in
      ap
        (λ p. Effect.next (record s { pc = p; x = Isa.put s.x (Isa.rd raw) ((s.pc + 4) % 2 ^ 32) }))
        even
  retirement-apply lui a b c d f =
      let plain : (0 + Isa.imm_u raw) % 2 ^ 32 ≡ Isa.imm_u raw = omega arith in
      ap (Isa.result raw s) plain
  retirement-apply fence a b c d f = absurd (a refl)
  retirement-apply ecall a b c d f = absurd (b refl)
  retirement-apply ebreak a b c d f = absurd (c refl)
  retirement-apply unknown a b c d f = absurd (d refl)
  retirement-apply lb a b c d f = absurd (ground arith)
  retirement-apply lh a b c d f = absurd (ground arith)
  retirement-apply lw a b c d f = absurd (ground arith)
  retirement-apply lbu a b c d f = absurd (ground arith)
  retirement-apply lhu a b c d f = absurd (ground arith)
  retirement-apply sb a b c d f = absurd (ground arith)
  retirement-apply sh a b c d f = absurd (ground arith)
  retirement-apply sw a b c d f = absurd (ground arith)
  retirement-apply _ a b c d f = refl

  -- The wires after DoExecute, as far as `retired` reads them, for an instruction alone in the
  -- pipeline that uses no memory.
  pub executed_alone-Refines :
      (i : Rv32i)
      → Encodes i raw
      → i ≢ fence
      → i ≢ ecall
      → i ≢ ebreak
      → uses_memory i ≡ false
      → retired s (executed_alone (clocked (decoded i raw s m))) ≡ apply i raw s
  executed_alone-Refines i e not_fence not_ecall not_ebreak no_memory =
      retire_lem raw word s valid i e m
      ∙ retirement-apply i not_fence not_ecall not_ebreak (λ h. absurd (not_unknown i h e))
          no_memory
    where
      not_unknown : (i : Rv32i) → i ≡ unknown → Encodes i raw → ⊥
      not_unknown i h e = omega (arith, e.opcode_field, ap (λ t. (fields t).0) h)
