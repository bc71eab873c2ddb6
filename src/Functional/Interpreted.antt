-- ===== src/Functional/Interpreted.antt =====
-- What the interpreter does to the architectural state: the manual's instructions, but for four, and
-- without its exception on a jump to an address that is not one of a word (`Isa.apply`).
-- LB and LH do not extend the sign, SH stores one byte, and a JALR that links into the register
-- that it jumps through jumps by the link.
use risc_v_co_simulator.Base.{
  ℕ, zero, suc, ◌+◌, ◌*◌, ◌/◌, ◌%◌, ◌^◌, Bool, not, ◌&&◌, none, some, ◌==◌, if◌then◌else◌,
}
use risc_v_co_simulator.Memory.{read_bytes}
use risc_v_co_simulator.Isa
use risc_v_co_simulator.Isa.{State, Effect, apply}
use risc_v_co_simulator.Functional.Instruction.{Rv32i, jalr, lb, lh, lbu, lhu, sb, sh, rd, rs1}
use risc_v_co_simulator.Functional.Decoder.{decode}

-- A JALR whose link register is its base, and is not register 0.
abbrev pub clobbers : ℕ → Bool
clobbers raw = rd raw == rs1 raw && not (rs1 raw == 0)

abbrev pub jalr_by_link : ℕ → State → Effect
jalr_by_link raw s = Effect.next (record s {
  pc = (s.pc + 4 + Isa.imm_i raw) % 2 ^ 32 / 2 * 2;
  x = Isa.put s.x (rd raw) ((s.pc + 4) % 2 ^ 32);
})

unfoldable pub interpreted : Rv32i → ℕ → State → Effect
unfolding apply
interpreted lb raw s = apply lbu raw s
interpreted lh raw s = apply lhu raw s
interpreted sh raw s = apply sb raw s
interpreted jalr raw s = if clobbers raw then jalr_by_link raw s else apply jalr raw s
interpreted instr raw s = apply instr raw s

-- After an instruction: the word at the program counter, if the build lets it be fetched there.
abbrev pub follow : (debug : Bool) → (ℕ → State → Effect) → Effect → Effect
follow debug go_on (Effect.next s) =
    if debug && not (s.pc % 4 == 0)
    then Effect.illegal
    else elim (read_bytes 4 s.mem s.pc) [ none ↦ Effect.fault | some raw ↦ go_on raw s ]
follow debug go_on e = e

-- `fuel` instructions of the program in memory, from an instruction `raw` on, each with the effect
-- that `instructions` gives it: the state before the instruction that follows, or how they end.
unfoldable pub walk :
    (debug : Bool) → (Rv32i → ℕ → State → Effect) → (fuel raw : ℕ) → State → Effect
walk debug instructions zero raw s = Effect.next s
walk debug instructions (suc fuel) raw s = elim (decode debug raw) [
  | none ↦ Effect.illegal
  | some i ↦ follow debug (λ raw' s'. walk debug instructions fuel raw' s') (instructions i raw s)
]
