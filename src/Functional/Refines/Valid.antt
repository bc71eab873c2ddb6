-- ===== src/Functional/Refines/Valid.antt =====
-- Valid states of the interpreter under its instructions: values in their types, register 0 at 0.
use risc_v_co_simulator.Base.{
  ℕ, ◌+◌, ◌%◌, ◌<◌, ◌≤◌, ◌≡◌, ◌^◌, inl, inr, refl, arith, Bool, Bool-cases, Option, none, some,
  bit_xor-lt, bit_and-lt, bit_or-lt,
}
use native.Mathlib.Nat.{div-le_self}
use risc_v_co_simulator.Functional.Refines.Shifts.{shift_right_arith-lt}
use risc_v_co_simulator.Isa
use risc_v_co_simulator.Isa.{State, Effect, IsValid, apply}
use risc_v_co_simulator.Memory.{Cells, read_bytes, write_bytes}
use risc_v_co_simulator.Memory.Access.{read_bytes-lt, write_bytes-IsBytes, stored}
use risc_v_co_simulator.Functional.Instruction.{Rv32i}
use risc_v_co_simulator.Functional.Interpreted.{interpreted, clobbers}

-- What follows an instruction is valid, if anything does.
abbrev pub Keeps : Effect → Type 0
Keeps (Effect.next s) = IsValid s
Keeps _ = Unit

put-lt :
    (x : ℕ → ℕ) (i v : ℕ)
    → ((j : ℕ) → x j < 2 ^ 32)
    → v < 2 ^ 32
    → (j : ℕ) → Isa.put x i v j < 2 ^ 32
put-lt x i v words h j = ground (arith, words j)

module _ (raw : ℕ) (word : raw < 2 ^ 32) (s : State) (valid : IsValid s) where
  IsValid-after :
      (pc : ℕ) (v : ℕ)
      → pc < 2 ^ 32
      → v < 2 ^ 32
      → IsValid (record s { pc = pc; x = Isa.put s.x (Isa.rd raw) v })
  IsValid-after pc v hp hv = record {
    pc_word = hp;
    zero_reg = refl;
    reg_word = put-lt s.x (Isa.rd raw) v valid.reg_word hv;
    cell_byte = valid.cell_byte;
  }

  IsValid-pc : (pc : ℕ) → pc < 2 ^ 32 → IsValid (record s { pc = pc })
  IsValid-pc pc h = record {
    pc_word = h;
    zero_reg = valid.zero_reg;
    reg_word = valid.reg_word;
    cell_byte = valid.cell_byte;
  }

  load-Keeps : (n : ℕ) → 256 ^ n ≤ 2 ^ 32 → Keeps (Isa.load n (λ v. v) raw s)
  load-Keeps n fits =
      let a = (s.x (Isa.rs1 raw) + Isa.imm_i raw) % 2 ^ 32 in
      go (read_bytes n s.mem a) (omega (arith, read_bytes-lt n a s.mem valid.cell_byte))
    where
      go : (o : Option ℕ) → stored o < 2 ^ 32 → Keeps (Isa.loaded raw s (λ v. v) o)
      go none h = tt
      go (some v) h = IsValid-after ((s.pc + 4) % 2 ^ 32) v (omega arith) h

  store-Keeps : (n : ℕ) → Keeps (Isa.store n raw s)
  store-Keeps n =
      go (write_bytes n v a s.mem)
        (λ mem e q. write_bytes-IsBytes n v a s.mem mem valid.cell_byte q e)
    where
      v : ℕ
      v = s.x (Isa.rs2 raw)

      a : ℕ
      a = (s.x (Isa.rs1 raw) + Isa.imm_s raw) % 2 ^ 32

      go :
          (o : Option Cells)
          → ((mem : Cells) → o ≡ some mem → (q : ℕ) → stored (mem q) < 256)
          → Keeps (Isa.stored s o)
      go none h = tt
      go (some mem) h = record {
        pc_word = omega arith;
        zero_reg = valid.zero_reg;
        reg_word = valid.reg_word;
        cell_byte = h mem refl;
      }

  branch-Keeps : (c : Bool) → Keeps (Isa.branch c raw s)
  branch-Keeps c = IsValid-pc _ (omega arith)

  result-Keeps : (v : ℕ) → v < 2 ^ 32 → Keeps (Isa.result raw s v)
  result-Keeps v h = IsValid-after ((s.pc + 4) % 2 ^ 32) v (omega arith) h

  imm_i-lt : Isa.imm_i raw < 2 ^ 32
  imm_i-lt = ground arith

  -- Every instruction, as the interpreter does it, leaves a valid state.
  pub interpreted-Keeps : (i : Rv32i) → Keeps (interpreted i raw s)
  unfolding interpreted apply
  interpreted-Keeps Rv32i.lui = result-Keeps _ (omega arith)
  interpreted-Keeps Rv32i.auipc = result-Keeps _ (omega arith)
  interpreted-Keeps Rv32i.jal = IsValid-after _ _ (omega arith) (omega arith)
  interpreted-Keeps Rv32i.jalr = elim (Bool-cases (clobbers raw)) [
    | inl e ↦ rw e (IsValid-after _ _ (omega arith) (omega arith))
    | inr e ↦ rw e (IsValid-after _ _ (omega arith) (omega arith))
  ]
  interpreted-Keeps Rv32i.beq = branch-Keeps _
  interpreted-Keeps Rv32i.bne = branch-Keeps _
  interpreted-Keeps Rv32i.blt = branch-Keeps _
  interpreted-Keeps Rv32i.bge = branch-Keeps _
  interpreted-Keeps Rv32i.bltu = branch-Keeps _
  interpreted-Keeps Rv32i.bgeu = branch-Keeps _
  interpreted-Keeps Rv32i.lb = load-Keeps 1 (omega arith)
  interpreted-Keeps Rv32i.lh = load-Keeps 2 (omega arith)
  interpreted-Keeps Rv32i.lw = load-Keeps 4 (omega arith)
  interpreted-Keeps Rv32i.lbu = load-Keeps 1 (omega arith)
  interpreted-Keeps Rv32i.lhu = load-Keeps 2 (omega arith)
  interpreted-Keeps Rv32i.sb = store-Keeps 1
  interpreted-Keeps Rv32i.sh = store-Keeps 1
  interpreted-Keeps Rv32i.sw = store-Keeps 4
  interpreted-Keeps Rv32i.addi = result-Keeps _ (omega arith)
  interpreted-Keeps Rv32i.slti = result-Keeps _ (ground arith)
  interpreted-Keeps Rv32i.sltiu = result-Keeps _ (ground arith)
  interpreted-Keeps Rv32i.xori = result-Keeps _ (bit_xor-lt 32 _ _ (valid.reg_word _) imm_i-lt)
  interpreted-Keeps Rv32i.ori = result-Keeps _ (bit_or-lt 32 _ _ (valid.reg_word _) imm_i-lt)
  interpreted-Keeps Rv32i.andi = result-Keeps _ (bit_and-lt 32 _ _ (valid.reg_word _) imm_i-lt)
  interpreted-Keeps Rv32i.slli = result-Keeps _ (omega arith)
  interpreted-Keeps Rv32i.srli = result-Keeps _ (
      omega (
        arith,
        valid.reg_word (Isa.rs1 raw),
        div-le_self (s.x (Isa.rs1 raw)) (2 ^ (Isa.imm_i raw % 32)),
      ))
  interpreted-Keeps Rv32i.srai = result-Keeps _ (shift_right_arith-lt _ _ (valid.reg_word _))
  interpreted-Keeps Rv32i.add = result-Keeps _ (omega arith)
  interpreted-Keeps Rv32i.sub = result-Keeps _ (omega arith)
  interpreted-Keeps Rv32i.sll = result-Keeps _ (omega arith)
  interpreted-Keeps Rv32i.slt = result-Keeps _ (ground arith)
  interpreted-Keeps Rv32i.sltu = result-Keeps _ (ground arith)
  interpreted-Keeps Rv32i.xor =
      result-Keeps _ (bit_xor-lt 32 _ _ (valid.reg_word _) (valid.reg_word _))
  interpreted-Keeps Rv32i.srl = result-Keeps _ (
      omega (
        arith,
        valid.reg_word (Isa.rs1 raw),
        div-le_self (s.x (Isa.rs1 raw)) (2 ^ (s.x (Isa.rs2 raw) % 32)),
      ))
  interpreted-Keeps Rv32i.sra = result-Keeps _ (shift_right_arith-lt _ _ (valid.reg_word _))
  interpreted-Keeps Rv32i.or =
      result-Keeps _ (bit_or-lt 32 _ _ (valid.reg_word _) (valid.reg_word _))
  interpreted-Keeps Rv32i.and =
      result-Keeps _ (bit_and-lt 32 _ _ (valid.reg_word _) (valid.reg_word _))
  interpreted-Keeps Rv32i.fence = IsValid-pc _ (omega arith)
  interpreted-Keeps Rv32i.ecall = tt
  interpreted-Keeps Rv32i.ebreak = tt
  interpreted-Keeps Rv32i.unknown = tt
