-- ===== src/Functional/Refines/State.antt =====
-- The architectural state of the interpreter, the facts that every handler relies on, and what
-- reads and writes of registers do.
use mathlib.Core.Path.{fun_ext}
use risc_v_co_simulator.Base.{
  ℕ, ◌^◌, ◌<◌, ◌≡◌, ap, ◌∙◌, arith, ◌==◌, if◌then◌else◌, bit_and_low, bit_and-zero, u32, lt→ltb,
}
use risc_v_co_simulator.Runtime.{
  ecall, ebreak, returned, terminated, killed, Outcome, done, stop, M, ◌>>=◌, ◌>>◌,
}
use risc_v_co_simulator.Isa
use risc_v_co_simulator.Isa.{Effect}
use risc_v_co_simulator.Trace.{trace_set_reg_file}
use risc_v_co_simulator.Functional.Instruction.{rd, rs1, rs2}
use risc_v_co_simulator.Functional.Regfile.{masked, assign}
use risc_v_co_simulator.Functional.Model.{FunctionalModel, read_reg, write_reg, advance}

abbrev pub view : FunctionalModel → Isa.State
view m = record { pc = m.pc; x = m.registers.regs; mem = m.mmu.cell }

-- What a handler amounts to for the program that runs.
abbrev pub effect : {A : Type 0} → Outcome FunctionalModel A → Effect
effect (done _ m) = Effect.next (view m)
effect (stop (returned ecall) m) = Effect.environment_call
effect (stop (returned ebreak) m) = Effect.breakpoint
effect (stop killed m) = Effect.fault
effect (stop terminated m) = Effect.illegal
effect (stop _ m) = Effect.internal_error

-- The model after `registers.WriteReg(value, idx)`.
abbrev pub written : (value idx : ℕ) → FunctionalModel → FunctionalModel
written value idx m = record m {
  registers = record (m.registers) { regs = assign m.registers.regs idx (masked value idx) };
  writer =
      if idx == 0
      then m.writer
      else trace_set_reg_file m.registers.readable_traces "set " 1 idx value m.writer;
}

module _ (idx : ℕ) (h : idx < 32) where
  pub read_reg_lem : (m : FunctionalModel) → read_reg idx m ≡ done (m.registers.regs idx) m
  unfolding read_reg
  read_reg_lem m = ground arith

  pub write_reg_lem :
      (value : ℕ) (m : FunctionalModel) → write_reg value idx m ≡ done tt (written value idx m)
  unfolding write_reg
  write_reg_lem value m = rw (lt→ltb idx 32 h, write_reg)

-- What WriteReg stores, at register 0 too.
pub masked_lem : (value idx : ℕ) → masked value idx ≡ (if idx == 0 then 0 else u32 value)
unfolding masked
masked_lem value idx = ground (arith, bit_and_low 32 value, bit_and-zero value)

-- A write through WriteReg is the manual's write.
pub assign-put :
    (x : ℕ → ℕ) (idx value : ℕ)
    → x 0 ≡ 0
    → value < 2 ^ 32
    → assign x idx (masked value idx) ≡ Isa.put x idx value
assign-put x idx value z h = fun_ext λ j. ground (arith, masked_lem value idx, z)

module _ (raw : ℕ) (m : FunctionalModel) where
  -- How handlers begin: reading `rs1`, or `rs1` and `rs2`.
  pub read_rs1_lem :
      {B : Type 0} (k : ℕ → M FunctionalModel B)
      → (read_reg (rs1 raw) >>= k) m ≡ k (m.registers.regs (rs1 raw)) m
  read_rs1_lem k = rw (read_reg_lem (rs1 raw) (omega arith), ◌>>=◌)

  pub read_both_lem :
      {B : Type 0} (k : ℕ → ℕ → M FunctionalModel B)
      → (read_reg (rs1 raw) >>= λ a. read_reg (rs2 raw) >>= k a) m
        ≡ k (m.registers.regs (rs1 raw)) (m.registers.regs (rs2 raw)) m
  read_both_lem k =
      read_rs1_lem (λ a. read_reg (rs2 raw) >>= k a)
      ∙ rw (read_reg_lem (rs2 raw) (omega arith), ◌>>=◌)

module _ (raw : ℕ) (m : FunctionalModel) (valid : Isa.IsValid (view m)) where
  -- How handlers of results end: WriteReg, then `pc += 4`.
  pub result_lem :
      (value : ℕ)
      → value < 2 ^ 32
      → effect ((write_reg value (rd raw) >> advance) m) ≡ Isa.result raw (view m) value
  result_lem value h =
      rw (write_reg_lem (rd raw) (omega arith), ◌>>◌, ◌>>=◌)
        (ap (Isa.continue_with (view m))
          (assign-put m.registers.regs (rd raw) value valid.zero_reg h))
