-- ===== src/Functional/Tracked/Run.antt =====
-- A run of the interpreter and the chunks of its memory.
use risc_v_co_simulator.Base.{
  ℕ, zero, suc, ◌+◌, ◌%◌, Bool, true, false, not, ◌&&◌, ◌==◌, Option, none, some, if◌then◌else◌,
}
use risc_v_co_simulator.Runtime.{terminated, Outcome, done, stop, final, M, ◌>>=◌, ◌>>◌, Build}
use risc_v_co_simulator.Memory.Chunks.{IsTracked}
use risc_v_co_simulator.Functional.Instruction.{Rv32i, rd, rs1, rs2}
use risc_v_co_simulator.Functional.Decoder.{decode}
use risc_v_co_simulator.Functional.Model.{
  FunctionalModel, read_reg, write_reg, get_word, get_half, get_byte, advance, load_from_pc,
  decode_and_goto, trace_executed,
}
use risc_v_co_simulator.Functional.Handlers.{handle, switch_decoder, step, run_from, run}
use risc_v_co_simulator.Functional.Handlers.Control.{
  branch_if, handle_lui, handle_auipc, handle_jal, handle_jalr, handle_beq, handle_bne, handle_blt,
  handle_bge, handle_bltu, handle_bgeu,
}
use risc_v_co_simulator.Functional.Handlers.Memory.{
  handle_lb, handle_lh, handle_lw, handle_lbu, handle_lhu, handle_sb, handle_sh, handle_sw,
}
use risc_v_co_simulator.Functional.Handlers.Arith.{
  handle_addi, handle_slti, handle_sltiu, handle_xori, handle_ori, handle_andi, handle_slli,
  handle_srli, handle_srai, handle_add, handle_sub, handle_sll, handle_slt, handle_sltu, handle_xor,
  handle_srl, handle_sra, handle_or, handle_and,
}
use risc_v_co_simulator.Functional.Tracked.{
  KeepsTracked, bind-KeepsTracked, read_reg-KeepsTracked, write_reg-KeepsTracked,
  get_word-KeepsTracked, get_half-KeepsTracked, get_byte-KeepsTracked, set_word-KeepsTracked,
  set_byte-KeepsTracked, get_pc-KeepsTracked, set_pc-KeepsTracked, advance-KeepsTracked,
}

module _ (raw : ℕ) where
  H : Type 0
  H = M FunctionalModel (Unit {0})

  writes : (v : ℕ) → KeepsTracked (write_reg v (rd raw) >> advance)
  writes v = bind-KeepsTracked _ _ (write_reg-KeepsTracked v (rd raw)) (λ _. advance-KeepsTracked)

  -- The shapes of the handlers.
  unary :
      (f : ℕ → ℕ) → KeepsTracked (read_reg (rs1 raw) >>= λ a. write_reg (f a) (rd raw) >> advance)
  unary f = bind-KeepsTracked _ _ (read_reg-KeepsTracked (rs1 raw)) (λ a. writes (f a))

  operands :
      (k : ℕ → ℕ → M FunctionalModel (Unit {0}))
      → ((a b : ℕ) → KeepsTracked (k a b))
      → KeepsTracked (read_reg (rs1 raw) >>= λ a. read_reg (rs2 raw) >>= λ b. k a b)
  operands k h =
      bind-KeepsTracked _ _ (read_reg-KeepsTracked (rs1 raw))
        (λ a. bind-KeepsTracked _ _ (read_reg-KeepsTracked (rs2 raw)) (λ b. h a b))

  loads :
      (get : ℕ → M FunctionalModel ℕ) (f : ℕ → ℕ)
      → ((p : ℕ) → KeepsTracked (get p))
      → KeepsTracked
          (read_reg (rs1 raw) >>= λ a. get (f a) >>= λ v. write_reg v (rd raw) >> advance)
  loads get f h =
      bind-KeepsTracked _ _ (read_reg-KeepsTracked (rs1 raw))
        (λ a. bind-KeepsTracked _ _ (h (f a)) (λ v. writes v))

  branch : (b : Bool) → KeepsTracked (branch_if b raw)
  unfolding branch_if
  branch b = bind-KeepsTracked _ _ get_pc-KeepsTracked (λ pc. set_pc-KeepsTracked _)

  stores : (x : M FunctionalModel (Unit {0})) → KeepsTracked x → KeepsTracked (x >> advance)
  stores x h = bind-KeepsTracked _ _ h (λ _. advance-KeepsTracked)

  -- No handler loses a chunk or maps a byte outside one.
  handle-KeepsTracked : (b : Build) (i : Rv32i) → KeepsTracked (handle b i raw)
  unfolding handle handle_lui handle_auipc handle_jal handle_jalr handle_beq handle_bne handle_blt
      handle_bge handle_bltu handle_bgeu handle_lb handle_lh handle_lw handle_lbu handle_lhu
      handle_sb handle_sh handle_sw handle_addi handle_slti handle_sltiu handle_xori handle_ori
      handle_andi handle_slli handle_srli handle_srai handle_add handle_sub handle_sll handle_slt
      handle_sltu handle_xor handle_srl handle_sra handle_or handle_and
  handle-KeepsTracked b Rv32i.lui = writes _
  handle-KeepsTracked b Rv32i.auipc = bind-KeepsTracked _ _ get_pc-KeepsTracked (λ pc. writes _)
  handle-KeepsTracked b Rv32i.jal =
      bind-KeepsTracked _ _ get_pc-KeepsTracked
        (λ pc. bind-KeepsTracked _ _ (write_reg-KeepsTracked _ _) (λ _. set_pc-KeepsTracked _))
  handle-KeepsTracked b Rv32i.jalr = bind-KeepsTracked _ _ get_pc-KeepsTracked (λ pc.
      bind-KeepsTracked _ _ (write_reg-KeepsTracked _ _)
        (λ _. bind-KeepsTracked _ _ (read_reg-KeepsTracked _) (λ a. set_pc-KeepsTracked _)))
  handle-KeepsTracked b Rv32i.beq = operands _ (λ a b. branch _)
  handle-KeepsTracked b Rv32i.bne = operands _ (λ a b. branch _)
  handle-KeepsTracked b Rv32i.blt = operands _ (λ a b. branch _)
  handle-KeepsTracked b Rv32i.bge = operands _ (λ a b. branch _)
  handle-KeepsTracked b Rv32i.bltu = operands _ (λ a b. branch _)
  handle-KeepsTracked b Rv32i.bgeu = operands _ (λ a b. branch _)
  handle-KeepsTracked b Rv32i.lb = loads get_byte _ get_byte-KeepsTracked
  handle-KeepsTracked b Rv32i.lh = loads get_half _ get_half-KeepsTracked
  handle-KeepsTracked b Rv32i.lw = loads get_word _ get_word-KeepsTracked
  handle-KeepsTracked b Rv32i.lbu = loads get_byte _ get_byte-KeepsTracked
  handle-KeepsTracked b Rv32i.lhu = loads get_half _ get_half-KeepsTracked
  handle-KeepsTracked b Rv32i.sb = operands _ (λ a v. stores _ (set_byte-KeepsTracked _ _))
  handle-KeepsTracked b Rv32i.sh = operands _ (λ a v. stores _ (set_byte-KeepsTracked _ _))
  handle-KeepsTracked b Rv32i.sw = operands _ (λ a v. stores _ (set_word-KeepsTracked _ _))
  handle-KeepsTracked b Rv32i.addi = unary _
  handle-KeepsTracked b Rv32i.slti = unary _
  handle-KeepsTracked b Rv32i.sltiu = unary _
  handle-KeepsTracked b Rv32i.xori = unary _
  handle-KeepsTracked b Rv32i.ori = unary _
  handle-KeepsTracked b Rv32i.andi = unary _
  handle-KeepsTracked b Rv32i.slli = unary _
  handle-KeepsTracked b Rv32i.srli = unary _
  handle-KeepsTracked b Rv32i.srai = unary _
  handle-KeepsTracked b Rv32i.add = operands _ (λ a b. writes _)
  handle-KeepsTracked b Rv32i.sub = operands _ (λ a b. writes _)
  handle-KeepsTracked b Rv32i.sll = operands _ (λ a b. writes _)
  handle-KeepsTracked b Rv32i.slt = operands _ (λ a b. writes _)
  handle-KeepsTracked b Rv32i.sltu = operands _ (λ a b. writes _)
  handle-KeepsTracked b Rv32i.xor = operands _ (λ a b. writes _)
  handle-KeepsTracked b Rv32i.srl = operands _ (λ a b. writes _)
  handle-KeepsTracked b Rv32i.sra = operands _ (λ a b. writes _)
  handle-KeepsTracked b Rv32i.or = operands _ (λ a b. writes _)
  handle-KeepsTracked b Rv32i.and = operands _ (λ a b. writes _)
  handle-KeepsTracked b Rv32i.fence = advance-KeepsTracked
  handle-KeepsTracked b Rv32i.ecall = record { keeps = λ m h. h }
  handle-KeepsTracked b Rv32i.ebreak = record { keeps = λ m h. h }
  handle-KeepsTracked b Rv32i.unknown = record { keeps = λ m h. h }

or_terminated-KeepsTracked :
    {A : Type 0} (o : Option A) (m : FunctionalModel)
    → IsTracked m.mmu
    → IsTracked
        (final (elim o as (λ _. Outcome FunctionalModel A) [
          | none ↦ stop terminated m
          | some a ↦ done a m
        ])).mmu
or_terminated-KeepsTracked none m h = h
or_terminated-KeepsTracked (some a) m h = h

load_from_pc-KeepsTracked : (b : Build) → KeepsTracked (load_from_pc b)
unfolding load_from_pc
load_from_pc-KeepsTracked b = record { keeps = λ m h. go (b.debug && not (m.pc % 4 == 0)) m h }
  where
    go :
        (t : Bool) (m : FunctionalModel)
        → IsTracked m.mmu
        → IsTracked (final (if t then stop terminated m else get_word m.pc m)).mmu
    go true m h = h
    go false m h = (get_word-KeepsTracked m.pc).keeps m h

step-KeepsTracked : (b : Build) (raw : ℕ) → KeepsTracked (step b raw)
unfolding step trace_executed switch_decoder decode_and_goto
step-KeepsTracked b raw =
    bind-KeepsTracked (trace_executed raw) _ (record { keeps = λ m h. h })
      (λ _.
        bind-KeepsTracked (switch_decoder b raw) _
          (record { keeps = λ m h. or_terminated-KeepsTracked (decode b.debug raw) m h })
          (λ i.
            bind-KeepsTracked (handle b i raw) (λ _. decode_and_goto b)
              (handle-KeepsTracked raw b i)
              (λ _. record {
                keeps = λ m h.
                    (load_from_pc-KeepsTracked b).keeps
                      (record m { ticks_counter = m.ticks_counter + 1 }) h;
              })))

run_from-KeepsTracked : (b : Build) (fuel raw : ℕ) → KeepsTracked (run_from b fuel raw)
unfolding run_from
run_from-KeepsTracked b zero raw = record { keeps = λ m h. h }
run_from-KeepsTracked b (suc fuel) raw =
    bind-KeepsTracked (step b raw) (run_from b fuel) (step-KeepsTracked b raw)
      (run_from-KeepsTracked b fuel)

-- A run of the interpreter keeps the mapped bytes in the chunks, however it ends.
pub run-KeepsTracked : (b : Build) (fuel : ℕ) → KeepsTracked (run b fuel)
unfolding run
run-KeepsTracked b fuel = bind-KeepsTracked _ _ (load_from_pc-KeepsTracked b) (λ raw.
    bind-KeepsTracked (λ m. done tt (record m { ticks_counter = m.ticks_counter + 1 }))
      (λ _. run_from b fuel raw) (record { keeps = λ m h. h })
      (λ _. run_from-KeepsTracked b fuel raw))
