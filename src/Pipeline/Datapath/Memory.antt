-- ===== src/Pipeline/Datapath/Memory.antt =====
-- The loads and stores, through DoDecode, DoExecute and DoMemory, against the manual.
use risc_v_co_simulator.Base.{
  ℕ, ◌+◌, ◌-◌, ◌/◌, ◌%◌, ◌^◌, ◌<◌, ◌≡◌, ◌∙◌, ap, refl, arith, Option, none, some, bit_or-disjoint,
  true, false, if◌then◌else◌,
}
use risc_v_co_simulator.Isa
use risc_v_co_simulator.Isa.{State, Effect, apply}
use risc_v_co_simulator.Isa.Encoding.{Encodes}
use risc_v_co_simulator.Functional.Instruction.{Rv32i, lb, lh, lw, lbu, lhu}
use risc_v_co_simulator.Pipeline.Modules.Alu.{alu}
use risc_v_co_simulator.Pipeline.Stages.{MemoryState}
use risc_v_co_simulator.Pipeline.Blocks.{fields_lem, immediate}
use risc_v_co_simulator.Pipeline.Signals.{is_load}
use risc_v_co_simulator.Pipeline.Control.{load_control_signals}
use risc_v_co_simulator.Pipeline.Model.{PipelineModel}
use risc_v_co_simulator.Pipeline.Execute.{drive, executed, displacement}
use risc_v_co_simulator.Pipeline.Tick.{filled}
use risc_v_co_simulator.Runtime.{Outcome, done, stop, killed}
use risc_v_co_simulator.Memory as Mem
use risc_v_co_simulator.Memory.{Cells, read_bytes, write_bytes, update}
use risc_v_co_simulator.Memory.Access.{stored, read_bytes-lt}
use risc_v_co_simulator.Pipeline.Modules.Gates.{sign_extend_from_byte, sign_extend_from_byte2}
use risc_v_co_simulator.Pipeline.Modules.Storage.{
  DataMemUnit, value, accessed, tick_data_mem, get_data,
}
use risc_v_co_simulator.Pipeline.Tick.{do_memory}
use risc_v_co_simulator.Pipeline.Datapath.{decoded, clocked, executed_alone, imm_lem, operand_a_lem}

-- The clock edge that takes the instruction to the memory stage.
abbrev pub clocked_on : PipelineModel → PipelineModel
clocked_on m = record m {
  memory_register = record (m.memory_register) { current = m.memory_register.next };
}

-- What the memory stage leaves for an instruction at `s` that does not jump.
unfoldable pub retired_memory : State → Outcome PipelineModel (Unit {0}) → Effect
retired_memory s (done _ m) =
    let w = m.write_back_register.next in
    Effect.next (record s {
      pc = (s.pc + 4) % 2 ^ 32;
      x = if w.wb_we then Isa.put s.x w.wb_a w.wb_d else s.x;
      mem = m.mmu.cell;
    })
retired_memory s (stop killed m) = Effect.fault
retired_memory s (stop e m) = Effect.internal_error

sign_extend_byte_lem : (v : ℕ) → v < 256 → sign_extend_from_byte v ≡ Isa.sext 8 v
unfolding sign_extend_from_byte
sign_extend_byte_lem v h = ground (arith, bit_or-disjoint 8 v (2 ^ 24 - 1))

sign_extend_half_lem : (v : ℕ) → v < 65536 → sign_extend_from_byte2 v ≡ Isa.sext 16 v
unfolding sign_extend_from_byte2
sign_extend_half_lem v h = ground (arith, bit_or-disjoint 16 v (2 ^ 16 - 1))

extended_byte :
    (o : Option ℕ) → stored o < 256 → accessed sign_extend_from_byte o ≡ accessed (Isa.sext 8) o
extended_byte none h = refl
extended_byte (some v) h = ap value (sign_extend_byte_lem v h)

extended_half :
    (o : Option ℕ) → stored o < 65536 → accessed sign_extend_from_byte2 o ≡ accessed (Isa.sext 16) o
extended_half none h = refl
extended_half (some v) h = ap value (sign_extend_half_lem v h)

abbrev pub with_memory : MemoryState → Cells → PipelineModel → PipelineModel
with_memory r c m = record m {
  mmu = record (m.mmu) { cell = c };
  memory_register = record (m.memory_register) { current = r };
}

module _ (raw : ℕ) (s : State) (m : PipelineModel) (mode operand a : ℕ) where
  abbrev loading : MemoryState
  loading = record {
    mem_we = false;
    mem_to_reg = true;
    wb_we = true;
    jmp_cond = false;
    store_mode = mode;
    write_data = operand;
    alu_res = a;
    wb_a = Isa.rd raw;
  }

  abbrev unit_at : ℕ → DataMemUnit
  unit_at v = record {
    store_mode = mode;
    write_enable = false;
    address = a;
    write_data = operand;
    read_data = v;
  }

  load_stage :
      (extend : ℕ → ℕ) (o : Option ℕ)
      → ((v : ℕ) → get_data (unit_at v) (record (m.mmu) { cell = s.mem }) ≡ accessed extend o)
      → retired_memory s (do_memory (with_memory loading s.mem m)) ≡ Isa.loaded raw s extend o
  unfolding retired_memory do_memory tick_data_mem
  load_stage extend none h = rw (retired_memory, h m.data_mem_unit.read_data) refl
  load_stage extend (some v) h =
      rw (retired_memory, h m.data_mem_unit.read_data) (rw (retired_memory, h (extend v)) refl)

-- An instruction alone in the pipeline, from its decode to the end of its memory stage.
abbrev pub alone : ℕ → State → PipelineModel → Rv32i → Effect
alone raw s m i =
    retired_memory s (do_memory (clocked_on (executed_alone (clocked (decoded i raw s m)))))

module _ (raw : ℕ) (word : raw < 2 ^ 32) (s : State) (valid : Isa.IsValid s)
    (m : PipelineModel) where
  -- A load reaches the memory stage with its mode and address.
  load_alone :
      (i : Rv32i) (e : Encodes i raw)
      → is_load i ≡ true
      → clocked_on (executed_alone (clocked (decoded i raw s m)))
        ≡ with_memory
            (loading raw s m
              (raw / 2 ^ 12 % 8)
              (s.x (Isa.rs2 raw))
              ((s.x (Isa.rs1 raw) + Isa.imm_i raw) % 2 ^ 32))
            s.mem
            (executed_alone (clocked (decoded i raw s m)))
  unfolding executed_alone drive filled load_control_signals executed displacement immediate alu
  load_alone lb e l =
      rw
        (
          imm_lem raw word lb e,
          (fields_lem raw word).1,
          (fields_lem raw word).2,
          operand_a_lem raw word s valid lb e m,
        )
        refl
  load_alone lh e l =
      rw
        (
          imm_lem raw word lh e,
          (fields_lem raw word).1,
          (fields_lem raw word).2,
          operand_a_lem raw word s valid lh e m,
        )
        refl
  load_alone lw e l =
      rw
        (
          imm_lem raw word lw e,
          (fields_lem raw word).1,
          (fields_lem raw word).2,
          operand_a_lem raw word s valid lw e m,
        )
        refl
  load_alone lbu e l =
      rw
        (
          imm_lem raw word lbu e,
          (fields_lem raw word).1,
          (fields_lem raw word).2,
          operand_a_lem raw word s valid lbu e m,
        )
        refl
  load_alone lhu e l =
      rw
        (
          imm_lem raw word lhu e,
          (fields_lem raw word).1,
          (fields_lem raw word).2,
          operand_a_lem raw word s valid lhu e m,
        )
        refl
  load_alone _ e l = absurd (ground arith)

  abbrev loaded_bytes : (n : ℕ) → Option ℕ
  loaded_bytes n = read_bytes n s.mem ((s.x (Isa.rs1 raw) + Isa.imm_i raw) % 2 ^ 32)

  loaded-lt : (n : ℕ) → stored (loaded_bytes n) < 256 ^ n
  loaded-lt n = read_bytes-lt n ((s.x (Isa.rs1 raw) + Isa.imm_i raw) % 2 ^ 32) s.mem valid.cell_byte

  load_lem :
      (i : Rv32i) (extend : ℕ → ℕ) (o : Option ℕ)
      → Encodes i raw
      → is_load i ≡ true
      → ((v : ℕ)
          → get_data
              (unit_at raw s m
                (raw / 2 ^ 12 % 8)
                (s.x (Isa.rs2 raw))
                ((s.x (Isa.rs1 raw) + Isa.imm_i raw) % 2 ^ 32)
                v)
              (record (m.mmu) { cell = s.mem })
            ≡ accessed extend o)
      → alone raw s m i ≡ Isa.loaded raw s extend o
  unfolding executed_alone drive
  load_lem i extend o e l h =
      ap (λ t. retired_memory s (do_memory t)) (load_alone i e l)
      ∙ load_stage raw s (executed_alone (clocked (decoded i raw s m))) (raw / 2 ^ 12 % 8)
          (s.x (Isa.rs2 raw)) ((s.x (Isa.rs1 raw) + Isa.imm_i raw) % 2 ^ 32) extend o h

  pub load-Refines :
      (i : Rv32i) → Encodes i raw → is_load i ≡ true → alone raw s m i ≡ apply i raw s
  unfolding apply get_data Mem.get_word Mem.get_half Mem.get_byte
  load-Refines lw e l = load_lem lw (λ v. v) (loaded_bytes 4) e l (λ v. rw e.funct3_field refl)
  load-Refines lbu e l = load_lem lbu (λ v. v) (loaded_bytes 1) e l (λ v. rw e.funct3_field refl)
  load-Refines lhu e l = load_lem lhu (λ v. v) (loaded_bytes 2) e l (λ v. rw e.funct3_field refl)
  load-Refines lb e l =
      load_lem lb (Isa.sext 8) (loaded_bytes 1) e l
        (λ v. rw e.funct3_field (extended_byte (loaded_bytes 1) (loaded-lt 1)))
  load-Refines lh e l =
      load_lem lh (Isa.sext 16) (loaded_bytes 2) e l
        (λ v. rw e.funct3_field (extended_half (loaded_bytes 2) (loaded-lt 2)))
  load-Refines _ e l = absurd (ground arith)
