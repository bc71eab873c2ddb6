-- ===== src/Pipeline/Datapath/Store.antt =====
-- The stores, through DoDecode, DoExecute and DoMemory, against the manual.
use risc_v_co_simulator.Isa.Checked.{exec-access}
use risc_v_co_simulator.Base.{
  sym, ℕ, ◌+◌, ◌/◌, ◌%◌, ◌^◌, ◌<◌, ◌≡◌, ◌∙◌, ap, refl, arith, Bool-cases, inl, inr, Option, none,
  some, true, false, u8, u16,
}
use risc_v_co_simulator.Isa
use risc_v_co_simulator.Isa.{State, Effect, apply, exec}
use risc_v_co_simulator.Isa.Encoding.{Encodes}
use risc_v_co_simulator.Functional.Instruction.{Rv32i, sb, sh, sw}
use risc_v_co_simulator.Pipeline.Modules.Alu.{alu}
use risc_v_co_simulator.Pipeline.Stages.{MemoryState}
use risc_v_co_simulator.Pipeline.Blocks.{fields_lem, immediate}
use risc_v_co_simulator.Pipeline.Signals.{is_load, is_store, uses_memory}
use risc_v_co_simulator.Pipeline.Control.{load_control_signals}
use risc_v_co_simulator.Pipeline.Model.{PipelineModel}
use risc_v_co_simulator.Pipeline.Execute.{drive, executed, displacement}
use risc_v_co_simulator.Pipeline.Tick.{filled}
use risc_v_co_simulator.Memory as Mem
use risc_v_co_simulator.Memory.{Cells, read_bytes, write_bytes, update}
use risc_v_co_simulator.Memory.Access.{read-write_bytes}
use risc_v_co_simulator.Pipeline.Modules.Gates.{sign_extend_from_byte, sign_extend_from_byte2}
use risc_v_co_simulator.Pipeline.Modules.Storage.{
  DataMemUnit, value, accessed, tick_data_mem, get_data, store_value,
}
use risc_v_co_simulator.Pipeline.Tick.{do_memory}
use risc_v_co_simulator.Pipeline.Datapath.{decoded, clocked, executed_alone, imm_lem, operand_a_lem}
use risc_v_co_simulator.Trace.{TraceWriter, trace_set_memory}
use risc_v_co_simulator.Pipeline.Datapath.Memory.{
  clocked_on, retired_memory, with_memory, alone, load-Refines,
}

module _ (s : State) (m : PipelineModel) (mode operand a rd : ℕ) where
  abbrev pub storing : MemoryState
  storing = record {
    mem_we = true;
    mem_to_reg = false;
    wb_we = false;
    jmp_cond = false;
    store_mode = mode;
    write_data = operand;
    alu_res = a;
    wb_a = rd;
  }

  abbrev pub store_unit : DataMemUnit
  store_unit = record {
    store_mode = mode;
    write_enable = true;
    address = a;
    write_data = operand;
    read_data = m.data_mem_unit.read_data;
  }

  store_stage :
      (o : Option Cells) (w : TraceWriter)
      → store_value store_unit (record (m.mmu) { cell = s.mem }) m.writer
        ≡ (accessed (λ x. x) (Mem.with_cells (record (m.mmu) { cell = s.mem }) o), w)
      → ((c : Cells)
          → o ≡ some c
          → (v : ℕ) × (get_data store_unit (record (m.mmu) { cell = c }) ≡ value v))
      → retired_memory s (do_memory (with_memory storing s.mem m)) ≡ Isa.stored s o
  unfolding retired_memory do_memory tick_data_mem
  store_stage none w h back = rw (retired_memory, h) refl
  store_stage (some c) w h back = rw (retired_memory, h) (rw (retired_memory, (back c refl).1) refl)

-- A store of one or two bytes depends on those bytes of its value.
write_byte_mod :
    (v w p : ℕ) (c : Cells) → v % 256 ≡ w % 256 → write_bytes 1 v p c ≡ write_bytes 1 w p c
unfolding write_bytes
write_byte_mod v w p c low i = elim (c p) [ none ↦ none | some _ ↦ some (update c p (low i)) ]

write_half_mod :
    (v w p : ℕ) (c : Cells)
    → v % 256 ≡ w % 256
    → v / 256 % 256 ≡ w / 256 % 256
    → write_bytes 2 v p c ≡ write_bytes 2 w p c
unfolding write_bytes
write_half_mod v w p c low high i = elim (c p) [
  | none ↦ none
  | some _ ↦ elim (update c p (low i) (p + 1)) [
    | none ↦ none
    | some _ ↦ some (update (update c p (low i)) (p + 1) (high i))
  ]
]

module _ (raw : ℕ) (word : raw < 2 ^ 32) (s : State) (valid : Isa.IsValid s)
    (m : PipelineModel) where
  -- A store reaches the memory stage with its mode, its address and the register's value.
  store_alone :
      (i : Rv32i) (e : Encodes i raw)
      → is_store i ≡ true
      → clocked_on (executed_alone (clocked (decoded i raw s m)))
        ≡ with_memory
            (storing s m
              (raw / 2 ^ 12 % 8)
              (s.x (Isa.rs2 raw))
              ((s.x (Isa.rs1 raw) + Isa.imm_s raw) % 2 ^ 32)
              (Isa.rd raw))
            s.mem
            (executed_alone (clocked (decoded i raw s m)))
  unfolding executed_alone drive filled load_control_signals executed displacement immediate alu
  store_alone sb e l =
      rw
        (
          imm_lem raw word sb e,
          (fields_lem raw word).1,
          (fields_lem raw word).2,
          operand_a_lem raw word s valid sb e m,
        )
        refl
  store_alone sh e l =
      rw
        (
          imm_lem raw word sh e,
          (fields_lem raw word).1,
          (fields_lem raw word).2,
          operand_a_lem raw word s valid sh e m,
        )
        refl
  store_alone sw e l =
      rw
        (
          imm_lem raw word sw e,
          (fields_lem raw word).1,
          (fields_lem raw word).2,
          operand_a_lem raw word s valid sw e m,
        )
        refl
  store_alone _ e l = absurd (ground arith)

  abbrev target_address : ℕ
  target_address = (s.x (Isa.rs1 raw) + Isa.imm_s raw) % 2 ^ 32

  abbrev stored_cells : (n : ℕ) → Option Cells
  stored_cells n = write_bytes n (s.x (Isa.rs2 raw)) target_address s.mem

  store_lem :
      (i : Rv32i) (o : Option Cells) (w : TraceWriter)
      → Encodes i raw
      → is_store i ≡ true
      → store_value
          (store_unit s m (raw / 2 ^ 12 % 8) (s.x (Isa.rs2 raw)) target_address (Isa.rd raw))
          (record (m.mmu) { cell = s.mem })
          m.writer
        ≡ (accessed (λ x. x) (Mem.with_cells (record (m.mmu) { cell = s.mem }) o), w)
      → ((c : Cells)
          → o ≡ some c
          → (v : ℕ) × (get_data
                (store_unit s m (raw / 2 ^ 12 % 8) (s.x (Isa.rs2 raw)) target_address (Isa.rd raw))
                (record (m.mmu) { cell = c })
              ≡ value v))
      → alone raw s m i ≡ Isa.stored s o
  unfolding executed_alone drive
  store_lem i o w e l h back =
      ap (λ t. retired_memory s (do_memory t)) (store_alone i e l)
      ∙ store_stage s (executed_alone (clocked (decoded i raw s m))) (raw / 2 ^ 12 % 8)
          (s.x (Isa.rs2 raw)) target_address (Isa.rd raw) o w h back

  -- What was stored can be loaded.
  readable :
      (n : ℕ) (f : ℕ → ℕ) (c : Cells)
      → stored_cells n ≡ some c
      → (v : ℕ) × (accessed f (read_bytes n c target_address) ≡ value v)
  readable n f c h = (
    f (s.x (Isa.rs2 raw) % 256 ^ n),
    ap (accessed f) (read-write_bytes n (s.x (Isa.rs2 raw)) target_address s.mem c h),
  )

  pub store-Refines :
      (i : Rv32i) → Encodes i raw → is_store i ≡ true → alone raw s m i ≡ apply i raw s
  unfolding apply store_value get_data Mem.set_word Mem.set_half Mem.set_byte Mem.get_word
      Mem.get_half Mem.get_byte
  store-Refines sw e l =
      store_lem sw (stored_cells 4)
        (trace_set_memory m.mmu.readable_traces "setw " 2 target_address (s.x (Isa.rs2 raw))
          m.writer)
        e l (rw e.funct3_field refl) (λ c h. rw e.funct3_field (readable 4 (λ v. v) c h))
  store-Refines sh e l =
      store_lem sh (stored_cells 2)
        (trace_set_memory m.mmu.readable_traces "seth " 1 target_address (u16 (s.x (Isa.rs2 raw)))
          m.writer)
        e l
        (rw
          (
            e.funct3_field,
            write_half_mod (u16 (s.x (Isa.rs2 raw))) (s.x (Isa.rs2 raw)) target_address s.mem
                (omega arith) (omega arith),
          )
          refl)
        (λ c h. rw e.funct3_field (readable 2 sign_extend_from_byte2 c h))
  store-Refines sb e l =
      store_lem sb (stored_cells 1)
        (trace_set_memory m.mmu.readable_traces "setb " 0 target_address (u8 (s.x (Isa.rs2 raw)))
          m.writer)
        e l
        (rw
          (
            e.funct3_field,
            write_byte_mod (u8 (s.x (Isa.rs2 raw))) (s.x (Isa.rs2 raw)) target_address s.mem
                (omega arith),
          )
          refl)
        (λ c h. rw e.funct3_field (readable 1 sign_extend_from_byte c h))
  store-Refines _ e l = absurd (ground arith)

  memory_lem : (i : Rv32i) → Encodes i raw → uses_memory i ≡ true → alone raw s m i ≡ apply i raw s
  memory_lem i e h = elim (Bool-cases (is_load i)) [
    | inl l ↦ load-Refines raw word s valid m i e l
    | inr l ↦ store-Refines i e (ground arith)
  ]

  -- For a word that the manual encodes as a load or a store, decoded in a valid state with its
  -- operands read and no jump under way: DoDecode, DoExecute and DoMemory leave the memory and the
  -- write-back that the manual says, signs extended, or fault where the address is not mapped.
  pub memory-Refines :
      (i : Rv32i) → Encodes i raw → uses_memory i ≡ true → alone raw s m i ≡ exec i raw s
  memory-Refines i e h = memory_lem i e h ∙ sym (exec-access i raw s (ground arith))
