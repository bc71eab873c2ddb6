-- ===== src/Pipeline/Flow/Older.antt =====
-- A cycle of models/pipeline/pipeline.cpp with older instructions in flight: what it leaves of the
-- instruction in the execute stage.
use mathlib.Core.Path.{subst}
use risc_v_co_simulator.Base.{
  false, true, refl, ==_refl, if◌then◌else◌, Bool, ◌||◌, ◌==◌, ℕ, ◌+◌, ◌%◌, ◌^◌, ◌<◌, ◌≡◌, sym, ap,
  ◌∙◌,
}
use risc_v_co_simulator.Runtime.{Build, done}
use risc_v_co_simulator.Isa
use risc_v_co_simulator.Isa.{State, Effect, apply}
use risc_v_co_simulator.Functional.Instruction.{Rv32i}
use risc_v_co_simulator.Pipeline.Model.{PipelineModel}
use risc_v_co_simulator.Pipeline.Stages.{ExecuteState}
use risc_v_co_simulator.Pipeline.Modules.Storage.{value, get_data, DataMemUnit}
use risc_v_co_simulator.Memory.{Mmu, Cells}
use risc_v_co_simulator.Pipeline.Control.{load_control_signals}
use risc_v_co_simulator.Pipeline.Execute.{drive}
use risc_v_co_simulator.Pipeline.Tick.{next_pc, do_memory, tick, filled}
use risc_v_co_simulator.Pipeline.Datapath.{decoded, operand_a_lem}
use risc_v_co_simulator.Pipeline.Sound.{IsSound}
use risc_v_co_simulator.Pipeline.Flow.{commit, settle, completed, following}
use risc_v_co_simulator.Pipeline.Flow.Edge.{IsFlowing}
use risc_v_co_simulator.Pipeline.Flow.Steps.{MemoryDone, do_memory-done, passed}
use risc_v_co_simulator.Pipeline.Flow.Operands.{commit-zero, commit-lt, pending}
use risc_v_co_simulator.Pipeline.Sound.Memory.{do_memory-KeepsSound}
use risc_v_co_simulator.Pipeline.Flow.Cycle.{
  StagesDone, tick-StagesDone, CycleDone, stages-CycleDone, still_sound,
}
use risc_v_co_simulator.Pipeline.Flow.Ready.{
  IsReady, read_state, older_done, found_a, found_rs2, source_a_lem, source_rs2_lem, found_a_lem,
  found_rs2_lem, needs_a, needs_rs2,
}
use risc_v_co_simulator.Pipeline.Flow.Wires.{wires, drive-target, passed_on, second}

abbrev pub state_at : ℕ → (ℕ → ℕ) → Cells → State
state_at pc x cell = record { pc = pc; x = x; mem = cell }

-- What is known of the instruction in the execute stage once a cycle has come to its end: the state
-- that the older instructions leave, its operands, and the state of the model after the cycle.
pub record Passed (i : Rv32i) (raw pc : ℕ) (m m' : PipelineModel) : Type 0 where
  pub x : ℕ → ℕ
  pub cell : Cells
  pub older_valid : Isa.IsValid (state_at pc x cell)
  pub a : ℕ
  pub v : ℕ
  pub shown : ℕ
  pub older_is : completed pc m ≡ Effect.next (state_at pc x cell)
  pub memory : m'.mmu.cell ≡ cell
  pub moved :
      m'.memory_register.current ≡ passed_on (filled (decoded i raw (read_state pc m) m)) a v
  pub a_is : needs_a i ≡ true → a ≡ (filled (decoded i raw (state_at pc x cell) m')).data1
  pub v_is : needs_rs2 i ≡ true → v ≡ (filled (decoded i raw (state_at pc x cell) m')).data2
  pub lands : following m' == (pc + 4) % 2 ^ 32 || following m' % 4 == 0 ≡ true
  pub follows_wires :
      following m' ≡ (wires (filled (decoded i raw (read_state pc m) m)) a v ((pc + 4) % 2 ^ 32)).3
  pub settled : completed (following m') m' ≡ settle (following m') x (do_memory m')
  pub shows : get_data m'.data_mem_unit m'.mmu ≡ value shown

module _ (b : Build) (i : Rv32i) (raw pc : ℕ) (m m' : PipelineModel) (ready : IsReady i raw pc m)
    (ok : IsSound m) (flows : IsFlowing m) (stages : StagesDone b m m') where
  abbrev m1 : PipelineModel
  m1 = stages.after_memory

  from : MemoryDone m m1
  from = do_memory-done m m1 stages.memory_done

  abbrev s : State
  s = older_done i raw pc m m1 ready from

  abbrev a : ℕ
  a = found_a i raw pc m m1 ready from

  abbrev v : ℕ
  v = found_rs2 i raw pc m m1 ready from

  cycle : CycleDone m m1 m' a v
  cycle =
      stages-CycleDone b m m' ok flows stages a v (source_a_lem i raw pc m m1 ready from)
        (source_rs2_lem i raw pc m m1 ready from)

  pc_word : pc < 2 ^ 32
  unfolding filled load_control_signals
  pc_word =
      subst (λ (t : ℕ). t < 2 ^ 32) (ap (λ (x : ExecuteState). x.pc_de) ready.issued)
        ok.execute_sound.1.pc_word

  ok1 : IsSound (passed from.unit from.mmu from.writer from.shown m)
  ok1 =
      subst IsSound from.left
        (still_sound do_memory m m1 do_memory-KeepsSound ok stages.memory_done)

  older_done-IsValid : Isa.IsValid s
  older_done-IsValid =
      let w = m.write_back_register.current in
      record {
        pc_word = pc_word;
        zero_reg =
            commit-zero (commit m.reg_file.regs w) (pending m.memory_register.current from.shown)
              (commit-zero m.reg_file.regs w ok.registers.zero_reg);
        reg_word =
            commit-lt (commit m.reg_file.regs w) (pending m.memory_register.current from.shown)
              (commit-lt m.reg_file.regs w ok.registers.reg_word ok.write_back_sound.1.value_word)
              ok1.write_back_sound.0.value_word;
        cell_byte = ok1.memory.cell_byte;
      }

  -- The registers after the cycle are those of the older instructions.
  registers : commit m'.reg_file.regs m'.write_back_register.current ≡ s.x
  registers =
      ap (λ (x : ℕ → ℕ). commit x m'.write_back_register.current) cycle.regs_are
      ∙ ap (commit (commit m.reg_file.regs m.write_back_register.current)) (
          cycle.write_back_moved ∙ ap (λ (t : PipelineModel). t.write_back_register.next) from.left)

  memory : m'.mmu ≡ from.mmu
  memory = cycle.mmu_kept ∙ ap (λ (t : PipelineModel). t.mmu) from.left

  unit : m'.data_mem_unit ≡ from.unit
  unit = cycle.unit_kept ∙ ap (λ (t : PipelineModel). t.data_mem_unit) from.left

  -- The memory register, in the words of the instruction.
  issue_is : m1.execute_register.current ≡ filled (decoded i raw (read_state pc m) m)
  issue_is = ap (λ (t : PipelineModel). t.execute_register.current) from.left ∙ ready.issued

  moved : m'.memory_register.current ≡ passed_on (filled (decoded i raw (read_state pc m) m)) a v
  unfolding drive passed_on second
  moved = cycle.memory_moved ∙ ap (λ (x : ExecuteState). passed_on x a v) issue_is

  -- The operands are those of the state that the older instructions leave.
  a_is : needs_a i ≡ true → a ≡ (filled (decoded i raw s m')).data1
  unfolding filled load_control_signals
  a_is needed =
      found_a_lem i raw pc m m1 ready from ok pc_word needed
      ∙ sym (operand_a_lem raw ready.word s older_done-IsValid i ready.encodes m')

  v_is : needs_rs2 i ≡ true → v ≡ (filled (decoded i raw s m')).data2
  unfolding filled load_control_signals
  v_is needed = found_rs2_lem i raw pc m m1 ready from ok needed

  -- What follows, on the wires of the instruction.
  follows_wires :
      following m' ≡ (wires (filled (decoded i raw (read_state pc m) m)) a v ((pc + 4) % 2 ^ 32)).3
  follows_wires =
      cycle.follows
      ∙ (drive-target a v m.decode_register.current.pc_de m1
          ∙ (ap (λ (x : ExecuteState). (wires x a v m.decode_register.current.pc_de).3) issue_is
              ∙ ap (λ (p : ℕ). (wires (filled (decoded i raw (read_state pc m) m)) a v p).3)
                  ready.behind))

  -- The cycle goes on behind the instruction, or at an aligned address.
  lands : following m' == (pc + 4) % 2 ^ 32 || following m' % 4 == 0 ≡ true
  lands = rw cycle.follows (go (drive a v m1).pc_r)
    where
      or_true : (c : Bool) → c || true ≡ true
      or_true true = refl
      or_true false = refl

      go :
          (j : Bool)
          → (if j then next_pc (drive a v m1) else m.decode_register.current.pc_de)
                == (pc + 4) % 2 ^ 32
              || (if j then next_pc (drive a v m1) else m.decode_register.current.pc_de) % 4 == 0
            ≡ true
      go true = rw cycle.aligned (or_true _)
      go false = rw (ready.behind, ==_refl ((pc + 4) % 2 ^ 32)) refl

  settled : completed (following m') m' ≡ settle (following m') s.x (do_memory m')
  unfolding completed
  settled = ap (λ (x : ℕ → ℕ). settle (following m') x (do_memory m')) registers

  shows : get_data m'.data_mem_unit m'.mmu ≡ value from.shown
  shows =
      ap (λ (d : DataMemUnit). get_data d m'.mmu) unit
      ∙ (ap (λ (t : Mmu). get_data from.unit t) memory ∙ from.data_is)

  -- The state that the older instructions leave is the one that they are finished in.
  older_is : completed pc m ≡ Effect.next s
  unfolding completed
  older_is =
      ap (settle pc (commit m.reg_file.regs m.write_back_register.current)) stages.memory_done
      ∙ ap
          (λ (t : PipelineModel).
            settle pc (commit m.reg_file.regs m.write_back_register.current) (done tt t))
          from.left

  cycle-Passed : Passed i raw pc m m'
  cycle-Passed = record {
    x = s.x;
    cell = s.mem;
    older_valid = older_done-IsValid;
    a = a;
    v = v;
    shown = from.shown;
    older_is = older_is;
    memory = ap (λ (t : Mmu). t.cell) memory;
    moved = moved;
    a_is = a_is;
    v_is = v_is;
    lands = lands;
    follows_wires = follows_wires;
    settled = settled;
    shows = shows;
  }

pub tick-Passed :
    (b : Build) (i : Rv32i) (raw pc : ℕ) (m m' : PipelineModel)
    → IsSound m
    → IsFlowing m
    → IsReady i raw pc m
    → tick b m ≡ done tt m'
    → Passed i raw pc m m'
tick-Passed b i raw pc m m' ok flows ready e =
    cycle-Passed b i raw pc m m' ready ok flows (tick-StagesDone b m m' e)
