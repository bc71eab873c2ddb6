-- ===== src/Pipeline/Sound/Fetch.antt =====
-- DoFetch, the clock and the hazard unit of models/pipeline/pipeline.cpp keep the pipeline sound.
use risc_v_co_simulator.Base.{
  ℕ, ◌%◌, ◌^◌, ◌<◌, arith, Bool, true, false, not, ◌&&◌, ◌||◌, ◌==◌, Option, none, some,
  if◌then◌else◌, Bool-cases, inl, inr,
}
use risc_v_co_simulator.Runtime.{
  Stop, killed, terminated, alignment, Build, Outcome, done, stop, modify, throw_if,
}
use risc_v_co_simulator.Runtime.Safe.{IsGood, throw_if-IsSafe}
use risc_v_co_simulator.Memory as Memory
use risc_v_co_simulator.Pipeline.Modules.Storage.{clear}
use risc_v_co_simulator.Pipeline.Instruction.{get_rs1, get_rs2, has_rs1, has_rs2}
use risc_v_co_simulator.Pipeline.Stages.{DecodeState, execute_zero, memory_zero}
use risc_v_co_simulator.Pipeline.Model.{PipelineModel}
use risc_v_co_simulator.Pipeline.Tick.{do_fetch, fetch_instr, next_pc, clock}
use risc_v_co_simulator.Pipeline.Tick.Hazard.{
  hazard_unit_tick, halt_pipeline, restart_pipeline, load_conflict, set_enable_flags,
}
use risc_v_co_simulator.Pipeline.Sound.{
  Both, IsExecuteSound, IsMemorySound, IsWriteBackSound, IsSound, IsCycleStop, KeepsSound,
  tick-Both,
}
use risc_v_co_simulator.Pipeline.Sound.Registers.{then_sound, modify-KeepsSound}

next_pc-lt : (m : PipelineModel) → next_pc m < 2 ^ 32
unfolding next_pc
next_pc-lt m = omega arith

fetch_instr-KeepsSound : KeepsSound fetch_instr
fetch_instr-KeepsSound = record { safe = λ m ok. go m ok (Memory.get_word m.mmu m.instr_address) }
  where
    go :
        (m : PipelineModel)
        → IsSound m
        → (o : Option ℕ)
        → IsGood IsSound IsCycleStop (elim o as (λ _. Outcome PipelineModel (Unit {0})) [
          | none ↦ stop killed m
          | some instr ↦ done tt (record m {
            decode_register = record (m.decode_register) {
              next = record (m.decode_register.next) {
                instr = instr;
                pc_de = m.program_counter.current;
              };
            };
          })
        ])
    go m ok none = (ok, tt)
    go m ok (some instr) = record {
      memory = ok.memory;
      registers = ok.registers;
      pc_word = ok.pc_word;
      decode_word = (ok.pc_word.1, ok.decode_word.1);
      execute_sound = ok.execute_sound;
      memory_sound = ok.memory_sound;
      write_back_sound = ok.write_back_sound;
      bypass_word = ok.bypass_word;
      halted_word = ok.halted_word;
    }

abbrev set_next : PipelineModel → PipelineModel
set_next m = record m { program_counter = record (m.program_counter) { next = next_pc m } }

set_next-IsSound : (m : PipelineModel) → IsSound m → IsSound (set_next m)
set_next-IsSound m ok = record {
  memory = ok.memory;
  registers = ok.registers;
  pc_word = (next_pc-lt m, ok.pc_word.1);
  decode_word = ok.decode_word;
  execute_sound = ok.execute_sound;
  memory_sound = ok.memory_sound;
  write_back_sound = ok.write_back_sound;
  bypass_word = ok.bypass_word;
  halted_word = ok.halted_word;
}

pub do_fetch-KeepsSound : (b : Build) → KeepsSound (do_fetch b)
unfolding do_fetch
do_fetch-KeepsSound b = record {
  safe = λ m ok.
      let x = m.execute_register.current in
      let throws = λ (c : Bool) (e : Stop) (known : IsCycleStop e).
        throw_if-IsSafe IsSound IsCycleStop c e (λ _. known) in
      (then_sound (throw_if (b.debug && (x.is_jalr && not m.pc_r)) terminated) _
          (throws _ terminated tt)
          (λ _. then_sound (modify set_next) _ (modify-KeepsSound set_next set_next-IsSound) (λ _.
            then_sound (throw_if (not (next_pc m % 4 == 0)) alignment) (λ _. fetch_instr)
              (throws _ alignment tt) (λ _. fetch_instr-KeepsSound)))).safe
        (record m { instr_address = m.program_counter.current }) ok;
}

pub clock-IsSound : (m : PipelineModel) → IsSound m → IsSound (clock m)
unfolding clock
clock-IsSound m ok = record {
  memory = ok.memory;
  registers = ok.registers;
  pc_word = tick-Both (λ pc. pc < 2 ^ 32) m.program_counter ok.pc_word;
  decode_word = tick-Both (λ (d : DecodeState). d.pc_de < 2 ^ 32) m.decode_register ok.decode_word;
  execute_sound = tick-Both IsExecuteSound m.execute_register ok.execute_sound;
  memory_sound = tick-Both IsMemorySound _ (kept m.program_counter.enable_flag);
  write_back_sound = tick-Both IsWriteBackSound m.write_back_register ok.write_back_sound;
  bypass_word = ok.bypass_word;
  halted_word = ok.halted_word;
}
  where
    zero : IsMemorySound memory_zero
    zero = record { result_word = omega arith; register_index = omega arith }

    kept :
        (b : Bool)
        → Both IsMemorySound (if b then m.memory_register else clear memory_zero m.memory_register)
    kept true = ok.memory_sound
    kept false = (zero, zero)

-- Halting and restarting change no value.
flags-IsSound : (flag : Bool) (m : PipelineModel) → IsSound m → IsSound (set_enable_flags flag m)
flags-IsSound flag m ok = record {
  memory = ok.memory;
  registers = ok.registers;
  pc_word = ok.pc_word;
  decode_word = ok.decode_word;
  execute_sound = ok.execute_sound;
  memory_sound = ok.memory_sound;
  write_back_sound = ok.write_back_sound;
  bypass_word = ok.bypass_word;
  halted_word = ok.halted_word;
}

pub hazard_unit_tick-IsSound : (m : PipelineModel) → IsSound m → IsSound (hazard_unit_tick m)
unfolding hazard_unit_tick halt_pipeline restart_pipeline
hazard_unit_tick-IsSound m ok =
    let t = m.control_unit.instr_type in
    let instr = m.execute_register.current.instr in
    let r = m.memory_register.current in
    elim (Bool-cases (m.execute_register.enable_flag && m.pc_r)) [
      | inl h ↦
          rw (hazard_unit_tick, h)
            (record {
              memory = ok.memory;
              registers = ok.registers;
              pc_word = ok.pc_word;
              decode_word = (omega arith, omega arith);
              execute_sound = (empty, empty);
              memory_sound = ok.memory_sound;
              write_back_sound = ok.write_back_sound;
              bypass_word = ok.bypass_word;
              halted_word = ok.halted_word;
            })
      | inr h ↦
          elim (Bool-cases (
            load_conflict (has_rs1 t) (get_rs1 instr) r
            || load_conflict (has_rs2 t) (get_rs2 instr) r)) [
              | inl k ↦ rw (hazard_unit_tick, h, k) (flags-IsSound false m ok)
              | inr k ↦ rw (hazard_unit_tick, h, k) (flags-IsSound true m ok)
            ]
    ]
  where
    empty : IsExecuteSound execute_zero
    empty = record { data1_word = omega arith; data2_word = omega arith; pc_word = omega arith }
