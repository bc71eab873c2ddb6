-- ===== src/Pipeline/Sound/Memory.antt =====
-- DoMemory of models/pipeline/pipeline.cpp keeps the pipeline sound.
use risc_v_co_simulator.Base.{ℕ, ◌^◌, ◌<◌, Bool, true, false, ◌||◌, if◌then◌else◌}
use risc_v_co_simulator.Runtime.{Outcome, done, stop}
use risc_v_co_simulator.Runtime.Safe.{IsGood, bind-IsSafe}
use risc_v_co_simulator.Trace.{TraceWriter}
use risc_v_co_simulator.Memory.{Mmu}
use risc_v_co_simulator.Pipeline.Modules.Gates.{multiplexer2}
use risc_v_co_simulator.Pipeline.Modules.Storage.{
  DataMemUnit, Access, value, failure, get_data, tick_data_mem,
}
use risc_v_co_simulator.Pipeline.Model.{PipelineModel}
use risc_v_co_simulator.Pipeline.Tick.{data_mem_tick, access_data, pass_write_back, do_memory}
use risc_v_co_simulator.Pipeline.Sound.{IsMmuSound, IsSound, IsCycleStop, KeepsSound}
use risc_v_co_simulator.Pipeline.Sound.Storage.{IsGoodAccess, get_data-lt, tick_data_mem-IsMmuSound}

pub with_memory :
    (m : PipelineModel) (mmu : Mmu) → IsMmuSound mmu → IsSound m → IsSound (record m { mmu = mmu })
with_memory m mmu h ok = record {
  memory = h;
  registers = ok.registers;
  pc_word = ok.pc_word;
  decode_word = ok.decode_word;
  execute_sound = ok.execute_sound;
  memory_sound = ok.memory_sound;
  write_back_sound = ok.write_back_sound;
  bypass_word = ok.bypass_word;
  halted_word = ok.halted_word;
}

-- The data memory unit's tick, and the memory that it leaves.
data_mem_tick-KeepsSound : KeepsSound data_mem_tick
data_mem_tick-KeepsSound = record {
  safe = λ m ok.
      go m ok (tick_data_mem m.data_mem_unit m.mmu m.writer)
        (tick_data_mem-IsMmuSound m.data_mem_unit m.mmu ok.memory m.writer);
}
  where
    go :
        (m : PipelineModel)
        → IsSound m
        → (x : Access (DataMemUnit × Mmu) × TraceWriter)
        → IsGoodAccess (λ p. IsMmuSound (p.1)) (x.0)
        → IsGood IsSound IsCycleStop (elim (x.0) as (λ _. Outcome PipelineModel (Unit {0})) [
          | value (d, mmu) ↦ done tt (record m { data_mem_unit = d; mmu = mmu; writer = x.1 })
          | failure e ↦ stop e (record m { writer = x.1 })
        ])
    go m ok (value (d, mmu), w) h = with_memory m mmu h ok
    go m ok (failure e, w) h = (ok, h)

access_data-KeepsSound : KeepsSound access_data
access_data-KeepsSound = record {
  safe = λ m ok. go m ok (m.memory_register.current.mem_to_reg || m.memory_register.current.mem_we);
}
  where
    go :
        (m : PipelineModel)
        → IsSound m
        → (b : Bool)
        → IsGood IsSound IsCycleStop (
            if b
            then data_mem_tick (record m {
              data_mem_unit = record (m.data_mem_unit) {
                store_mode = m.memory_register.current.store_mode;
                write_enable = m.memory_register.current.mem_we;
                address = m.memory_register.current.alu_res;
                write_data = m.memory_register.current.write_data;
              };
            })
            else done tt m)
    go m ok true = data_mem_tick-KeepsSound.safe _ ok
    go m ok false = ok

-- The value for the write-back: the result, or what was loaded.
pass_write_back-KeepsSound : KeepsSound pass_write_back
pass_write_back-KeepsSound = record {
  safe = λ m ok.
      go m ok (get_data m.data_mem_unit m.mmu)
        (get_data-lt m.data_mem_unit m.mmu ok.memory.cell_byte);
}
  where
    chosen : (b : Bool) (x y : ℕ) → x < 2 ^ 32 → y < 2 ^ 32 → multiplexer2 b x y < 2 ^ 32
    chosen true x y p q = q
    chosen false x y p q = p

    go :
        (m : PipelineModel)
        → IsSound m
        → (x : Access ℕ) → IsGoodAccess (λ v. v < 2 ^ 32) x
        → IsGood IsSound IsCycleStop (elim x as (λ _. Outcome PipelineModel (Unit {0})) [
          | failure e ↦ stop e m
          | value v ↦ done tt (record m {
            write_back_register = record (m.write_back_register) {
              next = record {
                wb_we = m.memory_register.current.wb_we;
                wb_d =
                    multiplexer2 m.memory_register.current.mem_to_reg
                      m.memory_register.current.alu_res v;
                wb_a = m.memory_register.current.wb_a;
              };
            };
            bp_mem = m.memory_register.current.alu_res;
          })
        ])
    go m ok (failure e) h = (ok, h)
    go m ok (value v) h =
        let r = m.memory_register.current in
        let sound = ok.memory_sound.1 in
        record {
          memory = ok.memory;
          registers = ok.registers;
          pc_word = ok.pc_word;
          decode_word = ok.decode_word;
          execute_sound = ok.execute_sound;
          memory_sound = ok.memory_sound;
          write_back_sound = (
            record {
              value_word = chosen r.mem_to_reg r.alu_res v sound.result_word h;
              register_index = sound.register_index;
            },
            ok.write_back_sound.1,
          );
          bypass_word = sound.result_word;
          halted_word = ok.halted_word;
        }

pub do_memory-KeepsSound : KeepsSound do_memory
unfolding do_memory
do_memory-KeepsSound =
    bind-IsSafe IsSound IsCycleStop access_data (λ _. pass_write_back) access_data-KeepsSound
      (λ _. pass_write_back-KeepsSound)
