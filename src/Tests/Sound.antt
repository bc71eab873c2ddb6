-- ===== src/Tests/Sound.antt =====
-- A pipeline that is sound, in a run and in RunProgram.
use risc_v_co_simulator.Base.{ℕ, ◌≡◌, refl, arith, true, List, [], ◌∷◌, some}
use risc_v_co_simulator.Runtime.Safe.{IsGood}
use risc_v_co_simulator.Memory.{Mmu}
use risc_v_co_simulator.Memory.Chunks.{covered}
use risc_v_co_simulator.Host.{mapped}
use risc_v_co_simulator.Pipeline.Model.{PipelineModel}
use risc_v_co_simulator.Pipeline.Tick.{run}
use risc_v_co_simulator.Pipeline.Program.{run_program}
use risc_v_co_simulator.Pipeline.Stages.{execute_zero, memory_zero, write_back_zero}
use risc_v_co_simulator.Pipeline.Sound.{
  IsMmuSound, IsExecuteSound, IsMemorySound, IsWriteBackSound, IsSound,
}
use risc_v_co_simulator.Pipeline.Sound.Cycle.{IsRunStop, run-IsSound}
use risc_v_co_simulator.Pipeline.Ends.{IsPipelineEnd, run_program-IsPipelineEnd}
use risc_v_co_simulator.Tests.Machines.{x86, pipeline, memory_with, loaded, sum_program}
use risc_v_co_simulator.Tests.Hosts.{host, host-MapsPages, host-Grants, file}
use risc_v_co_simulator.Tests.Loads.{new_memory, ecall_content, ecall-Holds}

-- The memory of a program, in one chunk.
abbrev pub memory_of : List ℕ → Mmu
memory_of words = record (memory_with words) { allocated_chunks = (4096, 4096) ∷ [] }

loaded_inside :
    (words : List ℕ) (q : ℕ) → mapped (loaded words q) ≡ true → covered q ((4096, 4096) ∷ []) ≡ true
unfolding covered
loaded_inside words q live = ground arith

pub memory_of-IsMmuSound : (words : List ℕ) → IsMmuSound (memory_of words)
memory_of-IsMmuSound words = record {
  tracked = record { whole = (refl, refl, omega arith, tt); tracked = loaded_inside words };
  cell_byte = λ q. ground arith;
}

execute_zero-IsExecuteSound : IsExecuteSound execute_zero
execute_zero-IsExecuteSound = record {
  data1_word = omega arith;
  data2_word = omega arith;
  pc_word = omega arith;
}

memory_zero-IsMemorySound : IsMemorySound memory_zero
memory_zero-IsMemorySound = record { result_word = omega arith; register_index = omega arith }

write_back_zero-IsWriteBackSound : IsWriteBackSound write_back_zero
write_back_zero-IsWriteBackSound = record { value_word = omega arith; register_index = omega arith }

abbrev pub machine : Mmu → PipelineModel
machine mmu = record (pipeline []) { mmu = mmu }

pub machine-IsSound : (mmu : Mmu) → IsMmuSound mmu → IsSound (machine mmu)
machine-IsSound mmu memory = record {
  memory = memory;
  registers = record {
    zero_reg = refl;
    reg_word = λ i. omega arith;
    data1_word = omega arith;
    data2_word = omega arith;
  };
  pc_word = (omega arith, omega arith);
  decode_word = (omega arith, omega arith);
  execute_sound = (execute_zero-IsExecuteSound, execute_zero-IsExecuteSound);
  memory_sound = (memory_zero-IsMemorySound, memory_zero-IsMemorySound);
  write_back_sound = (write_back_zero-IsWriteBackSound, write_back_zero-IsWriteBackSound);
  bypass_word = omega arith;
  halted_word = omega arith;
}

run-IsSound_example : IsGood IsSound IsRunStop (run x86 20 (machine (memory_of sum_program)))
run-IsSound_example =
    run-IsSound x86 20 (machine (memory_of sum_program))
      (machine-IsSound (memory_of sum_program) (memory_of-IsMmuSound sum_program))

new_memory-IsMmuSound : IsMmuSound new_memory
new_memory-IsMmuSound = record {
  tracked = record { whole = tt; tracked = λ q live. absurd (ground arith) };
  cell_byte = λ q. omega arith;
}

run_program-IsPipelineEnd_example :
    IsPipelineEnd (run_program x86 host 20 (some (file ecall_content 120)) (machine new_memory))
run_program-IsPipelineEnd_example =
    run_program-IsPipelineEnd host host-MapsPages host-Grants x86 20 (file ecall_content 120)
      ecall_content 120 (machine new_memory) ecall-Holds
      (machine-IsSound new_memory new_memory-IsMmuSound)
