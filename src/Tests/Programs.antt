-- ===== src/Tests/Programs.antt =====
-- A small executable in RunProgram of both models and in a test of the co-simulator.
use risc_v_co_simulator.Base.{ℕ, ◌≡◌, refl, arith, none, some, [], ◌==◌, if◌then◌else◌}
use risc_v_co_simulator.Runtime.{ecall, final}
use risc_v_co_simulator.Memory as Memory
use risc_v_co_simulator.Memory.{read_bytes, get_byte, align_up, align_down}
use risc_v_co_simulator.Memory.Allocate.{
  allocate_memory, allocate_stack, map_chunk, memset, fill, free_memory, unmap_chunks,
}
use risc_v_co_simulator.Elf.{
  new_loader, read_elf_header, read_program_header_table, ehdr_of, phdrs_of, phdr_of,
  validate_elf_header,
}
use risc_v_co_simulator.Elf.Segment.{
  load_elf32_into_memory, load_segments, load_segment, is_skipped, copy_from_file, clear_rest,
  prot_of,
}
use risc_v_co_simulator.Functional.Freed.{run_program-unmapped}
use risc_v_co_simulator.Elf.Starts.{IsStarted}
use risc_v_co_simulator.Functional.Model.{
  FunctionalModel, load_from_pc, trace_executed, write_reg, get_word,
}
use risc_v_co_simulator.Functional.Decoder.{decode}
use risc_v_co_simulator.Functional.Handlers as Interpreter
use risc_v_co_simulator.Functional.Handlers.{run_from, step, switch_decoder, handle}
use risc_v_co_simulator.Functional.Program.{
  run_program, load_program, started, init_sp, finished, sp_reg,
}
use risc_v_co_simulator.Functional.Ends.{IsProgramEnd, run_program-IsProgramEnd}
use risc_v_co_simulator.Functional.Starts.{run_program-IsStarted}
use risc_v_co_simulator.Pipeline.Model.{PipelineModel}
use risc_v_co_simulator.Pipeline.Tick as Cycle
use risc_v_co_simulator.Pipeline.Program as Pipe
use risc_v_co_simulator.Pipeline.Starts.{run_program-Pipeline}
use risc_v_co_simulator.Tests.Machines.{x86, interpreter, pipeline}
use risc_v_co_simulator.Tests.Valid.{interpreter-IsValid, x86-MasksCounts}
use risc_v_co_simulator.Tests.Hosts.{host, host-MapsPages, host-Grants, file}
use risc_v_co_simulator.Tests.Loads.{new_memory, ecall_content, ecall-Holds, ecall-IsProgram}

run_program-IsProgramEnd_example :
    IsProgramEnd (run_program x86 host 5 (some (file ecall_content 120)) (interpreter []))
run_program-IsProgramEnd_example =
    run_program-IsProgramEnd x86 x86-MasksCounts host host-MapsPages 5 (file ecall_content 120)
      ecall_content 120 (interpreter []) ecall-Holds (interpreter-IsValid [])

run_program-IsStarted_example :
    (m1 : FunctionalModel) × (run_program x86 host 5
        (some (file ecall_content 120))
        (interpreter [])
      ≡ finished host (Interpreter.run x86 5 m1))
    × IsStarted ecall_content m1.pc (m1.registers.regs sp_reg) m1.mmu.cell
    × ((i : ℕ) → m1.registers.regs i ≡ (if sp_reg == i then 4294959103 else 0))
run_program-IsStarted_example =
    run_program-IsStarted x86 host 5 (file ecall_content 120) ecall_content 120 (interpreter [])
      host-MapsPages host-Grants ecall-Holds ecall-IsProgram

run_program-Pipeline_example :
    (m1 : PipelineModel) × (Pipe.run_program x86 host 5
        (some (file ecall_content 120))
        (pipeline [])
      ≡ Pipe.finished host (Cycle.run x86 5 m1))
    × IsStarted ecall_content m1.program_counter.current (m1.reg_file.regs sp_reg) m1.mmu.cell
    × ((i : ℕ) → m1.reg_file.regs i ≡ (if sp_reg == i then 4294959103 else 0))
run_program-Pipeline_example =
    run_program-Pipeline x86 host 5 (file ecall_content 120) ecall_content 120 (pipeline [])
      host-MapsPages host-Grants ecall-Holds ecall-IsProgram refl

-- A new machine, and what RunProgram on the ECALL makes of it.
abbrev machine : FunctionalModel
machine = record (interpreter []) { mmu = new_memory }

machine_after : FunctionalModel
unfolding run_program load_program started finished init_sp Interpreter.run load_from_pc get_word
    Memory.get_word read_bytes run_from step trace_executed switch_decoder decode handle
    load_elf32_into_memory new_loader read_elf_header read_program_header_table ehdr_of phdrs_of
    phdr_of validate_elf_header load_segments load_segment is_skipped copy_from_file clear_rest
    prot_of allocate_memory allocate_stack map_chunk memset fill align_up align_down free_memory
    unmap_chunks write_reg
machine_after = final (run_program x86 host 5 (some (file ecall_content 120)) machine)

run_program-unmapped_example : machine_after.mmu.cell 0x10074 ≡ none
unfolding machine_after run_program load_program started finished init_sp Interpreter.run
    load_from_pc get_word Memory.get_word read_bytes run_from step trace_executed switch_decoder
    decode handle load_elf32_into_memory new_loader read_elf_header read_program_header_table
    ehdr_of phdrs_of phdr_of validate_elf_header load_segments load_segment is_skipped
    copy_from_file clear_rest prot_of allocate_memory allocate_stack map_chunk memset fill align_up
    align_down free_memory unmap_chunks write_reg
run_program-unmapped_example =
    run_program-unmapped x86 host host-MapsPages host-Grants 5 0x10074 machine_after ecall
      (file ecall_content 120) ecall_content 120 machine ecall-Holds
      (record { whole = tt; tracked = λ q live. absurd (ground arith) }) refl refl
