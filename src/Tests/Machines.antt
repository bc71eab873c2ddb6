-- ===== src/Tests/Machines.antt =====
-- Both models with a small program in memory, ready to run.
use risc_v_co_simulator.Base.{
  ℕ, zero, suc, ◌-◌, ◌*◌, ◌/◌, ◌%◌, ◌^◌, true, false, List, [], ◌∷◌, none, some, leb, ltb, ◌&&◌,
  if◌then◌else◌, of_int32, shr_ℤ, to_int32,
}
use risc_v_co_simulator.Runtime.{Build, done, stop, Stop}
use risc_v_co_simulator.Trace.{TraceWriter}
use risc_v_co_simulator.Memory.{Mmu, Cells}
use risc_v_co_simulator.Functional.Model.{FunctionalModel}
use risc_v_co_simulator.Functional.Handlers as Interpreter
use risc_v_co_simulator.Pipeline.Modules.Alu.{AluControl, CmpControl}
use risc_v_co_simulator.Pipeline.Instruction.{InstructionType}
use risc_v_co_simulator.Pipeline.Stages.{
  decode_zero, execute_zero, memory_zero, write_back_zero, reg,
}
use risc_v_co_simulator.Pipeline.Model.{PipelineModel, unused}
use risc_v_co_simulator.Pipeline.Tick as Cycle

-- A machine whose shifts mask their counts.
abbrev pub x86 : Build
x86 = record {
  debug = false;
  wide_shl = λ x n. x * 2 ^ (n % 32);
  wide_shr = λ x n. x / 2 ^ (n % 32);
  wide_sar = λ x n. of_int32 (shr_ℤ (to_int32 x) (n % 32));
}

abbrev pub word_at : List ℕ → ℕ → ℕ
word_at [] i = 0
word_at (w ∷ ws) zero = w
word_at (w ∷ ws) (suc i) = word_at ws i

-- The words of a program from address 4096 on, and zeros up to address 8192.
abbrev pub loaded : List ℕ → Cells
loaded words p =
    if leb 4096 p && ltb p 8192
    then some (word_at words ((p - 4096) / 4) / 256 ^ (p % 4) % 256)
    else none

abbrev pub silent : TraceWriter
silent = record {
  must_trace = false;
  mmu_stream = none;
  reg_file_stream = none;
  decoder_stream = none;
}

abbrev pub memory_with : List ℕ → Mmu
memory_with words = record { cell = loaded words; allocated_chunks = []; readable_traces = false }

abbrev pub interpreter : List ℕ → FunctionalModel
interpreter words = record {
  ticks_counter = 0;
  mmu = memory_with words;
  registers = record { regs = λ _. 0; readable_traces = false };
  pc = 4096;
  readable_traces = false;
  writer = silent;
}

abbrev pub pipeline : List ℕ → PipelineModel
pipeline words = record {
  trace_prev_pc = 0;
  readable_traces = false;
  ticks_counter = 0;
  bp_mem = 0;
  pc_disp = 0;
  pc_r = false;
  must_take_halted_wb = unused;
  halted_wb = 0;
  hu_rs1 = reg;
  hu_rs2 = reg;
  mmu = memory_with words;
  instr_address = 0;
  data_mem_unit = record {
    store_mode = 0;
    write_enable = false;
    address = 0;
    write_data = 0;
    read_data = 0;
  };
  reg_file = record {
    address1 = 0;
    address2 = 0;
    address3 = 0;
    write_enable3 = false;
    write_data3 = 0;
    regs = λ _. 0;
    read_data1 = 0;
    read_data2 = 0;
    readable_traces = false;
  };
  control_unit = record {
    opcode = 0;
    funct3 = 0;
    funct7 = 0;
    rs2 = 0;
    is_jalr = false;
    wb_we = false;
    mem_we = false;
    mem_to_reg = false;
    brn_cond = false;
    jmp_cond = false;
    cmp_control = CmpControl.nop;
    alu_src2 = false;
    alu_op = AluControl.nop;
    instr_type = InstructionType.unknown;
  };
  program_counter = record { enable_flag = true; next = 4096; current = 4096 };
  decode_register = record { enable_flag = true; next = decode_zero; current = decode_zero };
  execute_register = record { enable_flag = true; next = execute_zero; current = execute_zero };
  memory_register = record { enable_flag = true; next = memory_zero; current = memory_zero };
  write_back_register = record {
    enable_flag = true;
    next = write_back_zero;
    current = write_back_zero;
  };
  writer = silent;
}

-- How a run of each model ends, and what is then in a register.
unfoldable pub interpreted_reg : List ℕ → (fuel i : ℕ) → Stop × ℕ
unfolding Interpreter.run
interpreted_reg words fuel i = elim (Interpreter.run x86 fuel (interpreter words)) [
  | done _ m ↦ (Stop.terminated, m.registers.regs i)
  | stop e m ↦ (e, m.registers.regs i)
]

unfoldable pub pipelined_reg : List ℕ → (fuel i : ℕ) → Stop × ℕ
unfolding Cycle.run Cycle.tick
pipelined_reg words fuel i = elim (Cycle.run x86 fuel (pipeline words)) [
  | done _ m ↦ (Stop.terminated, m.reg_file.regs i)
  | stop e m ↦ (e, m.reg_file.regs i)
]

-- addi x1, x0, 5; addi x2, x0, 7; add x3, x1, x2; ecall
abbrev pub sum_program : List ℕ
sum_program = 0x00500093 ∷ 0x00700113 ∷ 0x002081b3 ∷ 0x00000073 ∷ []

-- The word 21 at 64(x4) is loaded, doubled by the instruction that follows, and then comes LUI.
abbrev pub load_use_program : List ℕ
load_use_program =
    0x00001237 ∷ 0x00000013 ∷ 0x00000013 ∷ 0x00000013 ∷ 0x04022083 ∷ 0x001081b3 ∷ 0x000012b7
    ∷ 0x00000013 ∷ 0x00000013 ∷ 0x00000073 ∷ 0 ∷ 0 ∷ 0 ∷ 0 ∷ 0 ∷ 0 ∷ 21 ∷ []

-- The same with ADDI in the place of LUI.
abbrev pub load_use_addi : List ℕ
load_use_addi =
    0x00001237 ∷ 0x00000013 ∷ 0x00000013 ∷ 0x00000013 ∷ 0x04022083 ∷ 0x001081b3 ∷ 0x00000013
    ∷ 0x00000013 ∷ 0x00000013 ∷ 0x00000073 ∷ 0 ∷ 0 ∷ 0 ∷ 0 ∷ 0 ∷ 0 ∷ 21 ∷ []

-- A jump over an ECALL to addi x3, x0, 9, with an ECALL at the end.
abbrev pub jump_program : List ℕ
jump_program = 0x00c0006f ∷ 0x00000073 ∷ 0x00000013 ∷ 0x00900193 ∷ 0x00000013 ∷ 0x00000073 ∷ []

-- A JALR to the address that the LH before it loads, from an address that is not one of a word.
abbrev pub loaded_jump : List ℕ
loaded_jump =
    0x000010b7 ∷ 0x00000013 ∷ 0x00000013 ∷ 0x02a09103 ∷ 0x00010067 ∷ 0x00000013 ∷ 0x00900193
    ∷ 0x00000013 ∷ 0x00000013 ∷ 0x00000073 ∷ 0x10180000 ∷ []
