-- ===== src/Pipeline/Tick.antt =====
-- models/pipeline/pipeline/pipeline.cpp: the stages but DoExecute, the hazard unit and the clock.
pub mod Hazard
use risc_v_co_simulator.Base.{
  ℕ, zero, suc, ◌+◌, ◌%◌, Bool, true, false, not, ◌&&◌, ◌||◌, ◌==◌, Option, none, some, ltb,
  if◌then◌else◌,
}
use risc_v_co_simulator.Runtime.{
  ReturnCode, ecall, ebreak, Stop, returned, terminated, killed, out_of_range, ecall_exception,
  ebreak_exception, invalid_instruction, logic_error, alignment, Build, Outcome, done, stop, M,
  ◌>>=◌, ◌>>◌, modify, throw_if,
}
use risc_v_co_simulator.Memory as Memory
use risc_v_co_simulator.Pipeline.Modules.Gates.{add_words, multiplexer2}
use risc_v_co_simulator.Pipeline.Modules.Storage.{
  Register, Access, value, failure, tick as tick_register, clear, set_new_signals, tick_reg_file,
  tick_data_mem, get_data,
}
use risc_v_co_simulator.Pipeline.Instruction.{get_rs1, get_rs2, get_funct3, get_funct7, get_opcode}
use risc_v_co_simulator.Pipeline.Stages.{memory_zero, DecodeState, ExecuteState}
use risc_v_co_simulator.Pipeline.Control as Control
use risc_v_co_simulator.Pipeline.Control.{load_control_signals}
use risc_v_co_simulator.Pipeline.Model.{PipelineModel, P, trace_executed}
use risc_v_co_simulator.Pipeline.Execute.{do_execute}
use Hazard.{hazard_unit_tick}

-- data_mem_unit.Tick()
abbrev pub data_mem_tick : P
data_mem_tick m =
    let ticked = tick_data_mem m.data_mem_unit m.mmu m.writer in
    elim (ticked.0) [
      | value (d, mmu) ↦ done tt (record m { data_mem_unit = d; mmu = mmu; writer = ticked.1 })
      | failure e ↦ stop e (record m { writer = ticked.1 })
    ]

-- A load or store takes its signals from the memory register.
abbrev pub access_data : P
access_data m =
    let r = m.memory_register.current in
    if r.mem_to_reg || r.mem_we
    then data_mem_tick (record m {
      data_mem_unit = record (m.data_mem_unit) {
        store_mode = r.store_mode;
        write_enable = r.mem_we;
        address = r.alu_res;
        write_data = r.write_data;
      };
    })
    else done tt m

-- GetData is called for every instruction: an argument of Multiplexer2 is computed.
abbrev pub pass_write_back : P
pass_write_back m =
    let r = m.memory_register.current in
    elim (get_data m.data_mem_unit m.mmu) [
      | failure e ↦ stop e m
      | value v ↦ done tt (record m {
        write_back_register = record (m.write_back_register) {
          next = record {
            wb_we = r.wb_we;
            wb_d = multiplexer2 r.mem_to_reg r.alu_res v;
            wb_a = r.wb_a;
          };
        };
        bp_mem = r.alu_res;
      })
    ]

unfoldable pub do_memory : P
unfolding tick_data_mem get_data
do_memory = do access_data; pass_write_back

-- reg_file.SetNewSignals(...); reg_file.Tick(), with the write-back register on the write port.
unfoldable pub reg_file_tick : (addr1 addr2 : ℕ) → P
unfolding tick_reg_file
reg_file_tick addr1 addr2 m =
    let w = m.write_back_register.current in
    let ticked =
      tick_reg_file (set_new_signals addr1 addr2 w.wb_a w.wb_we w.wb_d m.reg_file) m.writer in
    elim (ticked.0) [
      | none ↦ stop out_of_range (record m { writer = ticked.1 })
      | some r ↦ done tt (record m { reg_file = r; writer = ticked.1 })
    ]

-- DoLastTicks: what is still in the memory and write-back stages is finished.
unfoldable pub do_last_ticks : P
unfolding do_memory reg_file_tick
do_last_ticks = do
  modify (λ m. record m {
    memory_register = tick_register m.memory_register;
    write_back_register = tick_register m.write_back_register;
  })
  do_memory
  reg_file_tick 0 0
  modify (λ m. record m { write_back_register = tick_register m.write_back_register })
  reg_file_tick 0 0

abbrev pub feed_control : P
feed_control m =
    let instr = m.decode_register.current.instr in
    done tt (record m {
      control_unit = record (m.control_unit) {
        opcode = get_opcode instr;
        funct3 = get_funct3 instr;
        funct7 = get_funct7 instr;
        rs2 = get_rs2 instr;
      };
    })

-- What the catch clauses do before they throw again. ASSERT ends the process at once.
unfoldable pub on_exception : Stop → P
unfolding do_last_ticks trace_executed
on_exception ecall_exception m =
    do_last_ticks (trace_executed m.decode_register.current.instr m.decode_register.current.pc_de m)
on_exception ebreak_exception m =
    do_last_ticks (trace_executed m.decode_register.current.instr m.decode_register.current.pc_de m)
on_exception terminated m = done tt m
on_exception e m = do_last_ticks m

abbrev pub then_throw : Stop → Outcome PipelineModel (Unit {0}) → Outcome PipelineModel (Unit {0})
then_throw e (done _ m) = stop e m
then_throw e (stop e' m) = stop e' m

-- control_unit.Tick() in its try block.
unfoldable pub control_tick : Build → P
unfolding Control.tick on_exception
control_tick b m = elim (Control.tick b.debug m.control_unit) [
  | done _ c ↦ done tt (record m { control_unit = c })
  | stop e c ↦ then_throw e (on_exception e (record m { control_unit = c }))
]

-- What DoDecode puts in the execute register, from the control unit and the register file.
unfoldable pub filled : PipelineModel → ExecuteState
unfolding load_control_signals
filled m =
    let d = m.decode_register.current in
    let data1 = multiplexer2 (m.control_unit.opcode == 0b0010111) m.reg_file.read_data1 d.pc_de in
    record (load_control_signals m.control_unit m.execute_register.next) {
      data1 = multiplexer2 (m.control_unit.opcode == 0b0110111) data1 0;
      data2 = m.reg_file.read_data2;
      pc_de = d.pc_de;
      instr = d.instr;
      v_de = m.pc_r || d.v_de;
    }

abbrev pub fill_execute : P
fill_execute m =
    done tt (record m { execute_register = record (m.execute_register) { next = filled m } })

unfoldable pub do_decode : Build → P
unfolding reg_file_tick control_tick filled get_opcode get_funct3 get_funct7 get_rs2 get_rs1
do_decode b m =
    (reg_file_tick (get_rs1 m.decode_register.current.instr)
          (get_rs2 m.decode_register.current.instr)
        >> (feed_control >> (control_tick b >> fill_execute)))
      m

-- The program counter that follows: the next word, or the target of a jump or branch taken.
unfoldable pub next_pc : PipelineModel → ℕ
next_pc m =
    let x = m.execute_register.current in
    let summand1 = multiplexer2 m.pc_r m.program_counter.current x.pc_de in
    let summand2 = multiplexer2 m.pc_r 4 m.pc_disp in
    add_words (if x.is_jalr then 0 else summand1) summand2

abbrev pub fetch_instr : P
fetch_instr m = elim (Memory.get_word m.mmu m.instr_address) [
  | none ↦ stop killed m
  | some instr ↦ done tt (record m {
    decode_register = record (m.decode_register) {
      next = record (m.decode_register.next) { instr = instr; pc_de = m.program_counter.current };
    };
  })
]

unfoldable pub do_fetch : Build → P
unfolding next_pc Memory.get_word
do_fetch b m =
    (throw_if (b.debug && (m.execute_register.current.is_jalr && not m.pc_r)) terminated
        >> (modify
              (λ m. record m { program_counter = record (m.program_counter) { next = next_pc m } })
            >> (throw_if (not (next_pc m % 4 == 0)) alignment >> fetch_instr)))
      (record m { instr_address = m.program_counter.current })

-- TickStateRegisters and program_counter.Tick(), after a halted stage's instruction is dropped.
unfoldable pub clock : PipelineModel → PipelineModel
clock m =
    let memory =
      if m.program_counter.enable_flag
      then m.memory_register
      else clear memory_zero m.memory_register in
    record m {
      decode_register = tick_register m.decode_register;
      execute_register = tick_register m.execute_register;
      memory_register = tick_register memory;
      write_back_register = tick_register m.write_back_register;
      program_counter = tick_register m.program_counter;
    }

unfoldable pub tick : Build → P
unfolding do_memory do_execute do_decode do_fetch clock hazard_unit_tick
tick b = do
  do_memory
  do_execute
  do_decode b
  do_fetch b
  modify (λ m. hazard_unit_tick (clock m))
  modify (λ m. record m { ticks_counter = m.ticks_counter + 1 })

-- How Run answers an exception: two of them are how a program ends. `throw e` of the handler for
-- `std::logic_error` throws a copy of that type, whichever exception was caught.
abbrev pub answer : Stop → Stop
answer ecall_exception = returned ecall
answer ebreak_exception = returned ebreak
answer invalid_instruction = logic_error
answer alignment = logic_error
answer out_of_range = logic_error
answer e = e

abbrev pub prepare : PipelineModel → PipelineModel
prepare m =
    if ltb m.ticks_counter 2
    then record m {
      data_mem_unit = record (m.data_mem_unit) { address = m.program_counter.current };
    }
    else m

-- The loop of Run: `done` when the fuel, a number of cycles, ends before the program.
unfoldable pub run_from : Build → ℕ → P
run_from b zero m = done tt m
run_from b (suc fuel) m = elim (tick b (prepare m)) [
  | done _ m' ↦ run_from b fuel m'
  | stop e m' ↦ stop (answer e) m'
]

-- Run
unfoldable pub run : Build → (fuel : ℕ) → P
unfolding run_from
run b fuel m = run_from b fuel (record m { trace_prev_pc = 0 })
