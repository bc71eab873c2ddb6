-- ===== src/Tests/Flow.antt =====
-- A cycle with instructions in flight: add x3, x1, x2 in the execute stage, with addi x2, x0, 7 in
-- the memory stage and addi x1, x0, 5 in the write-back stage, and a nop behind it.
use risc_v_co_simulator.Base.{
  ℕ, Option, some, ◌≡◌, refl, arith, true, false, List, [], ◌∷◌, ◌==◌, if◌then◌else◌, Bool-cases,
  inl, inr,
}
use risc_v_co_simulator.Runtime.{final, done}
use risc_v_co_simulator.Isa.{State, Effect, exec}
use risc_v_co_simulator.Memory.{read_bytes, get_byte, get_word}
use risc_v_co_simulator.Functional.Instruction.{add, addi}
use risc_v_co_simulator.Pipeline.Stages.{MemoryState, WriteBackState, memory_zero, mem, wb}
use risc_v_co_simulator.Pipeline.Model.{PipelineModel}
use risc_v_co_simulator.Pipeline.Instruction.{get_opcode, has_rs1, get_rs1, has_rs2, get_rs2}
use risc_v_co_simulator.Pipeline.Tick.{tick, do_memory, filled}
use risc_v_co_simulator.Pipeline.Tick.Hazard.{bypass, load_conflict}
use risc_v_co_simulator.Pipeline.Control.{load_control_signals}
use risc_v_co_simulator.Pipeline.Datapath.{decoded}
use risc_v_co_simulator.Pipeline.Sound.{IsSound}
use risc_v_co_simulator.Pipeline.Flow.{completed, following}
use risc_v_co_simulator.Pipeline.Flow.Edge.{IsFlowing}
use risc_v_co_simulator.Pipeline.Flow.Ready.{IsReady, read_state}
use risc_v_co_simulator.Pipeline.Flow.Stream.{
  Text, IsOrdinary, IsStreaming, Streams, still, cycle, executed_in_order,
}
use risc_v_co_simulator.Pipeline.Flow.Ordered.{executed_in_order-Refines}
use risc_v_co_simulator.Pipeline.Flow.Refines.{tick-Refines}
use risc_v_co_simulator.Tests.Machines.{x86}
use risc_v_co_simulator.Tests.Sound.{machine, machine-IsSound, memory_of, memory_of-IsMmuSound}

-- addi x0, x0, 0 everywhere; the word in the execute stage was fetched before.
abbrev nops : List ℕ
nops = 0x13 ∷ 0x13 ∷ 0x13 ∷ 0x13 ∷ 0x13 ∷ 0x13 ∷ 0x13 ∷ 0x13 ∷ []

abbrev base : PipelineModel
base = machine (memory_of nops)

abbrev older : MemoryState
older = record memory_zero { wb_we = true; alu_res = 7; wb_a = 2 }

abbrev oldest : WriteBackState
oldest = record { wb_we = true; wb_d = 5; wb_a = 1 }

-- The registers of the stages hold the four instructions.
in_flight : PipelineModel
unfolding filled load_control_signals
in_flight = record base {
  hu_rs1 = wb;
  hu_rs2 = mem;
  data_mem_unit = record (base.data_mem_unit) { address = 4096 };
  write_back_register = record (base.write_back_register) { current = oldest };
  memory_register = record (base.memory_register) { current = older };
  execute_register = record (base.execute_register) {
    current = filled (decoded add 0x002081b3 (read_state 4104 base) base);
  };
  decode_register = record (base.decode_register) {
    current = record { v_de = false; pc_de = 4108; instr = 0x13 };
  };
  program_counter = record (base.program_counter) { current = 4112 };
}

in_flight-IsSound : IsSound in_flight
unfolding in_flight filled load_control_signals get_opcode
in_flight-IsSound =
    let ok = machine-IsSound (memory_of nops) (memory_of-IsMmuSound nops) in
    record {
      memory = ok.memory;
      registers = ok.registers;
      pc_word = (omega arith, omega arith);
      decode_word = (omega arith, omega arith);
      execute_sound = (
        ok.execute_sound.0,
        record { data1_word = omega arith; data2_word = omega arith; pc_word = omega arith },
      );
      memory_sound =
          (ok.memory_sound.0, record { result_word = omega arith; register_index = omega arith });
      write_back_sound = (
        ok.write_back_sound.0,
        record { value_word = omega arith; register_index = omega arith },
      );
      bypass_word = omega arith;
      halted_word = omega arith;
    }

in_flight-IsFlowing : IsFlowing in_flight
unfolding in_flight
in_flight-IsFlowing = record {
  pc_on = refl;
  decode_on = refl;
  execute_on = refl;
  memory_on = refl;
  write_back_on = refl;
}

in_flight-IsReady : IsReady add 0x002081b3 4104 in_flight
unfolding in_flight filled load_control_signals bypass load_conflict has_rs1 get_rs1 has_rs2 get_rs2
in_flight-IsReady = record {
  word = omega arith;
  encodes = record {
    opcode_field = refl;
    funct3_field = refl;
    funct7_field = refl;
    rs2_field = tt;
  };
  issued = refl;
  bypass1 = refl;
  bypass2 = refl;
  no_conflict1 = refl;
  no_conflict2 = refl;
  fresh = refl;
  behind = refl;
}

-- The state that the two older instructions leave.
settled_state : Effect → State
settled_state (Effect.next s) = s
settled_state _ = record { pc = 0; x = λ _. 0; mem = λ _. Option.none }

before : State
unfolding settled_state completed in_flight do_memory get_byte read_bytes filled
    load_control_signals
before = settled_state (completed 4104 in_flight)

after : PipelineModel
unfolding tick in_flight get_byte read_bytes filled load_control_signals
after = final (tick x86 in_flight)

tick-Refines_example : completed (following after) after ≡ exec add 0x002081b3 before
unfolding before after settled_state tick in_flight completed do_memory get_byte read_bytes filled
    load_control_signals
tick-Refines_example =
    tick-Refines x86 add 0x002081b3 4104 in_flight after before in_flight-IsSound
      in_flight-IsFlowing in_flight-IsReady (λ h. absurd (ground arith))
      (λ h. absurd (ground arith)) (λ h. absurd (ground arith)) refl refl

-- The program, and a cycle of it.
abbrev text : Text
text p = if p == 4104 then (add, 0x002081b3) else (addi, 0x13)

text-IsOrdinary : (p : ℕ) → IsOrdinary (text p)
text-IsOrdinary p = elim (Bool-cases (p == 4104)) [
  | inl h ↦ rw h (record {
    word = omega arith;
    encodes = record {
      opcode_field = refl;
      funct3_field = refl;
      funct7_field = refl;
      rs2_field = tt;
    };
    not_fence = λ k. absurd (ground arith);
    not_ecall = λ k. absurd (ground arith);
    not_ebreak = λ k. absurd (ground arith);
  })
  | inr h ↦ rw h (record {
    word = omega arith;
    encodes = record {
      opcode_field = refl;
      funct3_field = refl;
      funct7_field = tt;
      rs2_field = tt;
    };
    not_fence = λ k. absurd (ground arith);
    not_ecall = λ k. absurd (ground arith);
    not_ebreak = λ k. absurd (ground arith);
  })
]

in_flight-IsStreaming : IsStreaming text 4104 in_flight
unfolding in_flight
in_flight-IsStreaming = record {
  sound = in_flight-IsSound;
  flows = in_flight-IsFlowing;
  ready = in_flight-IsReady;
  behind = refl;
  next = refl;
}

ticked : tick x86 in_flight ≡ done tt after
unfolding after
ticked = refl

fetched : get_word after.mmu 4112 ≡ some 0x13
unfolding after tick in_flight get_byte read_bytes get_word filled load_control_signals
fetched = refl

going : after.program_counter.enable_flag ≡ true
unfolding after tick in_flight get_byte read_bytes filled load_control_signals
going = refl

stayed : after.pc_r ≡ false
unfolding after tick in_flight get_byte read_bytes filled load_control_signals
stayed = refl

in_flight-Streams : Streams x86 text 1 in_flight after
unfolding in_flight
in_flight-Streams = cycle {m1 = after} ticked fetched going stayed still

executed_in_order-Refines_example :
    IsStreaming text 4108 after × (completed 4108 after ≡ executed_in_order text 1 4104 before)
unfolding before settled_state in_flight completed do_memory get_byte read_bytes filled
    load_control_signals
executed_in_order-Refines_example =
    executed_in_order-Refines x86 text text-IsOrdinary 1 4104 in_flight after before
      in_flight-IsStreaming refl in_flight-Streams
