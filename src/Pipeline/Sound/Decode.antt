-- ===== src/Pipeline/Sound/Decode.antt =====
-- The control unit and DoDecode of models/pipeline/pipeline.cpp keep the pipeline sound.
use risc_v_co_simulator.Base.{
  ℕ, ◌^◌, ◌<◌, arith, Bool, true, false, not, ◌&&◌, ◌==◌, Option, none, some, if◌then◌else◌,
}
use risc_v_co_simulator.Runtime.{
  Stop, terminated, ecall_exception, ebreak_exception, Build, Outcome, done, stop, M, ◌>>=◌, modify,
  or_throw, invalid_instruction,
}
use risc_v_co_simulator.Runtime.Safe.{IsGood, IsSafe, bind-IsSafe}
use risc_v_co_simulator.Pipeline.Modules.Gates.{multiplexer2}
use risc_v_co_simulator.Pipeline.Instruction.{get_rs1, get_rs2}
use risc_v_co_simulator.Pipeline.Control as Control
use risc_v_co_simulator.Pipeline.Control.{
  ControlUnit, check_system, set_types, set_alu_op, set_jumps, set_cmp_control, alu_op_of,
  cmp_control_of, load_control_signals,
}
use risc_v_co_simulator.Pipeline.Model.{PipelineModel, trace_executed}
use risc_v_co_simulator.Pipeline.Tick.{
  reg_file_tick, on_exception, then_throw, control_tick, filled, fill_execute, feed_control,
  do_decode,
}
use risc_v_co_simulator.Pipeline.Sound.{IsSound, IsCycleStop, KeepsSound, get_rs1-lt, get_rs2-lt}
use risc_v_co_simulator.Pipeline.Sound.Registers.{
  reg_file_tick-KeepsSound, do_last_ticks-KeepsSound, then_sound,
}

module _ (debug : Bool) where
  abbrev IsControlSafe : {A : Type 0} → M ControlUnit A → Type 0
  IsControlSafe x = IsSafe (λ _. Unit {0}) IsCycleStop x

  or_invalid :
      {A : Type 0} (o : Option A) (f : A → ControlUnit → ControlUnit) (c : ControlUnit)
      → IsGood {S = ControlUnit} {A = Unit {0}}
          (λ _. Unit {0})
          IsCycleStop
          ((or_throw invalid_instruction o >>= λ op. modify λ c. f op c) c)
  or_invalid none f c = (tt, tt)
  or_invalid (some a) f c = tt

  check_system-IsSafe : IsControlSafe (check_system debug)
  unfolding check_system
  check_system-IsSafe = record {
    safe = λ c _.
        go c (c.opcode == 0b1110011) (debug && not (c.funct3 == 0 && c.funct7 == 0)) (c.rs2 == 0)
          (c.rs2 == 1);
  }
    where
      go :
          (c : ControlUnit) (w x y z : Bool)
          → IsGood {S = ControlUnit} {A = Unit {0}}
              (λ _. Unit {0})
              IsCycleStop
              (if w
                then (if x
                    then stop terminated c
                    else if y
                    then stop ecall_exception c
                    else if z
                    then stop ebreak_exception c
                    else stop invalid_instruction c)
                else done tt c)
      go c true true y z = (tt, tt)
      go c true false true z = (tt, tt)
      go c true false false true = (tt, tt)
      go c true false false false = (tt, tt)
      go c false x y z = tt

  set_alu_op-IsSafe : IsControlSafe set_alu_op
  set_alu_op-IsSafe = record {
    safe = λ c _. or_invalid (alu_op_of c) (λ op c'. record c' { alu_op = op }) c;
  }

  set_cmp_control-IsSafe : IsControlSafe set_cmp_control
  set_cmp_control-IsSafe = record {
    safe = λ c _. or_invalid (cmp_control_of c) (λ op c'. record c' { cmp_control = op }) c;
  }

  -- The control unit stops as a cycle may.
  control-IsSafe : IsControlSafe (Control.tick debug)
  unfolding Control.tick
  control-IsSafe =
      let I = λ (_ : ControlUnit). Unit {0} in
      bind-IsSafe I IsCycleStop (check_system debug) _ check_system-IsSafe (λ _.
        bind-IsSafe I IsCycleStop (modify set_types) _ (record { safe = λ c _. tt })
          (λ _. bind-IsSafe I IsCycleStop set_alu_op _ set_alu_op-IsSafe (λ _.
            bind-IsSafe I IsCycleStop (modify set_jumps) (λ _. set_cmp_control)
              (record { safe = λ c _. tt }) (λ _. set_cmp_control-IsSafe))))

-- The ticks that finish older instructions before an exception goes on.
on_exception-KeepsSound : (e : Stop) → KeepsSound (on_exception e)
unfolding on_exception trace_executed
on_exception-KeepsSound ecall_exception = record {
  safe = λ m ok. do_last_ticks-KeepsSound.safe _ ok;
}
on_exception-KeepsSound ebreak_exception = record {
  safe = λ m ok. do_last_ticks-KeepsSound.safe _ ok;
}
on_exception-KeepsSound terminated = record { safe = λ m ok. ok }
on_exception-KeepsSound _ = record { safe = λ m ok. do_last_ticks-KeepsSound.safe m ok }

control_tick-KeepsSound : (b : Build) → KeepsSound (control_tick b)
unfolding control_tick
control_tick-KeepsSound b = record {
  safe = λ m ok.
      go m ok (Control.tick b.debug m.control_unit)
        ((control-IsSafe b.debug).safe m.control_unit tt);
}
  where
    thrown :
        (e : Stop) (o : Outcome PipelineModel (Unit {0}))
        → IsCycleStop e
        → IsGood IsSound IsCycleStop o
        → IsGood IsSound IsCycleStop (then_throw e o)
    thrown e (done _ m) known h = (h, known)
    thrown e (stop _ m) known h = h

    go :
        (m : PipelineModel)
        → IsSound m
        → (o : Outcome ControlUnit (Unit {0})) → IsGood (λ _. Unit {0}) IsCycleStop o
        → IsGood IsSound IsCycleStop (elim o as (λ _. Outcome PipelineModel (Unit {0})) [
          | done _ c ↦ done tt (record m { control_unit = c })
          | stop e c ↦ then_throw e (on_exception e (record m { control_unit = c }))
        ])
    go m ok (done _ c) h = ok
    go m ok (stop e c) h = thrown e _ (h.1) ((on_exception-KeepsSound e).safe _ ok)

-- The operands are register values, an address or 0.
fill_execute-KeepsSound : KeepsSound fill_execute
unfolding filled load_control_signals
fill_execute-KeepsSound = record {
  safe = λ m ok. record {
    memory = ok.memory;
    registers = ok.registers;
    pc_word = ok.pc_word;
    decode_word = ok.decode_word;
    execute_sound = (
      record {
        data1_word =
            chosen (m.control_unit.opcode == 0b0110111) (m.control_unit.opcode == 0b0010111)
              ok.registers.data1_word ok.decode_word.1;
        data2_word = ok.registers.data2_word;
        pc_word = ok.decode_word.1;
      },
      ok.execute_sound.1,
    );
    memory_sound = ok.memory_sound;
    write_back_sound = ok.write_back_sound;
    bypass_word = ok.bypass_word;
    halted_word = ok.halted_word;
  };
}
  where
    chosen :
        (a b : Bool) {x y : ℕ}
        → x < 2 ^ 32
        → y < 2 ^ 32
        → multiplexer2 a (multiplexer2 b x y) 0 < 2 ^ 32
    chosen true b p q = omega arith
    chosen false true p q = q
    chosen false false p q = p

pub do_decode-KeepsSound : (b : Build) → KeepsSound (do_decode b)
unfolding do_decode
do_decode-KeepsSound b = record {
  safe = λ m ok.
      let instr = m.decode_register.current.instr in
      (then_sound (reg_file_tick (get_rs1 instr) (get_rs2 instr)) _
          (reg_file_tick-KeepsSound (get_rs1 instr) (get_rs2 instr) (get_rs1-lt instr)
            (get_rs2-lt instr))
          (λ _.
            then_sound feed_control _ (record { safe = λ m ok. ok })
              (λ _.
                then_sound (control_tick b) _ (control_tick-KeepsSound b)
                  (λ _. fill_execute-KeepsSound)))).safe
        m ok;
}
