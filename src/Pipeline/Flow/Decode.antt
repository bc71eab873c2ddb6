-- ===== src/Pipeline/Flow/Decode.antt =====
-- What DoDecode of models/pipeline/pipeline.cpp has changed where it comes to its end.
use mathlib.Core.Path.{subst}
use risc_v_co_simulator.Base.{◌≡◌, sym, ap, ◌∙◌, refl, arith}
use risc_v_co_simulator.Runtime.{Stop, Build, Outcome, done, stop, final, ◌>>◌}
use risc_v_co_simulator.Runtime.Binds.{bind-done}
use risc_v_co_simulator.Trace.{TraceWriter}
use risc_v_co_simulator.Pipeline.Modules.Storage.{RegFile, set_new_signals, tick_reg_file}
use risc_v_co_simulator.Pipeline.Instruction.{get_rs1, get_rs2}
use risc_v_co_simulator.Pipeline.Control as Control
use risc_v_co_simulator.Pipeline.Control.{ControlUnit, load_control_signals}
use risc_v_co_simulator.Pipeline.Signals.{fed}
use risc_v_co_simulator.Pipeline.Model.{PipelineModel}
use risc_v_co_simulator.Pipeline.Tick.{
  reg_file_tick, feed_control, control_tick, fill_execute, filled, then_throw, on_exception,
  do_decode,
}
use risc_v_co_simulator.Pipeline.Sound.{IsSound, get_rs1-lt, get_rs2-lt}
use risc_v_co_simulator.Pipeline.Flow.{commit}
use risc_v_co_simulator.Pipeline.Flow.Registers.{write-commit, ticked, tick_reg_file_lem}

-- The register file after its tick, and what its ports show.
pub record IsRead (m : PipelineModel) (r : RegFile) : Type 0 where
  pub regs_are : r.regs ≡ commit m.reg_file.regs m.write_back_register.current
  pub shows1 : r.read_data1 ≡ r.regs (get_rs1 m.decode_register.current.instr)
  pub shows2 : r.read_data2 ≡ r.regs (get_rs2 m.decode_register.current.instr)

reg_file_tick-done :
    (m m1 : PipelineModel)
    → IsSound m
    → reg_file_tick
        (get_rs1 m.decode_register.current.instr)
        (get_rs2 m.decode_register.current.instr)
        m
      ≡ done tt m1
    → (r : RegFile) × (w : TraceWriter) × IsRead m r × (m1 ≡ record m { reg_file = r; writer = w })
unfolding reg_file_tick
reg_file_tick-done m m1 ok e =
    let instr = m.decode_register.current.instr in
    let v = m.write_back_register.current in
    let r = set_new_signals (get_rs1 instr) (get_rs2 instr) v.wb_a v.wb_we v.wb_d m.reg_file in
    let ticks =
      tick_reg_file_lem r m.writer (get_rs1-lt instr) (get_rs2-lt instr)
        ok.write_back_sound.1.register_index in
    let all = write-commit m.reg_file.regs v.wb_we v.wb_a v.wb_d ok.registers.zero_reg in
    let shape : reg_file_tick (get_rs1 instr) (get_rs2 instr) m
        ≡ done tt (record m { reg_file = ticked r; writer = (tick_reg_file r m.writer).1 }) =
      rw (reg_file_tick, ticks) refl in
    (
      ticked r,
      (tick_reg_file r m.writer).1,
      record { regs_are = all; shows1 = refl; shows2 = refl },
      sym (ap final (sym shape ∙ e)),
    )

control_tick-done :
    (b : Build) (m m1 : PipelineModel)
    → control_tick b m ≡ done tt m1
    → (c : ControlUnit) × (Control.tick b.debug m.control_unit ≡ done tt c)
      × (m1 ≡ record m { control_unit = c })
unfolding control_tick
control_tick-done b m m1 e = go (Control.tick b.debug m.control_unit) e
  where
    thrown : (x : Stop) (o : Outcome PipelineModel (Unit {0})) → then_throw x o ≡ done tt m1 → ⊥
    thrown x (done _ s) e = ground arith
    thrown x (stop _ s) e = ground arith

    go :
        (o : Outcome ControlUnit (Unit {0}))
        → (elim o as (λ _. Outcome PipelineModel (Unit {0})) [
          | done _ c ↦ done tt (record m { control_unit = c })
          | stop x c ↦ then_throw x (on_exception x (record m { control_unit = c }))
        ])
          ≡ done tt m1
        → (c : ControlUnit) × (o ≡ done tt c) × (m1 ≡ record m { control_unit = c })
    go (done _ c) e = (c, refl, sym (ap final e))
    go (stop x c) e = absurd (thrown x _ e)

-- The state that DoDecode leaves.
abbrev pub issued : RegFile → ControlUnit → TraceWriter → PipelineModel → PipelineModel
issued r c w m =
    let n = record m { reg_file = r; control_unit = c; writer = w } in
    record n { execute_register = record (m.execute_register) { next = filled n } }

pub record IsDecoded (b : Build) (m m1 : PipelineModel) : Type 0 where
  pub file : RegFile
  pub unit : ControlUnit
  pub writer : TraceWriter
  pub read : IsRead m file
  pub signals_are :
      Control.tick b.debug (fed m.decode_register.current.instr m.control_unit) ≡ done tt unit
  pub left : m1 ≡ issued file unit writer m

abbrev fed_of : PipelineModel → PipelineModel
fed_of m = record m { control_unit = fed m.decode_register.current.instr m.control_unit }

abbrev filled_of : PipelineModel → PipelineModel
filled_of m = record m { execute_register = record (m.execute_register) { next = filled m } }

pub do_decode-done :
    (b : Build) (m m1 : PipelineModel) → IsSound m → do_decode b m ≡ done tt m1 → IsDecoded b m m1
unfolding do_decode
do_decode-done b m m1 ok e =
    let instr = m.decode_register.current.instr in
    let (_, ma, ea, e1) =
      bind-done (reg_file_tick (get_rs1 instr) (get_rs2 instr))
        (λ _. feed_control >> (control_tick b >> fill_execute)) m m1 tt e in
    let (r, w, read, a_is) = reg_file_tick-done m ma ok ea in
    let (_, mc, ec, e2) = bind-done (control_tick b) (λ _. fill_execute) (fed_of ma) m1 tt e1 in
    let (c, c_is, mc_is) = control_tick-done b (fed_of ma) mc ec in
    record {
      file = r;
      unit = c;
      writer = w;
      read = read;
      signals_are =
          subst (λ (n : PipelineModel). Control.tick b.debug (fed_of n).control_unit ≡ done tt c)
            a_is c_is;
      left =
          sym (ap final e2)
          ∙ (ap filled_of mc_is
              ∙ ap (λ (n : PipelineModel). filled_of (record n { control_unit = c })) a_is);
    }
