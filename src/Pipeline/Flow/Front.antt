-- ===== src/Pipeline/Flow/Front.antt =====
-- The front of the pipeline after a cycle of models/pipeline/pipeline.cpp without a jump and
-- without a halt: the instruction behind is ready for the execute stage.
use mathlib.Core.Path.{subst}
use risc_v_co_simulator.Base.{
  ◌≡◌, sym, ◌∙◌, refl, arith, Bool, true, false, ◌||◌, Bool-cases, inl, inr,
}
use risc_v_co_simulator.Pipeline.Instruction.{get_rs1, get_rs2, has_rs1, has_rs2}
use risc_v_co_simulator.Pipeline.Model.{PipelineModel}
use risc_v_co_simulator.Pipeline.Tick.Hazard.{
  hazard_unit_tick, halt_pipeline, restart_pipeline, load_conflict, bypass, set_enable_flags,
}
use risc_v_co_simulator.Pipeline.Flow.Edge.{IsFlowing}

-- The hazard unit's tick with no jump under way, where it does not halt the pipeline.
pub record IsRestarted (m h : PipelineModel) : Type 0 where
  pub no_conflict1 :
      load_conflict
        (has_rs1 m.control_unit.instr_type)
        (get_rs1 m.execute_register.current.instr)
        m.memory_register.current
      ≡ false
  pub no_conflict2 :
      load_conflict
        (has_rs2 m.control_unit.instr_type)
        (get_rs2 m.execute_register.current.instr)
        m.memory_register.current
      ≡ false
  pub bypass1 :
      h.hu_rs1
      ≡ bypass
          (has_rs1 m.control_unit.instr_type)
          (get_rs1 m.execute_register.current.instr)
          m.memory_register.current
          m.write_back_register.current
  pub bypass2 :
      h.hu_rs2
      ≡ bypass
          (has_rs2 m.control_unit.instr_type)
          (get_rs2 m.execute_register.current.instr)
          m.memory_register.current
          m.write_back_register.current
  pub fresh_kept : h.must_take_halted_wb ≡ m.must_take_halted_wb
  pub decode_kept : h.decode_register.current ≡ m.decode_register.current
  pub pc_kept : h.program_counter.current ≡ m.program_counter.current
  pub execute_kept : h.execute_register.current ≡ m.execute_register.current
  pub flows : IsFlowing h

abbrev bypassed : PipelineModel → PipelineModel
bypassed m =
    let t = m.control_unit.instr_type in
    let instr = m.execute_register.current.instr in
    let r = m.memory_register.current in
    let w = m.write_back_register.current in
    set_enable_flags true (record m {
      hu_rs1 = bypass (has_rs1 t) (get_rs1 instr) r w;
      hu_rs2 = bypass (has_rs2 t) (get_rs2 instr) r w;
    })

neither : (a b : Bool) → a || b ≡ false → (a ≡ false) × (b ≡ false)
neither false b e = (refl, e)
neither true b e = absurd (ground arith)

pub hazard-IsRestarted :
    (m h : PipelineModel)
    → h ≡ hazard_unit_tick m
    → IsFlowing m
    → m.pc_r ≡ false
    → h.program_counter.enable_flag ≡ true
    → IsRestarted m h
unfolding hazard_unit_tick halt_pipeline restart_pipeline
hazard-IsRestarted m h h_is flows stay going =
    let t = m.control_unit.instr_type in
    let instr = m.execute_register.current.instr in
    let r = m.memory_register.current in
    elim (Bool-cases (
      load_conflict (has_rs1 t) (get_rs1 instr) r || load_conflict (has_rs2 t) (get_rs2 instr) r)) [
        | inl k ↦
            let halted : h.program_counter.enable_flag ≡ false =
              rw (h_is, hazard_unit_tick, flows.execute_on, stay, k) refl in
            absurd (ground (arith, halted, going))
        | inr k ↦
            let (free1, free2) =
              neither (load_conflict (has_rs1 t) (get_rs1 instr) r)
                (load_conflict (has_rs2 t) (get_rs2 instr) r) k in
            let shape : h ≡ bypassed m =
              h_is ∙ rw (hazard_unit_tick, flows.execute_on, stay, k) refl in
            subst (IsRestarted m) (sym shape) (record {
              no_conflict1 = free1;
              no_conflict2 = free2;
              bypass1 = refl;
              bypass2 = refl;
              fresh_kept = refl;
              decode_kept = refl;
              pc_kept = refl;
              execute_kept = refl;
              flows = record {
                pc_on = refl;
                decode_on = refl;
                execute_on = refl;
                memory_on = flows.memory_on;
                write_back_on = flows.write_back_on;
              };
            })
      ]
