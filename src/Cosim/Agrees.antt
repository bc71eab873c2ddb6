-- ===== src/Cosim/Agrees.antt =====
-- co_simulator/co_simulator.cpp: what the result 0 of a test says.
use risc_v_co_simulator.Base.{
  ℕ, ◌≡◌, ◌↔◌, refl, ap, ◌∙◌, arith, Bool, true, false, Option, none, some, ℤ, pos, negsuc,
  if◌then◌else◌,
}
use risc_v_co_simulator.Runtime.{ReturnCode, Stop, Outcome, done, stop}
use risc_v_co_simulator.Functional.Model.{FunctionalModel}
use risc_v_co_simulator.Pipeline.Model.{PipelineModel}
use risc_v_co_simulator.Cosim.System.{System}
use risc_v_co_simulator.Cosim.Files.{compare_two_files}
use risc_v_co_simulator.Cosim.Compare.{
  TraceFiles, functional_failed, is_return_code_valid, run_test,
}
use risc_v_co_simulator.Cosim.Laws.{run_test_iff}
use risc_v_co_simulator.Cosim.Simulator.{
  Rv32iCoSimulator, Run, Test, trace_files, after_pipeline, after_functional, run_functional,
  run_pipeline, run_models, setup_before_test, after_test, test_program,
}

-- Both models have ended with a valid code, and their traces compare as equal.
pub record Agrees (r : Run) (s : Rv32iCoSimulator) : Type 0 where
  pub f_code : ReturnCode
  pub f_model : FunctionalModel
  pub p_code : ReturnCode
  pub p_model : PipelineModel
  pub f_ran : run_functional r s ≡ done (some f_code) f_model
  pub p_ran :
      run_pipeline r (record s { functional_model = f_model; writer = f_model.writer })
      ≡ done (some p_code) p_model
  pub f_valid : is_return_code_valid f_code ≡ true
  pub p_valid : is_return_code_valid p_code ≡ true
  pub same_reg_file :
      compare_two_files (trace_files f_model.writer).reg_file (trace_files p_model.writer).reg_file
      ≡ some (pos 0)
  pub same_mmu :
      compare_two_files (trace_files f_model.writer).mmu (trace_files p_model.writer).mmu
      ≡ some (pos 0)
  pub same_decoder :
      compare_two_files (trace_files f_model.writer).decoder (trace_files p_model.writer).decoder
      ≡ some (pos 0)

module _ (r : Run) (s s2 : Rv32iCoSimulator) where
  from_pipeline :
      (f_code : ReturnCode) (f : FunctionalModel) (o : Outcome PipelineModel (Option ReturnCode))
      → run_functional r s ≡ done (some f_code) f
      → run_pipeline r (record s { functional_model = f; writer = f.writer }) ≡ o
      → after_pipeline
          (f_code, trace_files f.writer)
          (record s { functional_model = f; writer = f.writer })
          o
        ≡ done (some 0) s2
      → Agrees r s
  unfolding after_pipeline
  from_pipeline f_code f (stop e m) f_ran p_ran e' = absurd (ground arith)
  from_pipeline f_code f (done none m) f_ran p_ran e' = absurd (ground arith)
  from_pipeline f_code f (done (some p_code) m) f_ran p_ran e' =
      let zero =
        result (run_test (f_code, trace_files f.writer) (p_code, trace_files m.writer)) e' in
      let (v, w, a, b, c) =
        (run_test_iff f_code p_code (trace_files f.writer) (trace_files m.writer)).0 zero in
      record {
        f_code = f_code;
        f_model = f;
        p_code = p_code;
        p_model = m;
        f_ran = f_ran;
        p_ran = p_ran;
        f_valid = v;
        p_valid = w;
        same_reg_file = a;
        same_mmu = b;
        same_decoder = c;
      }
    where
      result :
          (o : Option ℕ)
          → (elim o [
            | none ↦
                stop Stop.file_open
                  (record s { functional_model = f; pipeline_model = m; writer = m.writer })
            | some n ↦
                done
                  (some n)
                  (record s { functional_model = f; pipeline_model = m; writer = m.writer })
          ])
            ≡ done (some 0) s2
          → o ≡ some 0
      result none e = absurd (ground arith)
      result (some n) e = ground arith

  from_functional :
      (o : Outcome FunctionalModel (Option ReturnCode))
      → run_functional r s ≡ o
      → after_functional r s o ≡ done (some 0) s2
      → Agrees r s
  unfolding after_functional
  from_functional (stop e m) f_ran e' = absurd (ground arith)
  from_functional (done none m) f_ran e' = absurd (ground arith)
  from_functional (done (some f_code) m) f_ran e' = go (is_return_code_valid f_code) e'
    where
      s' : Rv32iCoSimulator
      s' = record s { functional_model = m; writer = m.writer }

      go :
          (b : Bool)
          → (if b
              then after_pipeline (f_code, trace_files m.writer) s' (run_pipeline r s')
              else done (some functional_failed) s')
            ≡ done (some 0) s2
          → Agrees r s
      go true e = from_pipeline f_code m (run_pipeline r s') f_ran refl e
      go false e = absurd (ground arith)

  run_models-Agrees : run_models r s ≡ done (some 0) s2 → Agrees r s
  unfolding run_models
  run_models-Agrees e = from_functional (run_functional r s) refl e

Agrees-run_models :
    (r : Run) (s : Rv32iCoSimulator)
    → Agrees r s
    → (s2 : Rv32iCoSimulator) × (run_models r s ≡ done (some 0) s2)
unfolding run_models after_functional after_pipeline
Agrees-run_models r s a = (
  record s { functional_model = a.f_model; pipeline_model = a.p_model; writer = a.p_model.writer },
  joined,
)
  where
    s1 : Rv32iCoSimulator
    s1 = record s { functional_model = a.f_model; writer = a.f_model.writer }

    f_files : TraceFiles
    f_files = trace_files a.f_model.writer

    zero_result : run_test (a.f_code, f_files) (a.p_code, trace_files a.p_model.writer) ≡ some 0
    zero_result =
        (run_test_iff a.f_code a.p_code f_files (trace_files a.p_model.writer)).1
          (a.f_valid, a.p_valid, a.same_reg_file, a.same_mmu, a.same_decoder)

    tested :
        (o : Option ℕ)
        → o ≡ some 0
        → (elim o [
          | none ↦
              stop Stop.file_open
                (record s1 { pipeline_model = a.p_model; writer = a.p_model.writer })
          | some n ↦
              done (some n) (record s1 { pipeline_model = a.p_model; writer = a.p_model.writer })
        ])
          ≡ done (some 0) (record s1 { pipeline_model = a.p_model; writer = a.p_model.writer })
    tested o e = ground (arith, e)

    piped :
        after_pipeline (a.f_code, f_files) s1 (run_pipeline r s1)
        ≡ done (some 0) (record s1 { pipeline_model = a.p_model; writer = a.p_model.writer })
    piped =
        ap (after_pipeline (a.f_code, f_files) s1) a.p_ran
        ∙ tested (run_test (a.f_code, f_files) (a.p_code, trace_files a.p_model.writer)) zero_result

    guarded :
        (b : Bool)
        → b ≡ true
        → (if b
            then after_pipeline (a.f_code, f_files) s1 (run_pipeline r s1)
            else done (some functional_failed) s1)
          ≡ done (some 0) (record s1 { pipeline_model = a.p_model; writer = a.p_model.writer })
    guarded true e = piped
    guarded false e = absurd (ground arith)

    joined :
        run_models r s
        ≡ done (some 0) (record s1 { pipeline_model = a.p_model; writer = a.p_model.writer })
    joined = ap (after_functional r s) a.f_ran ∙ guarded (is_return_code_valid a.f_code) a.f_valid

-- What TestProgram makes of RunTest's outcome.
after_test-zero :
    {S : Type 0} (sys : System S) (t : Test) (fs : S) (s' : Rv32iCoSimulator × S)
    → after_test sys fs t ≡ done (some (pos 0)) s'
    → (s2 : Rv32iCoSimulator) × (t ≡ done (some 0) s2)
unfolding after_test
after_test-zero sys (stop e s2) fs s' h = absurd (ground arith)
after_test-zero sys (done none s2) fs s' h = absurd (ground arith)
after_test-zero sys (done (some n) s2) fs s' h = (s2, ground arith)

-- TestProgram ends with 0 exactly when the setup succeeds, both models then end the program with a
-- valid code, and each of the three pairs of traces compares as equal.
pub test_program_iff :
    {S : Type 0} (sys : System S) (r : Run) (s : Rv32iCoSimulator) (fs : S)
    → ((s' : Rv32iCoSimulator × S) × (test_program sys r s fs ≡ done (some (pos 0)) s'))
      ↔ (((setup_before_test sys s fs).0 ≡ true) × Agrees r (setup_before_test sys s fs).1)
unfolding test_program
test_program_iff {S} sys r s fs = (
  λ (s', e). forth (setup_before_test sys s fs).0 refl s' e,
  λ (ok, a). back (setup_before_test sys s fs).0 ok (Agrees-run_models r s1 a),
)
  where
    s1 : Rv32iCoSimulator
    s1 = (setup_before_test sys s fs).1

    fs1 : S
    fs1 = (setup_before_test sys s fs).2

    tested : Bool → Outcome (Rv32iCoSimulator × S) (Option ℤ)
    tested ok =
        if ok then after_test sys fs1 (run_models r s1) else done (some (negsuc 0)) (s1, fs1)

    forth :
        (ok : Bool)
        → (setup_before_test sys s fs).0 ≡ ok
        → (s' : Rv32iCoSimulator × S) → tested ok ≡ done (some (pos 0)) s'
        → ((setup_before_test sys s fs).0 ≡ true) × Agrees r s1
    forth true h s' e =
        let (s2, e') = after_test-zero sys (run_models r s1) fs1 s' e in
        (h, run_models-Agrees r s1 s2 e')
    forth false h s' e = absurd (ground arith)

    back :
        (ok : Bool)
        → ok ≡ true
        → ((s2 : Rv32iCoSimulator) × (run_models r s1 ≡ done (some 0) s2))
        → (s' : Rv32iCoSimulator × S) × (tested ok ≡ done (some (pos 0)) s')
    back true h (s2, e) = (_, ap (after_test sys fs1) e)
    back false h _ = absurd (ground arith)
