-- ===== src/Cosim/Simulator.antt =====
-- co_simulator/co_simulator.h and co_simulator.cpp: a test of a program. The trace files are the
-- streams of the writer, a singleton that each model runs with in turn.
use Prim.Native.String.{String}
use risc_v_co_simulator.Base.{
  ℕ, Bool, true, false, Option, none, some, List, [], ◌∷◌, ℤ, pos, negsuc, if◌then◌else◌,
}
use risc_v_co_simulator.Runtime.{ReturnCode, file_open, Outcome, done, stop, Build}
use risc_v_co_simulator.Trace.{TraceWriter, mmu, reg_file, decoder, open_trace_file, close_all}
use risc_v_co_simulator.Host.{Host, File}
use risc_v_co_simulator.Functional.Model.{FunctionalModel}
use risc_v_co_simulator.Functional.Program as Interpreter
use risc_v_co_simulator.Pipeline.Model.{PipelineModel}
use risc_v_co_simulator.Pipeline.Program as Pipe
use risc_v_co_simulator.Cosim.System.{
  System, setup_directory, setup_files, remove_directory, and_then,
}
use risc_v_co_simulator.Cosim.Compare.{
  TraceFiles, functional_failed, is_return_code_valid, run_test,
}

-- EnableTraces of models/shared/runtime.h, on files that can be opened.
unfoldable pub enable_traces : TraceWriter → TraceWriter
unfolding open_trace_file
enable_traces w =
    open_trace_file decoder
      (open_trace_file reg_file (open_trace_file mmu (record w { must_trace = true })))

-- DisableTraces
unfoldable pub disable_traces : TraceWriter → TraceWriter
unfolding close_all
disable_traces w = close_all (record w { must_trace = false })

pub record Rv32iCoSimulator : Type 0 where
  pub functional_model : FunctionalModel
  pub pipeline_model : PipelineModel
  pub should_delete_traces : Bool
  pub readable_traces : Bool
  pub writer : TraceWriter

-- What is in the files of the streams.
abbrev pub trace_files : TraceWriter → TraceFiles
trace_files w = record {
  mmu = w.mmu_stream;
  reg_file = w.reg_file_stream;
  decoder = w.decoder_stream;
}

-- How both models run: the compiled code, the host, the fuel of each, and the file at the path.
pub record Run : Type 0 where
  pub build : Build
  pub host : Host
  pub functional_fuel : ℕ
  pub pipeline_fuel : ℕ
  pub path : Option File

abbrev pub Test : Type 0
Test = Outcome Rv32iCoSimulator (Option ℕ)

-- RunTest from the end of the pipeline's run on, with the code and the traces of the interpreter.
-- `none` is a program that still runs when its fuel ends.
unfoldable pub after_pipeline :
    (functional : ReturnCode × TraceFiles)
    → Rv32iCoSimulator
    → Outcome PipelineModel (Option ReturnCode)
    → Test
unfolding run_test
after_pipeline functional s (stop e m) = stop e (record s { pipeline_model = m; writer = m.writer })
after_pipeline functional s (done none m) =
    done none (record s { pipeline_model = m; writer = m.writer })
after_pipeline functional s (done (some p_code) m) =
    let s' = record s { pipeline_model = m; writer = m.writer } in
    elim (run_test functional (p_code, trace_files m.writer)) [
      | none ↦ stop file_open s'
      | some n ↦ done (some n) s'
    ]

-- The pipeline's part of RunTest.
unfoldable pub run_pipeline : Run → Rv32iCoSimulator → Outcome PipelineModel (Option ReturnCode)
unfolding enable_traces Pipe.run_program
run_pipeline r s =
    Pipe.run_program r.build r.host r.pipeline_fuel r.path
      (record (s.pipeline_model) { writer = enable_traces s.writer })

-- The interpreter's part.
unfoldable pub run_functional : Run → Rv32iCoSimulator → Outcome FunctionalModel (Option ReturnCode)
unfolding enable_traces Interpreter.run_program
run_functional r s =
    Interpreter.run_program r.build r.host r.functional_fuel r.path
      (record (s.functional_model) { writer = enable_traces s.writer })

-- RunTest from the end of the interpreter's run on.
unfoldable pub after_functional :
    Run → Rv32iCoSimulator → Outcome FunctionalModel (Option ReturnCode) → Test
unfolding after_pipeline run_pipeline
after_functional r s (stop e m) = stop e (record s { functional_model = m; writer = m.writer })
after_functional r s (done none m) =
    done none (record s { functional_model = m; writer = m.writer })
after_functional r s (done (some f_code) m) =
    let s' = record s { functional_model = m; writer = m.writer } in
    if is_return_code_valid f_code
    then after_pipeline (f_code, trace_files m.writer) s' (run_pipeline r s')
    else done (some functional_failed) s'

-- RunTest
unfoldable pub run_models : Run → Rv32iCoSimulator → Test
unfolding after_functional run_functional
run_models r s = after_functional r s (run_functional r s)

abbrev functional_traces : List String
functional_traces =
    "traces/mmu.funct.tr" ∷ "traces/regfile.funct.tr" ∷ "traces/decoder.funct.tr" ∷ []

abbrev pipeline_traces : List String
pipeline_traces = "traces/mmu.pipe.tr" ∷ "traces/regfile.pipe.tr" ∷ "traces/decoder.pipe.tr" ∷ []

abbrev traces_dir : String
traces_dir = "traces"

module _ {S : Type 0} (sys : System S) where
  -- SetupBeforeTest
  unfoldable pub setup_before_test : Rv32iCoSimulator → S → Bool × Rv32iCoSimulator × S
  unfolding Interpreter.make_traces_readable Pipe.make_traces_readable setup_directory setup_files
  setup_before_test s fs =
      let (ok, fs') =
        and_then (setup_directory sys traces_dir fs) (λ fs.
          and_then (setup_files sys functional_traces fs) (setup_files sys pipeline_traces)) in
      (
        ok,
        record s {
          functional_model = Interpreter.make_traces_readable s.readable_traces s.functional_model;
          pipeline_model = Pipe.make_traces_readable s.readable_traces s.pipeline_model;
        },
        fs',
      )

  -- TeardownAfterTest. The first DisableTraces closes the streams of both models.
  unfoldable pub teardown_after_test : Rv32iCoSimulator → S → Rv32iCoSimulator × S
  unfolding disable_traces remove_directory
  teardown_after_test s fs = (
    record s { writer = disable_traces (disable_traces s.writer) },
    if s.should_delete_traces then (remove_directory sys traces_dir fs).1 else fs,
  )

  -- TestProgram from the end of RunTest on. An exception skips the teardown.
  unfoldable pub after_test : S → Test → Outcome (Rv32iCoSimulator × S) (Option ℤ)
  unfolding teardown_after_test
  after_test fs (stop e s) = stop e (s, fs)
  after_test fs (done none s) = done none (s, fs)
  after_test fs (done (some n) s) = done (some (pos n)) (teardown_after_test s fs)

  -- TestProgram, where what the runs write to the trace files is in the streams and not in the state
  -- of the file system: the code, -1 where the setup fails, and `none` where the program still runs.
  unfoldable pub test_program :
      Run → Rv32iCoSimulator → S → Outcome (Rv32iCoSimulator × S) (Option ℤ)
  unfolding setup_before_test run_models after_test
  test_program r s fs =
      let (ok, s1, fs1) = setup_before_test s fs in
      if ok then after_test fs1 (run_models r s1) else done (some (negsuc 0)) (s1, fs1)
