-- ===== src/Lib.antt =====
-- A co-simulator of RV32I: two models of a hart run the same program and their traces are compared.
--
-- The program has two models on one kind of memory. The functional model (models/functional/) is an
-- interpreter: `Run` fetches a word, decodes it and jumps to the handler of the instruction. The
-- pipeline model (models/pipeline/) is a five-stage pipeline that runs cycle by cycle, with a control
-- unit, a hazard unit, bypasses and a stall on load conflicts. Both write traces of their registers,
-- their memory and the instructions that they execute (models/shared/trace_writer.h), and
-- co_simulator/ compares the three pairs of traces.
--
-- Files:
--   Base, Base/* - numbers, words, bit operations and tests that every part uses.
--   Runtime - models/shared/runtime.h: the return codes; how code stops (a return of Run, the end of
--     the process, an exception); the state monad of both models; shifts as they were compiled.
--   Trace - models/shared/trace_writer.h: `trace_set_memory` is TraceSetMemory, and so on.
--   Memory - models/shared/mmu_fixed_offset.h: `get_word` is GetWord, `set_word` is SetWord, and so on.
--     Memory/Allocate has the mapping and freeing of memory, Memory/Access the laws of loads and stores,
--     Memory/Chunks, Allocated, Fill, Grants and Stops those of allocation, Memory/Steps the object's life.
--   Host - the calls of the operating system that the memory and the loader make, and their laws.
--   Elf - utils/load_elf.cpp. Elf and Elf/Segment are the loader, Elf/Contents, Image and Total follow a
--     segment and the loop over all, Loads and Starts a whole file, Entry, Bytes, Tracked and Stops any.
--   Isa - the manual's RV32I as plain arithmetic, independent of both models: `exec`, and `apply`
--     without its exception on a jump to an address that is not one of a word; Isa/Encoding has the
--     encodings of the instructions, Isa/Checked is about that exception.
--   Functional - models/functional/. Instruction and Decoder are instruction.h and decoder.h, Regfile
--     is regfile.h, Model has the state and its accesses, Handlers the label of each instruction and
--     `Run`. Interpreted says what the interpreter does where it departs from the manual, and the
--     files of Refines compare the handlers and the loop with it and with the manual.
--   Pipeline - models/pipeline/. Modules/* are modules/*.h, Instruction, Stages and Control the files
--     instruction.h, stages_states.h and control_unit.h of pipeline/, Model the members of
--     PipelineModel, Execute is DoExecute, Tick the other stages, the clock and Run, Tick/Hazard the
--     hazard unit. Blocks, Signals, Datapath and Forwarding hold what is proved of them.
--     Pipeline/Sound follows the well-formedness of the state through a cycle, and Pipeline/Flow the
--     instructions in flight: Decode, Fetch, Edge, Steps and Cycle what a cycle leaves in each stage,
--     Operands, Ready, Wires and Older an instruction in the execute stage, Finish the stages behind
--     it, Front and Next the instruction that follows, Stream and Ordered several cycles.
--     Program is RunProgram, in Functional and in Pipeline; Starts follows it up to Run, Ends and
--     Freed to its end, and Tracked is about the memory of a run.
--   Cosim - System is utils/system.cpp, Files its CompareTwoFiles, Compare and Simulator are co_simulator/.
--     Setup, Laws, Text and Agrees hold what is proved of them.
--   Tests - small programs on both models, and the theorems at concrete values.
--
-- How the code is modelled: a model is a record of its members, and the writer of traces, a singleton
-- in the source, is a field of it. An operation is a function of the state into `Outcome`: a result and
-- the new state, or how the code stops and the state it stops in. A uint32_t is a natural number below
-- 2 ^ 32 with every wrap-around written out. The memory is a function from addresses to bytes, `none`
-- where no page is mapped; an access there is the signal that kills the process. The protection of a
-- page is not modelled: a mapped page can be read and written.
--
-- Bounds: the loops of both `Run` functions have no end of their own, so they take fuel, the number of
-- instructions or of cycles; when it ends first the outcome is `done` with the state reached.
--
-- Undefined behaviour: the interpreter shifts 32-bit values by counts above 31. What the compiled code
-- does there is a parameter (`Build`), and `MasksCounts` is the hypothesis that the count is taken
-- modulo 32, as the shift instructions of x86 take it. HANDLE_JALR adds two int32_t; where the sum
-- overflows, it is modelled as wrapping around.
--
-- Parameters: `mmap`, `munmap` and `pread` (`Host`, `File`), and the calls on files and directories
-- (`System`). `MapsPages`, `Grants`, `Holds` and `KeepsFiles` are what their manual pages promise, that
-- there is memory to spare, and that the paths of the trace files name different regular files. A test
-- instance of each is in Tests.
--
-- Not modelled: printed output, the entry points, unused helpers of utils/system.cpp, and the tests and
-- examples of the repository. The file system and the streams of the writer are two states: a test's
-- runs change the streams only.
pub mod Base
pub mod Runtime
pub mod Trace
pub mod Memory
pub mod Host
pub mod Elf
pub mod Functional
pub mod Isa
pub mod Pipeline
mod Tests
pub mod Cosim
