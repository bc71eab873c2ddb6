-- ===== src/Functional/Model.antt =====
-- models/functional/model.h: the state of `FunctionalModel` and the operations that its handlers
-- are made of. The writer of traces is a singleton in the source and a field here.
use risc_v_co_simulator.Base.{
  ℕ, ◌+◌, ◌%◌, ◌==◌, Bool, not, ◌&&◌, Option, none, some, if◌then◌else◌, u32,
}
use risc_v_co_simulator.Runtime.{Stop, terminated, killed, out_of_range, done, stop, M, Build}
use risc_v_co_simulator.Trace.{TraceWriter, trace_executed_instruction}
use risc_v_co_simulator.Memory as Memory
use risc_v_co_simulator.Memory.{Mmu}
use risc_v_co_simulator.Functional.Regfile as Regfile
use risc_v_co_simulator.Functional.Regfile.{Rv32iRegFile}

pub record FunctionalModel : Type 0 where
  pub ticks_counter : ℕ
  pub mmu : Mmu
  pub registers : Rv32iRegFile
  pub pc : ℕ
  pub readable_traces : Bool
  pub writer : TraceWriter

-- A value that a component gives, or the stop that its failure is.
abbrev pub or_stop : {A : Type 0} → Stop → Option A → M FunctionalModel A
or_stop e none m = stop e m
or_stop e (some a) m = done a m

-- registers.ReadReg
unfoldable pub read_reg : ℕ → M FunctionalModel ℕ
unfolding Regfile.read_reg
read_reg idx m = or_stop out_of_range (Regfile.read_reg idx m.registers) m

-- registers.WriteReg
unfoldable pub write_reg : (value idx : ℕ) → M FunctionalModel (Unit {0})
unfolding Regfile.write_reg
write_reg value idx m =
    let (registers, w) = Regfile.write_reg value idx m.registers m.writer in
    elim registers [
      | none ↦ stop out_of_range (record m { writer = w })
      | some r ↦ done tt (record m { registers = r; writer = w })
    ]

unfoldable pub get_word : ℕ → M FunctionalModel ℕ
get_word vaddr m = or_stop killed (Memory.get_word m.mmu vaddr) m

unfoldable pub get_half : ℕ → M FunctionalModel ℕ
get_half vaddr m = or_stop killed (Memory.get_half m.mmu vaddr) m

unfoldable pub get_byte : ℕ → M FunctionalModel ℕ
get_byte vaddr m = or_stop killed (Memory.get_byte m.mmu vaddr) m

-- What a setter of the memory leaves behind.
abbrev pub stored : Option Mmu × TraceWriter → M FunctionalModel (Unit {0})
stored (none, w) m = stop killed (record m { writer = w })
stored (some mmu, w) m = done tt (record m { mmu = mmu; writer = w })

unfoldable pub set_word : (value vaddr : ℕ) → M FunctionalModel (Unit {0})
set_word value vaddr m = stored (Memory.set_word value vaddr m.mmu m.writer) m

unfoldable pub set_byte : (value vaddr : ℕ) → M FunctionalModel (Unit {0})
set_byte value vaddr m = stored (Memory.set_byte value vaddr m.mmu m.writer) m

abbrev pub get_pc : M FunctionalModel ℕ
get_pc m = done m.pc m

abbrev pub set_pc : ℕ → M FunctionalModel (Unit {0})
set_pc pc m = done tt (record m { pc = pc })

-- `pc += 4`
abbrev pub advance : M FunctionalModel (Unit {0})
advance m = done tt (record m { pc = u32 (m.pc + 4) })

-- LoadFromPC
unfoldable pub load_from_pc : Build → M FunctionalModel ℕ
unfolding get_word
load_from_pc b m = if b.debug && not (m.pc % 4 == 0) then stop terminated m else get_word m.pc m

-- The end of every handler that goes on: `++ticks_counter`, and the next word.
unfoldable pub decode_and_goto : Build → M FunctionalModel ℕ
unfolding load_from_pc
decode_and_goto b m = load_from_pc b (record m { ticks_counter = m.ticks_counter + 1 })

unfoldable pub trace_executed : ℕ → M FunctionalModel (Unit {0})
trace_executed raw m =
    done tt (record m { writer = trace_executed_instruction m.readable_traces raw m.pc m.writer })
