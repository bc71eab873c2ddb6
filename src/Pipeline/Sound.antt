-- ===== src/Pipeline/Sound.antt =====
-- models/pipeline/pipeline.h: what holds of the pipeline's registers, stage registers and wires in
-- every cycle.
pub mod Storage
pub mod Memory
pub mod Registers
pub mod Decode
pub mod Execute
pub mod Fetch
pub mod Cycle
use native.Mathlib.Nat.{div-le_self}
use risc_v_co_simulator.Base.{
  ℕ, ◌+◌, ◌/◌, ◌%◌, ◌^◌, ◌<◌, ◌≡◌, refl, arith, Bool, true, false, if◌then◌else◌, bit_and_low,
  bit_and-lt, bit_or-lt, bit_xor-lt, bit_and, u8, of_int32, shr_ℤ, to_int32, ◌>>>◌, ltb, ltb_ℤ,
}
use risc_v_co_simulator.Runtime.{
  Stop, killed, terminated, logic_error, ecall_exception, ebreak_exception, invalid_instruction,
  alignment, M,
}
use risc_v_co_simulator.Runtime.Safe.{IsSafe}
use risc_v_co_simulator.Memory.{Mmu}
use risc_v_co_simulator.Memory.Access.{IsBytes}
use risc_v_co_simulator.Memory.Chunks.{IsTracked}
use risc_v_co_simulator.Functional.Refines.Shifts.{of_int32-lt}
use risc_v_co_simulator.Pipeline.Modules.Alu.{AluControl, alu}
use risc_v_co_simulator.Pipeline.Modules.Storage.{Register, RegFile, tick, clear}
use risc_v_co_simulator.Pipeline.Instruction.{
  InstructionType, immediate_extension_block, immediate_of, get_rd, get_rs1, get_rs2,
}
use risc_v_co_simulator.Pipeline.Stages.{DecodeState, ExecuteState, MemoryState, WriteBackState}
use risc_v_co_simulator.Pipeline.Model.{PipelineModel}

-- Both the value that a register shows and the one that it takes next.
abbrev pub Both : {T : Type 0} → (T → Type 0) → Register T → Type 0
Both P r = P r.next × P r.current

pub tick-Both : {T : Type 0} (P : T → Type 0) (r : Register T) → Both P r → Both P (tick r)
tick-Both P r h = go r.enable_flag
  where
    go : (b : Bool) → Both P (if b then record r { current = r.next } else r)
    go true = (h.0, h.0)
    go false = h

pub record IsExecuteSound (x : ExecuteState) : Type 0 where
  pub data1_word : x.data1 < 2 ^ 32
  pub data2_word : x.data2 < 2 ^ 32
  pub pc_word : x.pc_de < 2 ^ 32

pub record IsMemorySound (r : MemoryState) : Type 0 where
  pub result_word : r.alu_res < 2 ^ 32
  pub register_index : r.wb_a < 32

pub record IsWriteBackSound (w : WriteBackState) : Type 0 where
  pub value_word : w.wb_d < 2 ^ 32
  pub register_index : w.wb_a < 32

pub record IsRegFileSound (r : RegFile) : Type 0 where
  pub zero_reg : r.regs 0 ≡ 0
  pub reg_word : (i : ℕ) → r.regs i < 2 ^ 32
  pub data1_word : r.read_data1 < 2 ^ 32
  pub data2_word : r.read_data2 < 2 ^ 32

pub record IsMmuSound (m : Mmu) : Type 0 where
  pub tracked : IsTracked m
  pub cell_byte : IsBytes m.cell

-- Register 0 holds 0, the program counters, operands, results and values to be written back are below
-- 2 ^ 32, every byte of the memory is below 256 and in a chunk, and a write-back is always to one of
-- the 32 registers.
pub record AreSound (mmu : Mmu) (reg_file : RegFile) (pc : Register ℕ) (d : Register DecodeState)
    (x : Register ExecuteState) (r : Register MemoryState) (w : Register WriteBackState)
    (bypassed halted : ℕ) : Type 0 where
  pub memory : IsMmuSound mmu
  pub registers : IsRegFileSound reg_file
  pub pc_word : Both (λ pc. pc < 2 ^ 32) pc
  pub decode_word : Both (λ (d : DecodeState). d.pc_de < 2 ^ 32) d
  pub execute_sound : Both IsExecuteSound x
  pub memory_sound : Both IsMemorySound r
  pub write_back_sound : Both IsWriteBackSound w
  pub bypass_word : bypassed < 2 ^ 32
  pub halted_word : halted < 2 ^ 32

abbrev pub IsSound : PipelineModel → Type 0
IsSound m =
    AreSound m.mmu m.reg_file m.program_counter m.decode_register m.execute_register
      m.memory_register m.write_back_register m.bp_mem m.halted_wb

-- The ALU makes words of words.
pub alu-lt : (op : AluControl) (a b : ℕ) → a < 2 ^ 32 → b < 2 ^ 32 → alu op a b < 2 ^ 32
unfolding alu
alu-lt AluControl.nop a b p q = omega arith
alu-lt AluControl.add a b p q = omega arith
alu-lt AluControl.sub a b p q = omega arith
alu-lt AluControl.sll a b p q = omega arith
alu-lt AluControl.slt a b p q = ground arith
alu-lt AluControl.sltu a b p q = ground arith
alu-lt AluControl.xor a b p q = bit_xor-lt 32 a b p q
alu-lt AluControl.srl a b p q = omega (arith, div-le_self a (2 ^ bit_and b 0x1f))
alu-lt AluControl.sra a b p q = of_int32-lt (shr_ℤ (to_int32 a) (bit_and b 0x1f))
alu-lt AluControl.or a b p q = bit_or-lt 32 a b p q
alu-lt AluControl.and a b p q = bit_and-lt 32 a b p q

pub immediate-lt : (t : InstructionType) (instr sign : ℕ) → immediate_of t instr sign < 2 ^ 32
unfolding immediate_of
immediate-lt InstructionType.unknown instr sign = omega arith
immediate-lt InstructionType.r_type instr sign = omega arith
immediate-lt _ instr sign = ground arith

pub immediate_extension_block-lt : (instr : ℕ) → immediate_extension_block instr < 2 ^ 32
unfolding immediate_extension_block
immediate_extension_block-lt instr = immediate-lt _ instr _

-- The register fields of an instruction are register numbers.
pub field-lt : (x : ℕ) → u8 (bit_and x 0x1f) < 32
field-lt x = rw (bit_and_low 5 x) (omega arith)

pub get_rd-lt : (instr : ℕ) → get_rd instr < 32
unfolding get_rd
get_rd-lt instr = field-lt (instr >>> 7)

pub get_rs1-lt : (instr : ℕ) → get_rs1 instr < 32
unfolding get_rs1
get_rs1-lt instr = field-lt (instr >>> 15)

pub get_rs2-lt : (instr : ℕ) → get_rs2 instr < 32
unfolding get_rs2
get_rs2-lt instr = field-lt (instr >>> 20)

-- The stops of a cycle: a fault, `std::terminate`, and the exceptions of the stages. A register
-- index out of range is not one of them.
abbrev pub IsCycleStop : Stop → Type 0
IsCycleStop killed = Unit
IsCycleStop terminated = Unit
IsCycleStop logic_error = Unit
IsCycleStop ecall_exception = Unit
IsCycleStop ebreak_exception = Unit
IsCycleStop invalid_instruction = Unit
IsCycleStop alignment = Unit
IsCycleStop _ = ⊥

-- Code of the pipeline that keeps it sound.
abbrev pub KeepsSound : {A : Type 0} → M PipelineModel A → Type 0
KeepsSound x = IsSafe IsSound IsCycleStop x
