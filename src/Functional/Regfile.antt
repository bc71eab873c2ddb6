-- ===== src/Functional/Regfile.antt =====
-- models/functional/regfile.h: the register file of the interpreter. `std::array::at` throws
-- `std::out_of_range` on an index from 32 on: `none`.
use risc_v_co_simulator.Base.{
  ℕ, ◌-◌, ◌%◌, ◌^◌, Bool, Option, none, some, ltb, ◌==◌, if◌then◌else◌, bit_and,
}
use risc_v_co_simulator.Trace.{TraceWriter, trace_set_reg_file}

pub record Rv32iRegFile : Type 0 where
  pub regs : ℕ → ℕ
  pub readable_traces : Bool

abbrev pub number_of_registers : ℕ
number_of_registers = 32

abbrev pub assign : (ℕ → ℕ) → ℕ → ℕ → ℕ → ℕ
assign f i v j = if i == j then v else f j

-- `value & (0u - static_cast<uint32_t>(idx != 0))`
unfoldable pub masked : (value idx : ℕ) → ℕ
masked value idx = bit_and value ((2 ^ 32 - (if idx == 0 then 0 else 1)) % 2 ^ 32)

-- The trace comes before the bounds check.
unfoldable pub write_reg :
    (value idx : ℕ) → Rv32iRegFile → TraceWriter → Option Rv32iRegFile × TraceWriter
unfolding masked
write_reg value idx r w = (
  if ltb idx number_of_registers
      then some (record r { regs = assign r.regs idx (masked value idx) })
      else none,
  if idx == 0 then w else trace_set_reg_file r.readable_traces "set " 1 idx value w,
)

unfoldable pub read_reg : ℕ → Rv32iRegFile → Option ℕ
read_reg idx r = if ltb idx number_of_registers then some (r.regs idx) else none
