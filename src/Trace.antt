-- ===== src/Trace.antt =====
-- models/shared/trace_writer.h: the singleton `TraceWriter` and its three streams. A stream is the
-- bytes of the file behind it, and `none` when it is not open: what is written then is lost.
use Prim.Native.Char.{code}
use Prim.Native.String.{String}
use risc_v_co_simulator.Base.{
  ℕ, zero, suc, ◌+◌, ◌-◌, ◌/◌, ◌%◌, Bool, true, false, Option, none, some, List, [], ◌∷◌, ◌++◌, ltb,
  ◌==◌, if◌then◌else◌, u8, u32,
}

pub data TraceLevel : Type 0 where
  mmu reg_file decoder : TraceLevel

pub record TraceWriter : Type 0 where
  pub must_trace : Bool
  pub mmu_stream : Option (List ℕ)
  pub reg_file_stream : Option (List ℕ)
  pub decoder_stream : Option (List ℕ)

abbrev pub write : List ℕ → Option (List ℕ) → Option (List ℕ)
write bytes none = none
write bytes (some old) = some (old ++ bytes)

-- `trace_streams_[level].write(...)`
abbrev pub write_to : TraceLevel → List ℕ → TraceWriter → TraceWriter
write_to mmu bytes w = record w { mmu_stream = write bytes w.mmu_stream }
write_to reg_file bytes w = record w { reg_file_stream = write bytes w.reg_file_stream }
write_to decoder bytes w = record w { decoder_stream = write bytes w.decoder_stream }

-- The object representation of an unsigned integer of `size` bytes, lowest byte first.
unfoldable pub le_bytes : (size value : ℕ) → List ℕ
le_bytes zero value = []
le_bytes (suc size) value = value % 256 ∷ le_bytes size (value / 256)

-- TraceBinaryIfEnabled of a value of `size` bytes.
unfoldable pub trace_binary_if_enabled : TraceLevel → (size value : ℕ) → TraceWriter → TraceWriter
trace_binary_if_enabled level size value w =
    if w.must_trace then write_to level (le_bytes size value) w else w

-- TraceIfEnabled, given the characters that `<<` prints.
unfoldable pub trace_if_enabled : TraceLevel → List ℕ → TraceWriter → TraceWriter
trace_if_enabled level text w = if w.must_trace then write_to level text w else w

abbrev pub codes : String → List ℕ
codes String.[] = []
codes (String.◌∷◌ c s) = code c ∷ codes s

abbrev newline : ℕ
newline = 10

hex_digit : ℕ → ℕ
hex_digit d = if ltb d 10 then b'0' + d else b'a' + (d - 10)

-- The hexadecimal digits of `n` in front of `acc`; eight digits hold a `uint32_t`.
hex_above : (digits n : ℕ) → List ℕ → List ℕ
hex_above zero n acc = acc
hex_above (suc f) n acc =
    let rest = hex_above f (n / 16) (hex_digit (n % 16) ∷ acc) in if n == 0 then acc else rest

-- `stream << std::hex << n`; EnableTraces sets the flag on all three streams.
unfoldable pub hex : ℕ → List ℕ
unfolding hex_digit hex_above
hex n = if n == 0 then b'0' ∷ [] else hex_above 8 n []

-- TraceSetRegFile. The parameters are of 8, 32 and 32 bits.
unfoldable pub trace_set_reg_file :
    (readable : Bool) → String → (cmd_code vaddr value : ℕ) → TraceWriter → TraceWriter
unfolding trace_binary_if_enabled trace_if_enabled
trace_set_reg_file true cmd_str cmd_code vaddr value w =
    trace_if_enabled reg_file
      (codes cmd_str ++ (hex (u32 vaddr) ++ (b' ' ∷ hex (u32 value) ++ newline ∷ []))) w
trace_set_reg_file false cmd_str cmd_code vaddr value w =
    trace_binary_if_enabled reg_file 4 (u32 value) (
      trace_binary_if_enabled reg_file 4 (u32 vaddr)
        (trace_binary_if_enabled reg_file 1 (u8 cmd_code) w))

-- TraceSetMemory
unfoldable pub trace_set_memory :
    (readable : Bool) → String → (cmd_code vaddr value : ℕ) → TraceWriter → TraceWriter
unfolding trace_binary_if_enabled trace_if_enabled
trace_set_memory true cmd_str cmd_code vaddr value w =
    trace_if_enabled mmu
      (codes cmd_str ++ (hex (u32 vaddr) ++ (b' ' ∷ hex (u32 value) ++ newline ∷ []))) w
trace_set_memory false cmd_str cmd_code vaddr value w =
    trace_binary_if_enabled mmu 4 (u32 value)
      (trace_binary_if_enabled mmu 4 (u32 vaddr) (trace_binary_if_enabled mmu 1 (u8 cmd_code) w))

-- TraceExecutedInstruction
unfoldable pub trace_executed_instruction :
    (readable : Bool) → (instr location : ℕ) → TraceWriter → TraceWriter
unfolding trace_binary_if_enabled trace_if_enabled
trace_executed_instruction true instr location w =
    trace_if_enabled decoder
      (codes "Instruction "
        ++ (hex instr ++ (codes " (pc " ++ (hex location ++ (b')' ∷ newline ∷ [])))))
      w
trace_executed_instruction false instr location w =
    trace_binary_if_enabled decoder 4 location (trace_binary_if_enabled decoder 4 instr w)

-- OpenTraceFile on a file that is empty or absent, in append mode, where the open succeeds.
unfoldable pub open_trace_file : TraceLevel → TraceWriter → TraceWriter
open_trace_file mmu w = record w { mmu_stream = some [] }
open_trace_file reg_file w = record w { reg_file_stream = some [] }
open_trace_file decoder w = record w { decoder_stream = some [] }

-- CloseAll
unfoldable pub close_all : TraceWriter → TraceWriter
close_all w = record w { mmu_stream = none; reg_file_stream = none; decoder_stream = none }
