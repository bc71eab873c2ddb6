-- ===== src/Memory.antt =====
-- models/shared/mmu_fixed_offset.h: the memory that both models run on. `Translate` adds the host
-- address of the area, so an address is its offset in the area; offsets do not wrap at 2 ^ 32, as
-- the host's pointers are wider. A page that is not mapped has no bytes, and an access to it kills
-- the process.
pub mod Access
pub mod Allocate
pub mod Chunks
pub mod Allocated
pub mod Fill
pub mod Grants
pub mod Stops
pub mod Steps
use risc_v_co_simulator.Base.{
  ℕ, zero, suc, ◌+◌, ◌*◌, ◌-◌, ◌/◌, ◌%◌, ◌^◌, Bool, Option, none, some, List, ◌==◌, if◌then◌else◌,
  u8, u16, u32,
}
use risc_v_co_simulator.Trace.{TraceWriter, trace_set_memory}

abbrev pub Cells : Type 0
Cells = ℕ → Option ℕ

pub record Mmu : Type 0 where
  pub cell : Cells
  pub allocated_chunks : List (ℕ × ℕ)
  pub readable_traces : Bool

abbrev pub size : ℕ
size = 2 ^ 32 - 1

abbrev pub null_size : ℕ
null_size = 4096

abbrev pub page_size : ℕ
page_size = 4096

-- A load of `n` bytes, little-endian.
unfoldable pub read_bytes : (n : ℕ) → Cells → (p : ℕ) → Option ℕ
read_bytes zero c p = some 0
read_bytes (suc n) c p = elim (c p) [
  | none ↦ none
  | some b ↦ elim (read_bytes n c (p + 1)) [ none ↦ none | some v ↦ some (b + 256 * v) ]
]

abbrev pub update : Cells → ℕ → ℕ → Cells
update c p b q = if p == q then some b else c q

-- A store of `n` bytes: all of it, or a fault before any byte has changed.
unfoldable pub write_bytes : (n value : ℕ) → (p : ℕ) → Cells → Option Cells
write_bytes zero value p c = some c
write_bytes (suc n) value p c = elim (c p) [
  | none ↦ none
  | some _ ↦ write_bytes n (value / 256) (p + 1) (update c p (value % 256))
]

unfoldable pub get_word : Mmu → ℕ → Option ℕ
get_word m vaddr = read_bytes 4 m.cell vaddr

unfoldable pub get_half : Mmu → ℕ → Option ℕ
get_half m vaddr = read_bytes 2 m.cell vaddr

unfoldable pub get_byte : Mmu → ℕ → Option ℕ
get_byte m vaddr = read_bytes 1 m.cell vaddr

abbrev pub with_cells : Mmu → Option Cells → Option Mmu
with_cells m none = none
with_cells m (some c) = some (record m { cell = c })

-- The setters trace before they store: the trace of a store that faults is written.
unfoldable pub set_word : (value vaddr : ℕ) → Mmu → TraceWriter → Option Mmu × TraceWriter
set_word value vaddr m w = (
  with_cells m (write_bytes 4 value vaddr m.cell),
  trace_set_memory m.readable_traces "setw " 2 vaddr value w,
)

unfoldable pub set_half : (value vaddr : ℕ) → Mmu → TraceWriter → Option Mmu × TraceWriter
set_half value vaddr m w = (
  with_cells m (write_bytes 2 value vaddr m.cell),
  trace_set_memory m.readable_traces "seth " 1 vaddr value w,
)

unfoldable pub set_byte : (value vaddr : ℕ) → Mmu → TraceWriter → Option Mmu × TraceWriter
set_byte value vaddr m w = (
  with_cells m (write_bytes 1 value vaddr m.cell),
  trace_set_memory m.readable_traces "setb " 0 vaddr value w,
)

unfoldable pub align_up : ℕ → ℕ
align_up vaddr = u32 (u32 (vaddr + (page_size - 1)) / page_size * page_size)

unfoldable pub align_down : ℕ → ℕ
align_down vaddr = vaddr - vaddr % page_size
