-- ===== src/Pipeline/Modules/Storage.antt =====
-- models/pipeline/modules/register.h, regfile.h, instr_mem_unit.h and data_mem_unit.h. The units
-- hold a pointer to the one memory of the model, which their operations take as an argument here.
use risc_v_co_simulator.Base.{
  ℕ, Bool, not, ◌&&◌, Option, none, some, ltb, ◌==◌, if◌then◌else◌, u8, u16,
}
use risc_v_co_simulator.Runtime.{Stop, killed, logic_error}
use risc_v_co_simulator.Trace.{TraceWriter, trace_set_reg_file}
use risc_v_co_simulator.Memory.{Mmu, get_word, get_half, get_byte, set_word, set_half, set_byte}
use risc_v_co_simulator.Pipeline.Modules.Gates.{sign_extend_from_byte, sign_extend_from_byte2}

pub record Register (T : Type 0) : Type 0 where
  pub enable_flag : Bool
  pub next : T
  pub current : T

abbrev pub tick : {T : Type 0} → Register T → Register T
tick r = if r.enable_flag then record r { current = r.next } else r

-- `zero` is what `T` makes of 0.
abbrev pub clear : {T : Type 0} → (zero : T) → Register T → Register T
clear zero r = record r { current = zero; next = zero }

-- RegFile
pub record RegFile : Type 0 where
  pub address1 : ℕ
  pub address2 : ℕ
  pub address3 : ℕ
  pub write_enable3 : Bool
  pub write_data3 : ℕ
  pub regs : ℕ → ℕ
  pub read_data1 : ℕ
  pub read_data2 : ℕ
  pub readable_traces : Bool

abbrev pub set_new_signals : (addr1 addr2 addr3 : ℕ) → (we3 : Bool) → (wd3 : ℕ) → RegFile → RegFile
set_new_signals addr1 addr2 addr3 we3 wd3 r = record r {
  address1 = addr1;
  address2 = addr2;
  address3 = addr3;
  write_enable3 = we3;
  write_data3 = wd3;
}

-- The write at the start of Tick; `none` is `std::out_of_range`.
unfoldable pub write_port : RegFile → TraceWriter → Option RegFile × TraceWriter
write_port r w =
    if r.write_enable3 && not (r.address3 == 0)
    then (
      if ltb r.address3 32
          then some (record r { regs = λ i. if r.address3 == i then r.write_data3 else r.regs i })
          else none,
      trace_set_reg_file r.readable_traces "set " 1 r.address3 r.write_data3 w,
    )
    else (some r, w)

-- The two reads that follow.
unfoldable pub read_ports : RegFile → Option RegFile
read_ports r =
    if ltb r.address1 32 && ltb r.address2 32
    then some (record r { read_data1 = r.regs r.address1; read_data2 = r.regs r.address2 })
    else none

-- RegFile::Tick
unfoldable pub tick_reg_file : RegFile → TraceWriter → Option RegFile × TraceWriter
unfolding write_port read_ports
tick_reg_file r w =
    let (written, w') = write_port r w in
    (elim written [ none ↦ none | some r' ↦ read_ports r' ], w')

-- DataMemUnit
pub record DataMemUnit : Type 0 where
  pub store_mode : ℕ
  pub write_enable : Bool
  pub address : ℕ
  pub write_data : ℕ
  pub read_data : ℕ

pub data Access (A : Type 0) : Type 0 where
  value : A → Access A
  failure : Stop → Access A

abbrev pub accessed : {A B : Type 0} → (A → B) → Option A → Access B
accessed f none = failure killed
accessed f (some a) = value (f a)

-- GetData: the load mode is the number in `store_mode`.
unfoldable pub get_data : DataMemUnit → Mmu → Access ℕ
get_data d m =
    if d.store_mode == 0
    then accessed sign_extend_from_byte (get_byte m d.address)
    else if d.store_mode == 1
    then accessed sign_extend_from_byte2 (get_half m d.address)
    else if d.store_mode == 2
    then accessed (λ v. v) (get_word m d.address)
    else if d.store_mode == 4
    then accessed (λ v. v) (get_byte m d.address)
    else if d.store_mode == 5
    then accessed (λ v. v) (get_half m d.address)
    else failure logic_error

abbrev stored_in : Option Mmu × TraceWriter → Access Mmu × TraceWriter
stored_in (m, w) = (accessed (λ x. x) m, w)

-- StoreValue
unfoldable pub store_value : DataMemUnit → Mmu → TraceWriter → Access Mmu × TraceWriter
store_value d m w =
    if d.store_mode == 0
    then stored_in (set_byte (u8 d.write_data) d.address m w)
    else if d.store_mode == 1
    then stored_in (set_half (u16 d.write_data) d.address m w)
    else if d.store_mode == 2
    then stored_in (set_word d.write_data d.address m w)
    else (failure logic_error, w)

abbrev pub ticked_store : DataMemUnit → Access Mmu → Access (DataMemUnit × Mmu)
ticked_store d (value m) = value (d, m)
ticked_store d (failure e) = failure e

abbrev pub ticked_load : DataMemUnit → Mmu → Access ℕ → Access (DataMemUnit × Mmu)
ticked_load d m (value v) = value (record d { read_data = v }, m)
ticked_load d m (failure e) = failure e

-- DataMemUnit::Tick
unfoldable pub tick_data_mem :
    DataMemUnit → Mmu → TraceWriter → Access (DataMemUnit × Mmu) × TraceWriter
unfolding get_data store_value
tick_data_mem d m w =
    if d.write_enable
    then (ticked_store d (store_value d m w).0, (store_value d m w).1)
    else (ticked_load d m (get_data d m), w)
