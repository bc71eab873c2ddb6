-- ===== src/Pipeline/Stages.antt =====
-- models/pipeline/pipeline/stages_states.h and hazard_unit.h: what the registers between the stages
-- hold, with the values that their constructors make of 0.
use risc_v_co_simulator.Base.{ℕ, Bool, true, false}
use risc_v_co_simulator.Pipeline.Modules.Alu.{AluControl, CmpControl}

pub data BypassOptionsEncoding : Type 0 where
  reg mem wb : BypassOptionsEncoding

-- static_cast<uint8_t>
abbrev pub encoding : BypassOptionsEncoding → ℕ
encoding reg = 0
encoding mem = 1
encoding wb = 2

-- `enc == BypassOptionsEncoding::WB`
abbrev pub is_wb : BypassOptionsEncoding → Bool
is_wb wb = true
is_wb reg = false
is_wb mem = false

pub record DecodeState : Type 0 where
  pub v_de : Bool
  pub pc_de : ℕ
  pub instr : ℕ

abbrev pub decode_zero : DecodeState
decode_zero = record { v_de = false; pc_de = 0; instr = 0 }

pub record ExecuteState : Type 0 where
  pub funct3 : ℕ
  pub is_jalr : Bool
  pub alu_op : AluControl
  pub alu_src2 : Bool
  pub mem_to_reg : Bool
  pub wb_we : Bool
  pub mem_we : Bool
  pub cmp_control : CmpControl
  pub brn_cond : Bool
  pub jmp_cond : Bool
  pub v_de : Bool
  pub data1 : ℕ
  pub data2 : ℕ
  pub pc_de : ℕ
  pub instr : ℕ

abbrev pub execute_zero : ExecuteState
execute_zero = record {
  funct3 = 0;
  is_jalr = false;
  alu_op = AluControl.nop;
  alu_src2 = false;
  mem_to_reg = false;
  wb_we = false;
  mem_we = false;
  cmp_control = CmpControl.nop;
  brn_cond = false;
  jmp_cond = false;
  v_de = false;
  data1 = 0;
  data2 = 0;
  pc_de = 0;
  instr = 0;
}

pub record MemoryState : Type 0 where
  pub mem_we : Bool
  pub mem_to_reg : Bool
  pub wb_we : Bool
  pub jmp_cond : Bool
  pub store_mode : ℕ
  pub write_data : ℕ
  pub alu_res : ℕ
  pub wb_a : ℕ

abbrev pub memory_zero : MemoryState
memory_zero = record {
  mem_we = false;
  mem_to_reg = false;
  wb_we = false;
  jmp_cond = false;
  store_mode = 0;
  write_data = 0;
  alu_res = 0;
  wb_a = 0;
}

pub record WriteBackState : Type 0 where
  pub wb_we : Bool
  pub wb_d : ℕ
  pub wb_a : ℕ

abbrev pub write_back_zero : WriteBackState
write_back_zero = record { wb_we = false; wb_d = 0; wb_a = 0 }
