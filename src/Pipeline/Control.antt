-- ===== src/Pipeline/Control.antt =====
-- models/pipeline/pipeline/control_unit.h: the control signals of an instruction.
use risc_v_co_simulator.Base.{
  ℕ, Bool, true, false, not, ◌&&◌, ◌||◌, Option, none, some, ◌==◌, if◌then◌else◌,
}
use risc_v_co_simulator.Runtime.{
  terminated, ecall_exception, ebreak_exception, invalid_instruction, done, stop, M, ◌>>=◌, ◌>>◌,
  modify, or_throw,
}
use risc_v_co_simulator.Pipeline.Modules.Alu.{AluControl, CmpControl}
use risc_v_co_simulator.Pipeline.Instruction.{
  InstructionType, i_type, s_type, u_type, get_instruction_type,
}
use risc_v_co_simulator.Pipeline.Stages.{ExecuteState}

pub record ControlUnit : Type 0 where
  pub opcode : ℕ
  pub funct3 : ℕ
  pub funct7 : ℕ
  pub rs2 : ℕ
  pub is_jalr : Bool
  pub wb_we : Bool
  pub mem_we : Bool
  pub mem_to_reg : Bool
  pub brn_cond : Bool
  pub jmp_cond : Bool
  pub cmp_control : CmpControl
  pub alu_src2 : Bool
  pub alu_op : AluControl
  pub instr_type : InstructionType

-- LoadControlSignals
unfoldable pub load_control_signals : ControlUnit → ExecuteState → ExecuteState
load_control_signals c next_state = record next_state {
  alu_op = c.alu_op;
  alu_src2 = c.alu_src2;
  is_jalr = c.is_jalr;
  wb_we = c.wb_we;
  mem_we = c.mem_we;
  mem_to_reg = c.mem_to_reg;
  brn_cond = c.brn_cond;
  jmp_cond = c.jmp_cond;
  cmp_control = c.cmp_control;
  funct3 = c.funct3;
}

-- ECALL and EBREAK end the run by exceptions.
unfoldable pub check_system : (debug : Bool) → M ControlUnit (Unit {0})
check_system debug c =
    if c.opcode == 0b1110011
    then (if debug && not (c.funct3 == 0 && c.funct7 == 0)
        then stop terminated c
        else if c.rs2 == 0
        then stop ecall_exception c
        else if c.rs2 == 1
        then stop ebreak_exception c
        else stop invalid_instruction c)
    else done tt c

-- Whether an operand of the ALU is the immediate.
abbrev takes_immediate : InstructionType → Bool
takes_immediate i_type = true
takes_immediate s_type = true
takes_immediate u_type = true
takes_immediate _ = false

-- `is_jalr`, `wb_we`, `mem_we`, the type and `alu_src2`.
abbrev pub set_types : ControlUnit → ControlUnit
set_types c =
    let op = c.opcode in
    record c {
      is_jalr = op == 0b1100111;
      wb_we = not (op == 0b0100011 || (op == 0b1100011 || op == 0b1110011));
      mem_we = op == 0b0100011;
      instr_type = get_instruction_type op;
      alu_src2 = takes_immediate (get_instruction_type op);
    }

-- The `switch` for opcode 0110011; `none` is InvalidInstructionException.
unfoldable pub alu_op_reg : (funct3 funct7 : ℕ) → Option AluControl
alu_op_reg funct3 funct7 =
    if funct3 == 0b000
    then (if funct7 == 0
        then some AluControl.add
        else if funct7 == 0b0100000
        then some AluControl.sub
        else none)
    else if funct3 == 0b001
    then some AluControl.sll
    else if funct3 == 0b010
    then some AluControl.slt
    else if funct3 == 0b011
    then some AluControl.sltu
    else if funct3 == 0b100
    then some AluControl.xor
    else if funct3 == 0b101
    then (if funct7 == 0
        then some AluControl.srl
        else if funct7 == 0b0100000
        then some AluControl.sra
        else none)
    else if funct3 == 0b110
    then some AluControl.or
    else if funct3 == 0b111
    then some AluControl.and
    else none

-- The `switch` for opcode 0010011.
unfoldable pub alu_op_imm : (funct3 funct7 : ℕ) → Option AluControl
alu_op_imm funct3 funct7 =
    if funct3 == 0b000
    then some AluControl.add
    else if funct3 == 0b010
    then some AluControl.slt
    else if funct3 == 0b011
    then some AluControl.sltu
    else if funct3 == 0b100
    then some AluControl.xor
    else if funct3 == 0b110
    then some AluControl.or
    else if funct3 == 0b111
    then some AluControl.and
    else if funct3 == 0b001
    then (if funct7 == 0 then some AluControl.sll else none)
    else if funct3 == 0b101
    then (if funct7 == 0
        then some AluControl.srl
        else if funct7 == 0b0100000
        then some AluControl.sra
        else none)
    else none

abbrev is_u_type : InstructionType → Bool
is_u_type u_type = true
is_u_type _ = false

-- The choice of `alu_op`.
unfoldable pub alu_op_of : ControlUnit → Option AluControl
unfolding alu_op_reg alu_op_imm
alu_op_of c =
    let op = c.opcode in
    if op == 0b0110011
    then alu_op_reg c.funct3 c.funct7
    else if op == 0b0010011
    then alu_op_imm c.funct3 c.funct7
    else if is_u_type c.instr_type || (op == 0b1100111 || (op == 0b0000011 || op == 0b0100011))
    then some AluControl.add
    else some AluControl.nop

-- `brn_cond`, `jmp_cond` and `mem_to_reg`.
abbrev pub set_jumps : ControlUnit → ControlUnit
set_jumps c =
    let op = c.opcode in
    record c {
      brn_cond = op == 0b1100011;
      jmp_cond = op == 0b1101111 || op == 0b1100111;
      mem_to_reg = op == 0b0000011;
    }

-- The choice of `cmp_control`.
unfoldable pub cmp_control_of : ControlUnit → Option CmpControl
cmp_control_of c =
    if not (c.opcode == 0b1100011)
    then some CmpControl.nop
    else if c.funct3 == 0
    then some CmpControl.eq
    else if c.funct3 == 0b001
    then some CmpControl.ne
    else if c.funct3 == 0b100
    then some CmpControl.lt
    else if c.funct3 == 0b101
    then some CmpControl.ge
    else if c.funct3 == 0b110
    then some CmpControl.ltu
    else if c.funct3 == 0b111
    then some CmpControl.geu
    else none

abbrev pub set_alu_op : M ControlUnit (Unit {0})
set_alu_op c =
    (or_throw invalid_instruction (alu_op_of c) >>= λ op. modify λ c. record c { alu_op = op }) c

abbrev pub set_cmp_control : M ControlUnit (Unit {0})
set_cmp_control c =
    (or_throw invalid_instruction (cmp_control_of c) >>= λ op.
    modify λ c. record c { cmp_control = op })
      c

-- ControlUnit::Tick. The signals that are set before an exception keep their new values.
unfoldable pub tick : (debug : Bool) → M ControlUnit (Unit {0})
unfolding check_system alu_op_of cmp_control_of get_instruction_type
tick debug = do check_system debug; modify set_types; set_alu_op; modify set_jumps; set_cmp_control
