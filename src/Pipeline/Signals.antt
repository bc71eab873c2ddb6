-- ===== src/Pipeline/Signals.antt =====
-- The signals that the manual's instructions need of models/pipeline/pipeline/control_unit.h.
pub mod Encodings
use risc_v_co_simulator.Base.{ℕ, ◌^◌, ◌<◌, ◌≡◌, ◌≢◌, refl, arith, Bool, true, false, ◌||◌}
use risc_v_co_simulator.Runtime.{done, stop, ecall_exception, ebreak_exception}
use risc_v_co_simulator.Functional.Instruction.{
  Rv32i, lui, auipc, jal, jalr, beq, bne, blt, bge, bltu, bgeu, lb, lh, lw, lbu, lhu, sb, sh, sw,
  addi, slti, sltiu, xori, ori, andi, slli, srli, srai, add, sub, sll, slt, sltu, xor, srl, sra, or,
  and, fence, ecall, ebreak, unknown,
}
use risc_v_co_simulator.Pipeline.Modules.Alu.{AluControl, CmpControl}
use risc_v_co_simulator.Pipeline.Instruction.{
  InstructionType, r_type, i_type, s_type, b_type, u_type, j_type, get_instruction_type, get_opcode,
  get_funct3, get_funct7, get_rs2,
}
use risc_v_co_simulator.Pipeline.Blocks.{fields_lem}
use risc_v_co_simulator.Pipeline.Control.{
  ControlUnit, tick, check_system, alu_op_of, cmp_control_of, alu_op_reg, alu_op_imm,
}

-- The format of an instruction in the manual; FENCE is not one of the types of the source.
abbrev pub format : Rv32i → InstructionType
format lui = u_type
format auipc = u_type
format jal = j_type
format beq = b_type
format bne = b_type
format blt = b_type
format bge = b_type
format bltu = b_type
format bgeu = b_type
format sb = s_type
format sh = s_type
format sw = s_type
format add = r_type
format sub = r_type
format sll = r_type
format slt = r_type
format sltu = r_type
format xor = r_type
format srl = r_type
format sra = r_type
format or = r_type
format and = r_type
format fence = InstructionType.unknown
format unknown = InstructionType.unknown
format _ = i_type

-- The operation that computes an instruction's result, its address or its target.
abbrev pub operation_of : Rv32i → AluControl
operation_of lui = AluControl.add
operation_of auipc = AluControl.add
operation_of jalr = AluControl.add
operation_of lb = AluControl.add
operation_of lh = AluControl.add
operation_of lw = AluControl.add
operation_of lbu = AluControl.add
operation_of lhu = AluControl.add
operation_of sb = AluControl.add
operation_of sh = AluControl.add
operation_of sw = AluControl.add
operation_of addi = AluControl.add
operation_of slti = AluControl.slt
operation_of sltiu = AluControl.sltu
operation_of xori = AluControl.xor
operation_of ori = AluControl.or
operation_of andi = AluControl.and
operation_of slli = AluControl.sll
operation_of srli = AluControl.srl
operation_of srai = AluControl.sra
operation_of add = AluControl.add
operation_of sub = AluControl.sub
operation_of sll = AluControl.sll
operation_of slt = AluControl.slt
operation_of sltu = AluControl.sltu
operation_of xor = AluControl.xor
operation_of srl = AluControl.srl
operation_of sra = AluControl.sra
operation_of or = AluControl.or
operation_of and = AluControl.and
operation_of _ = AluControl.nop

-- The condition of a branch.
abbrev pub condition_of : Rv32i → CmpControl
condition_of beq = CmpControl.eq
condition_of bne = CmpControl.ne
condition_of blt = CmpControl.lt
condition_of bge = CmpControl.ge
condition_of bltu = CmpControl.ltu
condition_of bgeu = CmpControl.geu
condition_of _ = CmpControl.nop

abbrev pub is_jalr : Rv32i → Bool
is_jalr jalr = true
is_jalr _ = false

abbrev pub is_load : Rv32i → Bool
is_load lb = true
is_load lh = true
is_load lw = true
is_load lbu = true
is_load lhu = true
is_load _ = false

abbrev pub is_store : Rv32i → Bool
is_store sb = true
is_store sh = true
is_store sw = true
is_store _ = false

abbrev pub uses_memory : Rv32i → Bool
uses_memory i = is_load i || is_store i

abbrev pub is : InstructionType → InstructionType → Bool
is b_type b_type = true
is s_type s_type = true
is j_type j_type = true
is _ _ = false

-- Whether the second operand is the immediate.
abbrev pub uses_immediate : InstructionType → Bool
uses_immediate i_type = true
uses_immediate s_type = true
uses_immediate u_type = true
uses_immediate _ = false

-- Whether an instruction has a destination register. FENCE has none, and is left to the source.
abbrev pub has_destination : InstructionType → Bool
has_destination s_type = false
has_destination b_type = false
has_destination _ = true

-- `opcode`, `funct3`, `funct7` and `rs2` of the control unit, as DoDecode fills them.
abbrev pub fed : ℕ → ControlUnit → ControlUnit
fed raw c = record c {
  opcode = get_opcode raw;
  funct3 = get_funct3 raw;
  funct7 = get_funct7 raw;
  rs2 = get_rs2 raw;
}

abbrev pub signals : Rv32i → ControlUnit → ControlUnit
signals i c = record c {
  is_jalr = is_jalr i;
  wb_we = has_destination (format i);
  mem_we = is (format i) s_type;
  mem_to_reg = is_load i;
  brn_cond = is (format i) b_type;
  jmp_cond = is (format i) j_type || is_jalr i;
  cmp_control = condition_of i;
  alu_src2 = uses_immediate (format i);
  alu_op = operation_of i;
  instr_type = format i;
}
