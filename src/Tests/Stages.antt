-- ===== src/Tests/Stages.antt =====
-- Instances of the theorems on the pipeline.
use risc_v_co_simulator.Base.{◌≡◌, refl, arith, true}
use risc_v_co_simulator.Runtime.{done, stop}
use risc_v_co_simulator.Isa
use risc_v_co_simulator.Functional.Instruction.{add, beq, ebreak, sh}
use risc_v_co_simulator.Functional.Refines.State.{view}
use risc_v_co_simulator.Pipeline.Modules.Alu.{AluControl, CmpControl, alu, cmp}
use risc_v_co_simulator.Pipeline.Instruction.{immediate_extension_block}
use risc_v_co_simulator.Pipeline.Blocks.{
  alu-operation, operation, cmp-condition, condition, immediate,
}
use risc_v_co_simulator.Pipeline.Control.{tick}
use risc_v_co_simulator.Pipeline.Signals.{fed, signals, format}
use risc_v_co_simulator.Pipeline.Signals.Encodings.{tick-signals, tick-system, exception_of}
use risc_v_co_simulator.Pipeline.Datapath.{imm_lem}
use risc_v_co_simulator.Pipeline.Datapath.Memory.{alone}
use risc_v_co_simulator.Pipeline.Datapath.Store.{memory-Refines}
use risc_v_co_simulator.Tests.Machines.{interpreter, pipeline, sum_program}
use risc_v_co_simulator.Tests.Valid.{interpreter-IsValid}

-- sh x2, 0(x1)
memory-Refines_example :
    alone 0x00209023 (view (interpreter sum_program)) (pipeline sum_program) sh
    ≡ Isa.exec sh 0x00209023 (view (interpreter sum_program))
memory-Refines_example =
    memory-Refines 0x00209023 (omega arith) (view (interpreter sum_program))
      (interpreter-IsValid sum_program) (pipeline sum_program) sh
      (record { opcode_field = refl; funct3_field = refl; funct7_field = tt; rs2_field = tt }) refl

tick-signals_example :
    tick true (fed 0x002081b3 (pipeline sum_program).control_unit)
    ≡ done tt (signals add (fed 0x002081b3 (pipeline sum_program).control_unit))
tick-signals_example =
    tick-signals 0x002081b3 (omega arith) true (pipeline sum_program).control_unit add
      (ground arith) (ground arith)
      (record { opcode_field = refl; funct3_field = refl; funct7_field = refl; rs2_field = tt })

tick-system_example :
    tick true (fed 0x00100073 (pipeline sum_program).control_unit)
    ≡ stop (exception_of ebreak) (fed 0x00100073 (pipeline sum_program).control_unit)
tick-system_example =
    tick-system 0x00100073 (omega arith) true (pipeline sum_program).control_unit ebreak
      (record { opcode_field = refl; funct3_field = refl; funct7_field = refl; rs2_field = refl })
      refl

alu-operation_example :
    alu AluControl.sra 0x80000000 1027 ≡ operation AluControl.sra 0x80000000 1027
alu-operation_example = alu-operation 0x80000000 1027 (omega arith) (omega arith) AluControl.sra

cmp-condition_example : cmp CmpControl.lt 0xffffffff 1 ≡ condition CmpControl.lt 0xffffffff 1
cmp-condition_example = cmp-condition 0xffffffff 1 (omega arith) (omega arith) CmpControl.lt

-- beq x1, x2, -4
imm_lem_example : immediate_extension_block 0xfe208ee3 ≡ immediate (format beq) 0xfe208ee3
imm_lem_example =
    imm_lem 0xfe208ee3 (omega arith) beq
      (record { opcode_field = refl; funct3_field = refl; funct7_field = tt; rs2_field = tt })
