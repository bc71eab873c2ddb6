-- ===== src/Tests/Interpreter.antt =====
-- Instances of the theorems on the interpreter.
use risc_v_co_simulator.Base.{◌+◌, ◌/◌, ◌%◌, ◌*◌, ◌^◌, ◌<◌, ◌≡◌, refl, arith, true, false, some}
use risc_v_co_simulator.Runtime.{sar}
use risc_v_co_simulator.Isa
use risc_v_co_simulator.Functional.Instruction.{
  add, sh, lbu, lhu, sb, sub, rd, get_imm_i, get_imm_s, get_imm_b, get_imm_u, get_imm_j,
}
use risc_v_co_simulator.Functional.Decoder.{decode}
use risc_v_co_simulator.Functional.Complete.{decode-Encodes}
use risc_v_co_simulator.Functional.Handlers.{handle, run}
use risc_v_co_simulator.Functional.Handlers.Control.{handle_jalr}
use risc_v_co_simulator.Functional.Handlers.Memory.{handle_lb, handle_lh, handle_sh}
use risc_v_co_simulator.Functional.Interpreted.{interpreted, follow, walk}
use risc_v_co_simulator.Functional.Immediates.{get_imm-eq}
use risc_v_co_simulator.Functional.Refines.State.{view, effect}
use risc_v_co_simulator.Functional.Refines.Handle.{handle-Refines, handle-interpreted}
use risc_v_co_simulator.Functional.Refines.Control.{jalr-clobbers}
use risc_v_co_simulator.Functional.Refines.Memory.{narrow-Refines}
use risc_v_co_simulator.Functional.Refines.Shifts.{sar-Agrees}
use risc_v_co_simulator.Functional.Refines.Loop.{run-walk}
use risc_v_co_simulator.Functional.Refines.Safety.{run-IsOrderly, IsOrderly}
use risc_v_co_simulator.Tests.Machines.{x86, interpreter, sum_program, load_use_program}
use risc_v_co_simulator.Tests.Valid.{interpreter-IsValid, x86-MasksCounts}

-- add x3, x1, x2
handle-Refines_example :
    effect (handle x86 add 0x002081b3 (interpreter sum_program))
    ≡ Isa.exec add 0x002081b3 (view (interpreter sum_program))
unfolding Isa.exec Isa.apply
handle-Refines_example =
    handle-Refines 0x002081b3 (omega arith) (interpreter sum_program)
      (interpreter-IsValid sum_program) x86 x86-MasksCounts add (ground arith) (ground arith)
      (ground arith) (ground arith) (λ h. absurd (ground (arith, h)))

handle-interpreted_example :
    effect (handle x86 sh 0x00209023 (interpreter sum_program))
    ≡ interpreted sh 0x00209023 (view (interpreter sum_program))
handle-interpreted_example =
    handle-interpreted 0x00209023 (omega arith) (interpreter sum_program)
      (interpreter-IsValid sum_program) x86 x86-MasksCounts sh

run-walk_example :
    effect (run x86 10 (interpreter sum_program))
    ≡ follow false (walk false interpreted 10) (Isa.next (view (interpreter sum_program)))
run-walk_example =
    run-walk x86 x86-MasksCounts 10 (interpreter sum_program) (interpreter-IsValid sum_program)

run-IsOrderly_example : IsOrderly (effect (run x86 20 (interpreter load_use_program)))
run-IsOrderly_example =
    run-IsOrderly x86 20 (interpreter load_use_program) x86-MasksCounts
      (interpreter-IsValid load_use_program)

-- jalr x1, 8(x1)
jalr-clobbers_example :
    effect (handle_jalr 0x008080e7 (interpreter sum_program))
    ≡ Isa.next (record (view (interpreter sum_program)) {
      pc = (4096 + 4 + Isa.imm_i 0x008080e7) % 2 ^ 32 / 2 * 2;
      x = Isa.put (interpreter sum_program).registers.regs (rd 0x008080e7) ((4096 + 4) % 2 ^ 32);
    })
jalr-clobbers_example =
    jalr-clobbers 0x008080e7 (omega arith) (interpreter sum_program)
      (interpreter-IsValid sum_program) (omega arith) (ground arith)

-- The fields of one word, read as LB, LH and SH.
narrow-Refines_example :
    (effect (handle_lb 0x00209083 (interpreter sum_program))
      ≡ Isa.exec lbu 0x00209083 (view (interpreter sum_program)))
    × (effect (handle_lh 0x00209083 (interpreter sum_program))
        ≡ Isa.exec lhu 0x00209083 (view (interpreter sum_program)))
    × (effect (handle_sh 0x00209083 (interpreter sum_program))
        ≡ Isa.exec sb 0x00209083 (view (interpreter sum_program)))
narrow-Refines_example =
    narrow-Refines 0x00209083 (omega arith) (interpreter sum_program)
      (interpreter-IsValid sum_program)

-- addi x1, x0, -1
-- An instruction whose bits are all set but the opcode's.
get_imm-eq_example :
    (get_imm_i 0xffffff93 ≡ Isa.imm_i 0xffffff93)
    × (get_imm_s 0xffffff93 ≡ Isa.imm_s 0xffffff93)
    × (get_imm_b 0xffffff93 ≡ Isa.imm_b 0xffffff93)
    × (get_imm_u 0xffffff93 ≡ Isa.imm_u 0xffffff93)
    × (get_imm_j 0xffffff93 ≡ Isa.imm_j 0xffffff93)
get_imm-eq_example = get_imm-eq 0xffffff93 (omega arith)

-- The count 1027 is that of an SRAI by 3 as the interpreter takes it.
sar-Agrees_example :
    (sar x86 0x80000000 1027 ≡ Isa.shift_right_arith 0x80000000 1027)
    × (sar x86 0x80000000 1027 < 2 ^ 32)
sar-Agrees_example = sar-Agrees x86 x86-MasksCounts 0x80000000 1027 (omega arith) (omega arith)

-- sub x3, x1, x2
decode-Encodes_example : decode true 0x402081b3 ≡ some sub
decode-Encodes_example =
    decode-Encodes 0x402081b3 (omega arith) true sub
      (record { opcode_field = refl; funct3_field = refl; funct7_field = refl; rs2_field = tt })
