-- ===== src/Pipeline/Sound/Execute.antt =====
-- DoExecute of models/pipeline/pipeline.cpp keeps the pipeline sound.
use risc_v_co_simulator.Base.{
  ℕ, ◌^◌, ◌<◌, arith, Bool, true, false, Option, none, some, if◌then◌else◌,
}
use risc_v_co_simulator.Runtime.{terminated, modify, or_throw, ◌>>=◌}
use risc_v_co_simulator.Runtime.Safe.{IsGood, IsSafe}
use risc_v_co_simulator.Pipeline.Modules.Alu.{alu}
use risc_v_co_simulator.Pipeline.Modules.Gates.{add_words, multiplexer2, multiplexer3}
use risc_v_co_simulator.Pipeline.Instruction.{immediate_extension_block}
use risc_v_co_simulator.Pipeline.Stages.{BypassOptionsEncoding, encoding, is_wb}
use risc_v_co_simulator.Pipeline.Model.{
  PipelineModel, LoadConflictUsedWb, trace_executed, used_rs1, used_rs2, unused,
}
use risc_v_co_simulator.Pipeline.Execute.{
  do_execute, drive, executed, save_halted_wb, source_a, source_rs2, trace_stage,
}
use risc_v_co_simulator.Pipeline.Sound.{
  IsSound, IsCycleStop, KeepsSound, alu-lt, immediate_extension_block-lt, get_rd-lt,
}

-- A multiplexer under the hazard unit's control chooses among three words.
abbrev IsWord : Option ℕ → Type 0
IsWord none = ⊥
IsWord (some v) = v < 2 ^ 32

multiplexer3-IsWord :
    (c : BypassOptionsEncoding) (x y z : ℕ)
    → x < 2 ^ 32
    → y < 2 ^ 32
    → z < 2 ^ 32
    → IsWord (multiplexer3 (encoding c) x y z)
unfolding multiplexer3
multiplexer3-IsWord BypassOptionsEncoding.reg x y z p q r = p
multiplexer3-IsWord BypassOptionsEncoding.mem x y z p q r = q
multiplexer3-IsWord BypassOptionsEncoding.wb x y z p q r = r

modified-lt :
    (c : LoadConflictUsedWb) (x h : ℕ)
    → x < 2 ^ 32
    → h < 2 ^ 32
    → ((elim c [ used_rs1 ↦ h | _ ↦ x ]) < 2 ^ 32) × ((elim c [ used_rs2 ↦ h | _ ↦ x ]) < 2 ^ 32)
modified-lt unused x h p q = (p, p)
modified-lt used_rs1 x h p q = (q, p)
modified-lt used_rs2 x h p q = (p, q)

module _ (m : PipelineModel) (ok : IsSound m) where
  source_a-IsWord : IsWord (source_a m)
  unfolding source_a
  source_a-IsWord =
      multiplexer3-IsWord m.hu_rs1 _ _ _
        (modified-lt m.must_take_halted_wb _ _ ok.execute_sound.1.data1_word ok.halted_word).0
        ok.bypass_word ok.write_back_sound.1.value_word

  source_rs2-IsWord : IsWord (source_rs2 m)
  unfolding source_rs2
  source_rs2-IsWord =
      multiplexer3-IsWord m.hu_rs2 _ _ _
        (modified-lt m.must_take_halted_wb _ _ ok.execute_sound.1.data2_word ok.halted_word).1
        ok.bypass_word ok.write_back_sound.1.value_word

  -- What the execute stage drives.
  drive-IsSound : (a v : ℕ) → a < 2 ^ 32 → v < 2 ^ 32 → IsSound (drive a v m)
  unfolding drive executed
  drive-IsSound a v p q =
      let x = m.execute_register.current in
      record {
        memory = ok.memory;
        registers = ok.registers;
        pc_word = ok.pc_word;
        decode_word = ok.decode_word;
        execute_sound = ok.execute_sound;
        memory_sound = (
          record { result_word = result x.jmp_cond x.alu_src2; register_index = get_rd-lt x.instr },
          ok.memory_sound.1,
        );
        write_back_sound = ok.write_back_sound;
        bypass_word = ok.bypass_word;
        halted_word = ok.halted_word;
      }
    where
      result :
          (j s : Bool)
          → (if j
              then add_words m.execute_register.current.pc_de 4
              else alu m.execute_register.current.alu_op a
                  (multiplexer2 s v (immediate_extension_block m.execute_register.current.instr)))
            < 2 ^ 32
      result true s = omega arith
      result false true =
          alu-lt _ a _ p (immediate_extension_block-lt m.execute_register.current.instr)
      result false false = alu-lt _ a v p q

  save_halted_wb-IsSound : IsSound (save_halted_wb m)
  unfolding save_halted_wb
  save_halted_wb-IsSound = go m.execute_register.enable_flag (is_wb m.hu_rs1) (is_wb m.hu_rs2)
    where
      saved :
          (u : LoadConflictUsedWb)
          → IsSound
              (record m { must_take_halted_wb = u; halted_wb = m.write_back_register.current.wb_d })
      saved u = record {
        memory = ok.memory;
        registers = ok.registers;
        pc_word = ok.pc_word;
        decode_word = ok.decode_word;
        execute_sound = ok.execute_sound;
        memory_sound = ok.memory_sound;
        write_back_sound = ok.write_back_sound;
        bypass_word = ok.bypass_word;
        halted_word = ok.write_back_sound.1.value_word;
      }

      go :
          (a b c : Bool)
          → IsSound (
              if a
              then record m { must_take_halted_wb = unused }
              else if b
              then record m {
                must_take_halted_wb = used_rs1;
                halted_wb = m.write_back_register.current.wb_d;
              }
              else if c
              then record m {
                must_take_halted_wb = used_rs2;
                halted_wb = m.write_back_register.current.wb_d;
              }
              else m)
      go true b c = ok
      go false true c = saved used_rs1
      go false false true = saved used_rs2
      go false false false = ok

or_terminated-KeepsSound :
    (o : Option ℕ) → IsWord o → IsSafe IsSound IsCycleStop (or_throw terminated o)
or_terminated-KeepsSound none h = absurd h
or_terminated-KeepsSound (some v) h = record { safe = λ m ok. ok }

-- The execute stage on its operands.
stage_lem :
    (a v : ℕ) (m : PipelineModel)
    → a < 2 ^ 32
    → v < 2 ^ 32
    → IsSound m
    → IsSound (save_halted_wb (trace_stage (drive a v m)))
unfolding trace_executed
stage_lem a v m p q ok =
    save_halted_wb-IsSound _ (traced (drive a v m) (drive-IsSound m ok a v p q))
  where
    traced : (m : PipelineModel) → IsSound m → IsSound (trace_stage m)
    traced m ok = go m.execute_register.enable_flag
      where
        go :
            (b : Bool)
            → IsSound (
                if b
                then trace_executed m.execute_register.current.instr
                    m.execute_register.current.pc_de m
                else m)
        go true = ok
        go false = ok

pub do_execute-KeepsSound : KeepsSound do_execute
unfolding do_execute
do_execute-KeepsSound = record {
  safe =
      λ m ok. go m ok (source_a m) (source_a-IsWord m ok) (source_rs2 m) (source_rs2-IsWord m ok);
}
  where
    go :
        (m : PipelineModel)
        → IsSound m
        → (o : Option ℕ) → IsWord o
        → (o' : Option ℕ) → IsWord o'
        → IsGood {S = PipelineModel} {A = Unit {0}} IsSound IsCycleStop (
            (or_throw terminated o >>= λ src_a. or_throw terminated o' >>= λ rs2v.
            modify λ m. save_halted_wb (trace_stage (drive src_a rs2v m)))
              m)
    go m ok none h o' h' = absurd h
    go m ok (some a) h none h' = absurd h'
    go m ok (some a) h (some v) h' = stage_lem a v m h h' ok
