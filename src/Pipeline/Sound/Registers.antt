-- ===== src/Pipeline/Sound/Registers.antt =====
-- The register file and DoLastTicks of models/pipeline/pipeline.cpp keep the pipeline sound.
use risc_v_co_simulator.Base.{
  ℕ, ◌^◌, ◌<◌, ◌≡◌, arith, false, not, ◌&&◌, ◌==◌, Option, none, some, if◌then◌else◌, lt→ltb,
  Bool-cases, inl, inr,
}
use risc_v_co_simulator.Runtime.{Stop, Outcome, done, stop, M, ◌>>=◌, modify}
use risc_v_co_simulator.Runtime.Safe.{IsGood, bind-IsSafe}
use risc_v_co_simulator.Trace.{TraceWriter}
use risc_v_co_simulator.Pipeline.Modules.Storage.{
  RegFile, set_new_signals, tick_reg_file, write_port, read_ports, tick as tick_register,
}
use risc_v_co_simulator.Pipeline.Model.{PipelineModel}
use risc_v_co_simulator.Pipeline.Tick.{reg_file_tick, do_memory, do_last_ticks}
use risc_v_co_simulator.Pipeline.Sound.{
  IsRegFileSound, IsSound, IsCycleStop, KeepsSound, tick-Both, IsMemorySound, IsWriteBackSound,
}
use risc_v_co_simulator.Pipeline.Sound.Memory.{do_memory-KeepsSound}

-- A register file that is there and sound.
abbrev IsSome : Option RegFile → Type 0
IsSome none = ⊥
IsSome (some r) = IsRegFileSound r

read_ports-IsSome :
    (r : RegFile) → IsRegFileSound r → r.address1 < 32 → r.address2 < 32 → IsSome (read_ports r)
unfolding read_ports
read_ports-IsSome r ok p q =
    rw (lt→ltb _ 32 p, lt→ltb _ 32 q)
      (record {
        zero_reg = ok.zero_reg;
        reg_word = ok.reg_word;
        data1_word = ok.reg_word r.address1;
        data2_word = ok.reg_word r.address2;
      })

-- The file after a write to register `a` that is not register 0.
abbrev written : ℕ → ℕ → RegFile → RegFile
written a v r = record r { regs = λ i. if a == i then v else r.regs i }

written-IsRegFileSound :
    (a v : ℕ) (r : RegFile)
    → (a == 0) ≡ false
    → v < 2 ^ 32
    → IsRegFileSound r
    → IsRegFileSound (written a v r)
written-IsRegFileSound a v r other word ok = record {
  zero_reg = rw other ok.zero_reg;
  reg_word = λ i. ground (arith, ok.reg_word i);
  data1_word = ok.data1_word;
  data2_word = ok.data2_word;
}

-- A tick of the register file with its addresses in range gives a file: the write leaves
-- register 0 alone, and the reads find their registers.
tick_reg_file-IsSome :
    (r : RegFile) (w : TraceWriter)
    → IsRegFileSound r
    → r.address1 < 32
    → r.address2 < 32
    → r.address3 < 32
    → r.write_data3 < 2 ^ 32
    → IsSome ((tick_reg_file r w).0)
unfolding tick_reg_file write_port
tick_reg_file-IsSome r w ok p q index word =
    elim (Bool-cases (r.write_enable3 && not (r.address3 == 0))) [
      | inr f ↦ rw (tick_reg_file, write_port, f) (read_ports-IsSome r ok p q)
      | inl t ↦
          rw (tick_reg_file, write_port, t, lt→ltb _ 32 index)
            (read_ports-IsSome (written r.address3 r.write_data3 r)
              (written-IsRegFileSound r.address3 r.write_data3 r (ground arith) word ok) p q)
    ]

pub with_registers :
    (m : PipelineModel) (r : RegFile)
    → IsRegFileSound r
    → IsSound m
    → IsSound (record m { reg_file = r })
with_registers m r h ok = record {
  memory = ok.memory;
  registers = h;
  pc_word = ok.pc_word;
  decode_word = ok.decode_word;
  execute_sound = ok.execute_sound;
  memory_sound = ok.memory_sound;
  write_back_sound = ok.write_back_sound;
  bypass_word = ok.bypass_word;
  halted_word = ok.halted_word;
}

pub reg_file_tick-KeepsSound : (a b : ℕ) → a < 32 → b < 32 → KeepsSound (reg_file_tick a b)
unfolding reg_file_tick
reg_file_tick-KeepsSound a b p q = record {
  safe = λ m ok.
      let v = m.write_back_register.current in
      let r = set_new_signals a b v.wb_a v.wb_we v.wb_d m.reg_file in
      let sound = ok.write_back_sound.1 in
      let same : IsRegFileSound r = record {
        zero_reg = ok.registers.zero_reg;
        reg_word = ok.registers.reg_word;
        data1_word = ok.registers.data1_word;
        data2_word = ok.registers.data2_word;
      } in
      go m ok (tick_reg_file r m.writer)
        (tick_reg_file-IsSome r m.writer same p q sound.register_index sound.value_word);
}
  where
    go :
        (m : PipelineModel)
        → IsSound m
        → (x : Option RegFile × TraceWriter) → IsSome (x.0)
        → IsGood IsSound IsCycleStop (elim (x.0) as (λ _. Outcome PipelineModel (Unit {0})) [
          | none ↦ stop Stop.out_of_range (record m { writer = x.1 })
          | some r ↦ done tt (record m { reg_file = r; writer = x.1 })
        ])
    go m ok (none, w) h = absurd h
    go m ok (some r, w) h = with_registers m r h ok

abbrev last : PipelineModel → PipelineModel
last m = record m { write_back_register = tick_register m.write_back_register }

abbrev both : PipelineModel → PipelineModel
both m = record m {
  memory_register = tick_register m.memory_register;
  write_back_register = tick_register m.write_back_register;
}

last-IsSound : (m : PipelineModel) → IsSound m → IsSound (last m)
last-IsSound m ok = record {
  memory = ok.memory;
  registers = ok.registers;
  pc_word = ok.pc_word;
  decode_word = ok.decode_word;
  execute_sound = ok.execute_sound;
  memory_sound = ok.memory_sound;
  write_back_sound = tick-Both IsWriteBackSound m.write_back_register ok.write_back_sound;
  bypass_word = ok.bypass_word;
  halted_word = ok.halted_word;
}

both-IsSound : (m : PipelineModel) → IsSound m → IsSound (both m)
both-IsSound m ok =
    let rest = last-IsSound m ok in
    record {
      memory = ok.memory;
      registers = ok.registers;
      pc_word = ok.pc_word;
      decode_word = ok.decode_word;
      execute_sound = ok.execute_sound;
      memory_sound = tick-Both IsMemorySound m.memory_register ok.memory_sound;
      write_back_sound = rest.write_back_sound;
      bypass_word = ok.bypass_word;
      halted_word = ok.halted_word;
    }

pub then_sound :
    {A B : Type 0} (x : M PipelineModel A) (k : A → M PipelineModel B)
    → KeepsSound x
    → ((a : A) → KeepsSound (k a))
    → KeepsSound (x >>= k)
then_sound x k hx hk = bind-IsSafe IsSound IsCycleStop x k hx hk

pub modify-KeepsSound :
    (f : PipelineModel → PipelineModel)
    → ((m : PipelineModel) → IsSound m → IsSound (f m))
    → KeepsSound (modify f)
modify-KeepsSound f keeps = record { safe = keeps }

pub do_last_ticks-KeepsSound : KeepsSound do_last_ticks
unfolding do_last_ticks
do_last_ticks-KeepsSound =
    let zeros = reg_file_tick-KeepsSound 0 0 (omega arith) (omega arith) in
    then_sound (modify both) _ (modify-KeepsSound both both-IsSound) (λ _.
      then_sound do_memory _ do_memory-KeepsSound (λ _.
        then_sound (reg_file_tick 0 0) _ zeros
          (λ _. then_sound (modify last) _ (modify-KeepsSound last last-IsSound) (λ _. zeros))))
