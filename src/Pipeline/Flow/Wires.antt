-- ===== src/Pipeline/Flow/Wires.antt =====
-- What the execute stage of models/pipeline/pipeline.cpp drives, as far as an instruction's effect
-- goes: the write-back and the address that follows.
use risc_v_co_simulator.Base.{
  ℕ, ◌+◌, ◌%◌, ◌^◌, ◌≡◌, ap, ◌∙◌, refl, Bool, true, false, ◌||◌, ◌&&◌, if◌then◌else◌,
}
use risc_v_co_simulator.Isa
use risc_v_co_simulator.Isa.{State, Effect}
use risc_v_co_simulator.Functional.Instruction.{Rv32i, lui, auipc, jal, fence, unknown}
use risc_v_co_simulator.Pipeline.Modules.Alu.{alu, cmp}
use risc_v_co_simulator.Pipeline.Modules.Gates.{add_words, multiplexer2}
use risc_v_co_simulator.Pipeline.Instruction.{immediate_extension_block}
use risc_v_co_simulator.Pipeline.Stages.{ExecuteState, MemoryState}
use risc_v_co_simulator.Pipeline.Control.{load_control_signals}
use risc_v_co_simulator.Pipeline.Model.{PipelineModel}
use risc_v_co_simulator.Pipeline.Execute.{drive, executed, displacement}
use risc_v_co_simulator.Pipeline.Tick.{filled, next_pc}
use risc_v_co_simulator.Pipeline.Datapath.{decoded, executed_alone, retired}
use risc_v_co_simulator.Pipeline.Flow.Ready.{needs_a, needs_rs2}

-- The second operand, the memory register's next value, and whether the program counter is
-- redirected.
unfoldable pub second : ExecuteState → (v : ℕ) → ℕ
unfolding immediate_extension_block
second x v = multiplexer2 x.alu_src2 v (immediate_extension_block x.instr)

unfoldable pub passed_on : ExecuteState → (a v : ℕ) → MemoryState
unfolding executed second
passed_on x a v = executed x a v (second x v)

unfoldable pub redirects : ExecuteState → (a v : ℕ) → Bool
unfolding cmp
redirects x a v = x.jmp_cond || (cmp x.cmp_control a v && x.brn_cond)

unfoldable pub target_of : ExecuteState → (a v : ℕ) → ℕ
unfolding displacement second
target_of x a v =
    add_words (if x.is_jalr then 0 else x.pc_de)
      (displacement x a (second x v) (immediate_extension_block x.instr))

-- An instruction's write-back and the address that follows, `plain` without a jump.
abbrev pub Wires : Type 0
Wires = Bool × ℕ × ℕ × ℕ

unfoldable pub wires : ExecuteState → (a v plain : ℕ) → Wires
unfolding passed_on redirects target_of
wires x a v plain = (
  (passed_on x a v).wb_we,
  (passed_on x a v).wb_a,
  (passed_on x a v).alu_res,
  if redirects x a v then target_of x a v else plain,
)

-- An instruction is not changed by an operand that it does not use.
pub wires-operands :
    (i : Rv32i) (raw : ℕ) (s s' : State) (m m' : PipelineModel) (a a' v v' plain : ℕ)
    → s.pc ≡ s'.pc
    → (needs_a i ≡ true → a ≡ a')
    → (needs_rs2 i ≡ true → v ≡ v')
    → wires (filled (decoded i raw s m)) a v plain
      ≡ wires (filled (decoded i raw s' m')) a' v' plain
unfolding wires passed_on redirects target_of second filled load_control_signals executed
    displacement alu cmp
wires-operands i raw s s' m m' a a' v v' plain same = of i
  where
    at : Rv32i → ℕ → ℕ → ℕ → Wires
    at i pc a v = wires (filled (decoded i raw (record s { pc = pc }) m)) a v plain

    of :
        (i : Rv32i)
        → (needs_a i ≡ true → a ≡ a')
        → (needs_rs2 i ≡ true → v ≡ v')
        → at i s.pc a v ≡ at i s'.pc a' v'
    of lui ha hv = ap (λ (t : ℕ). at lui t a v) same ∙ ap (λ (t : ℕ). at lui s'.pc t v') (ha refl)
    of auipc ha hv =
        ap (λ (t : ℕ). at auipc t a v) same ∙ ap (λ (t : ℕ). at auipc s'.pc t v') (ha refl)
    of jal ha hv = ap (λ (t : ℕ). at jal t a v) same
    of fence ha hv =
        ap (λ (t : ℕ). at fence t a v) same ∙ ap (λ (t : ℕ). at fence s'.pc t v') (ha refl)
    of unknown ha hv =
        ap (λ (t : ℕ). at unknown t a v) same ∙ ap (λ (t : ℕ). at unknown s'.pc t v') (ha refl)
    of i ha hv =
        ap (λ (t : ℕ). at i t a v) same
        ∙ (ap (λ (t : ℕ). at i s'.pc t v) (ha refl) ∙ ap (λ (t : ℕ). at i s'.pc a' t) (hv refl))

-- The state after an instruction that uses no memory.
abbrev pub retired_by : State → Wires → Effect
retired_by s o =
    Effect.next (record s { pc = o.3; x = if o.0 then Isa.put s.x (o.1) (o.2) else s.x })

-- The adder of DoFetch.
pub adder :
    (redirect through : Bool) (fetched pc disp plain : ℕ)
    → (if redirect
        then add_words
            (if through then 0 else multiplexer2 redirect fetched pc)
            (multiplexer2 redirect 4 disp)
        else plain)
      ≡ (if redirect then add_words (if through then 0 else pc) disp else plain)
adder true through fetched pc disp plain = refl
adder false through fetched pc disp plain = refl

pub drive-target :
    (a v plain : ℕ) (m : PipelineModel)
    → (if (drive a v m).pc_r then next_pc (drive a v m) else plain)
      ≡ (wires m.execute_register.current a v plain).3
unfolding drive next_pc wires passed_on redirects target_of second
drive-target a v plain m =
    let x = m.execute_register.current in
    adder (redirects x a v) x.is_jalr m.program_counter.current x.pc_de
      (displacement x a (second x v) (immediate_extension_block x.instr)) plain

-- The instruction alone in the pipeline.
pub retired-wires :
    (s : State) (n : PipelineModel)
    → retired s (executed_alone n)
      ≡ retired_by s (
          wires n.execute_register.current n.execute_register.current.data1
            n.execute_register.current.data2
            ((s.pc + 4) % 2 ^ 32))
unfolding retired executed_alone wires drive next_pc passed_on redirects target_of second
retired-wires s n =
    let x = n.execute_register.current in
    let r = passed_on x x.data1 x.data2 in
    ap
      (λ (p : ℕ).
        Effect.next
          (record s { pc = p; x = if r.wb_we then Isa.put s.x r.wb_a r.alu_res else s.x }))
      (drive-target x.data1 x.data2 ((s.pc + 4) % 2 ^ 32) n)
