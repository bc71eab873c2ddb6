-- ===== src/Pipeline/Flow/Refines.antt =====
-- A cycle of models/pipeline/pipeline.cpp with older instructions in flight, against the manual.
use risc_v_co_simulator.Isa.Checked.{checked-lands, exec-access}
use risc_v_co_simulator.Base.{
  ◌&&◌, ℕ, ◌+◌, ◌%◌, ◌^◌, ◌≡◌, ◌≢◌, sym, ap, ◌∙◌, refl, arith, true, false, Bool-cases, inl, inr,
  if◌then◌else◌,
}
use risc_v_co_simulator.Runtime.{Outcome, stop, killed, Build, done}
use risc_v_co_simulator.Isa
use risc_v_co_simulator.Isa.{State, Effect, apply, exec, checked}
use risc_v_co_simulator.Functional.Instruction.{
  Rv32i, lb, lh, lw, lbu, lhu, sb, sh, sw, fence, ecall, ebreak,
}
use risc_v_co_simulator.Pipeline.Signals.{uses_memory, is_load, is, format}
use risc_v_co_simulator.Pipeline.Instruction.{s_type}
use risc_v_co_simulator.Pipeline.Model.{PipelineModel}
use risc_v_co_simulator.Pipeline.Stages.{MemoryState}
use risc_v_co_simulator.Memory.{Cells}
use risc_v_co_simulator.Pipeline.Modules.Alu.{cmp}
use risc_v_co_simulator.Pipeline.Control.{load_control_signals}
use risc_v_co_simulator.Pipeline.Execute.{drive, executed}
use risc_v_co_simulator.Pipeline.Tick.{do_memory, tick, filled}
use risc_v_co_simulator.Pipeline.Datapath.{decoded, clocked, executed_alone}
use risc_v_co_simulator.Pipeline.Datapath.Refines.{executed_alone-Refines}
use risc_v_co_simulator.Pipeline.Datapath.Memory.{clocked_on}
use risc_v_co_simulator.Pipeline.Datapath.Store.{memory-Refines}
use risc_v_co_simulator.Pipeline.Sound.{IsSound}
use risc_v_co_simulator.Pipeline.Flow.{commit, settle, completed, following}
use risc_v_co_simulator.Pipeline.Flow.Edge.{IsFlowing}
use risc_v_co_simulator.Pipeline.Flow.Finish.{same_memory, no_access, settle-retired}
use risc_v_co_simulator.Pipeline.Flow.Ready.{IsReady, read_state, needs_a, needs_rs2}
use risc_v_co_simulator.Pipeline.Flow.Wires.{
  wires, wires-operands, retired_by, retired-wires, passed_on, redirects, second,
}
use risc_v_co_simulator.Pipeline.Flow.Older.{state_at, Passed, tick-Passed}

module _ (i : Rv32i) (raw pc : ℕ) (m m' : PipelineModel) (ready : IsReady i raw pc m)
    (p : Passed i raw pc m m') where
  abbrev s : State
  s = state_at pc p.x p.cell

  -- An instruction that uses no memory.
  module _ (no_memory : uses_memory i ≡ false) where
    loads_not : m'.memory_register.current.mem_to_reg ≡ false
    unfolding passed_on executed filled load_control_signals
    loads_not = ap (λ (t : MemoryState). t.mem_to_reg) p.moved ∙ of i no_memory
      where
        of : (i : Rv32i) → uses_memory i ≡ false → is_load i ≡ false
        of i h = ground arith

    stores_not : m'.memory_register.current.mem_we ≡ false
    unfolding passed_on executed filled load_control_signals
    stores_not = ap (λ (t : MemoryState). t.mem_we) p.moved ∙ of i no_memory
      where
        of : (i : Rv32i) → uses_memory i ≡ false → is (format i) s_type && true ≡ false
        of lb h = absurd (ground arith)
        of lh h = absurd (ground arith)
        of lw h = absurd (ground arith)
        of lbu h = absurd (ground arith)
        of lhu h = absurd (ground arith)
        of sb h = absurd (ground arith)
        of sh h = absurd (ground arith)
        of sw h = absurd (ground arith)
        of _ h = refl

    finished :
        completed (following m') m'
        ≡ retired_by s
            (wires (filled (decoded i raw (read_state pc m) m)) p.a p.v ((pc + 4) % 2 ^ 32))
    unfolding wires
    finished =
        let of = λ (q : ℕ) (r : MemoryState) (c : Cells).
          Effect.next (record {
            pc = q;
            x = if r.wb_we then Isa.put s.x r.wb_a r.alu_res else s.x;
            mem = c;
          }) in
        let x = filled (decoded i raw (read_state pc m) m) in
        let after = (wires x p.a p.v ((pc + 4) % 2 ^ 32)).3 in
        p.settled
        ∙ (no_access (following m') s.x m' p.shown loads_not stores_not p.shows
            ∙ (ap (λ (q : ℕ). of q m'.memory_register.current m'.mmu.cell) p.follows_wires
                ∙ (ap (λ (r : MemoryState). of after r m'.mmu.cell) p.moved
                    ∙ ap (of after (passed_on x p.a p.v)) p.memory)))

    computes : i ≢ fence → i ≢ ecall → i ≢ ebreak → completed (following m') m' ≡ apply i raw s
    computes not_fence not_ecall not_ebreak =
        let x = filled (decoded i raw s m') in
        finished
        ∙ (ap (retired_by s) (
              wires-operands i raw (read_state pc m) s m m' p.a x.data1 p.v x.data2
                ((pc + 4) % 2 ^ 32) refl p.a_is p.v_is)
            ∙ (sym (retired-wires s (clocked (decoded i raw s m')))
                ∙ executed_alone-Refines raw ready.word s p.older_valid m' i ready.encodes not_fence
                    not_ecall not_ebreak no_memory))

  -- A load or a store.
  module _ (memory_op : uses_memory i ≡ true) where
    goes_on : following m' ≡ (pc + 4) % 2 ^ 32
    unfolding wires redirects cmp filled load_control_signals
    goes_on = p.follows_wires ∙ of i memory_op
      where
        of :
            (i : Rv32i)
            → uses_memory i ≡ true
            → (wires (filled (decoded i raw (read_state pc m) m)) p.a p.v ((pc + 4) % 2 ^ 32)).3
              ≡ (pc + 4) % 2 ^ 32
        of lb h = refl
        of lh h = refl
        of lw h = refl
        of lbu h = refl
        of lhu h = refl
        of sb h = refl
        of sh h = refl
        of sw h = refl
        of _ h = absurd (ground arith)

    needs : (needs_a i ≡ true) × (needs_rs2 i ≡ true)
    needs = of i memory_op
      where
        of : (i : Rv32i) → uses_memory i ≡ true → (needs_a i ≡ true) × (needs_rs2 i ≡ true)
        of lb h = (refl, refl)
        of lh h = (refl, refl)
        of lw h = (refl, refl)
        of lbu h = (refl, refl)
        of lhu h = (refl, refl)
        of sb h = (refl, refl)
        of sh h = (refl, refl)
        of sw h = (refl, refl)
        of _ h = absurd (ground arith)

    -- The instruction alone, at its memory stage.
    abbrev single : PipelineModel
    unfolding executed_alone
    single = clocked_on (executed_alone (clocked (decoded i raw s m')))

    same_register : m'.memory_register.current ≡ single.memory_register.current
    unfolding executed_alone drive filled load_control_signals passed_on second executed
    same_register =
        p.moved
        ∙ (ap (λ (t : ℕ). passed_on (filled (decoded i raw (read_state pc m) m)) t p.v)
              (p.a_is needs.0)
            ∙ ap
                (λ (t : ℕ).
                  passed_on (filled (decoded i raw (read_state pc m) m))
                    (filled (decoded i raw s m')).data1 t)
                (p.v_is needs.1))

    same_cells : m'.mmu ≡ single.mmu
    unfolding executed_alone drive
    same_cells = ap (λ (c : Cells). record (m'.mmu) { cell = c }) p.memory

    accesses : completed (following m') m' ≡ apply i raw s
    unfolding executed_alone drive
    accesses =
        p.settled
        ∙ (ap (λ (q : ℕ). settle q s.x (do_memory m')) goes_on
            ∙ (same_memory ((pc + 4) % 2 ^ 32) s.x m' single same_register refl same_cells refl
                ∙ (settle-retired s (do_memory single)
                    ∙ (memory-Refines raw ready.word s p.older_valid m' i ready.encodes memory_op
                        ∙ exec-access i raw s (ground arith)))))

  cycle-Refines : i ≢ fence → i ≢ ecall → i ≢ ebreak → completed (following m') m' ≡ apply i raw s
  cycle-Refines not_fence not_ecall not_ebreak = elim (Bool-cases (uses_memory i)) [
    | inl h ↦ accesses h
    | inr h ↦ computes h not_fence not_ecall not_ebreak
  ]

  settles :
      (o : Outcome PipelineModel (Unit {0}))
      → checked pc (settle (following m') s.x o) ≡ settle (following m') s.x o
  settles (done _ t) =
      checked-lands pc
        (record { pc = following m'; x = commit s.x t.write_back_register.next; mem = t.mmu.cell })
        p.lands
  settles (stop killed t) = refl
  settles (stop _ t) = refl

  cycle-exec : i ≢ fence → i ≢ ecall → i ≢ ebreak → completed (following m') m' ≡ exec i raw s
  unfolding exec
  cycle-exec not_fence not_ecall not_ebreak =
      p.settled
      ∙ (sym (settles (do_memory m'))
          ∙ ap (checked pc) (sym p.settled ∙ cycle-Refines not_fence not_ecall not_ebreak))

state_of : State → Effect → State
state_of s (Effect.next t) = t
state_of s _ = s

-- A cycle of the pipeline with instructions in flight, from a sound state (`IsSound`) with every
-- register enabled (`IsFlowing`): an instruction that the manual encodes, but FENCE, ECALL and
-- EBREAK, is in the execute stage as DoDecode issues it, its bypasses are set, no load that it
-- needs is in the memory stage, and the word behind it is decoded (`IsReady`). If finishing the
-- older instructions in the memory and write-back stages leaves the state `s`, and the cycle comes
-- to its end, then finishing what is past the execute stage after the cycle, the instruction
-- included, leaves what the manual says that the instruction makes of `s`, with the program counter
-- that follows, or faults where the manual says so.
pub tick-Refines :
    (b : Build) (i : Rv32i) (raw pc : ℕ) (m m' : PipelineModel) (s : State)
    → IsSound m
    → IsFlowing m
    → IsReady i raw pc m
    → i ≢ fence
    → i ≢ ecall
    → i ≢ ebreak
    → completed pc m ≡ Effect.next s
    → tick b m ≡ done tt m'
    → completed (following m') m' ≡ exec i raw s
unfolding state_of
tick-Refines b i raw pc m m' s ok flows ready not_fence not_ecall not_ebreak before e =
    let p = tick-Passed b i raw pc m m' ok flows ready e in
    let same = ap (state_of s) (sym p.older_is ∙ before) in
    cycle-exec i raw pc m m' ready p not_fence not_ecall not_ebreak ∙ ap (exec i raw) same
