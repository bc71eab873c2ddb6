-- ===== src/Pipeline/Flow/Fetch.antt =====
-- What DoFetch of models/pipeline/pipeline.cpp has changed where it comes to its end.
use mathlib.Core.Path.{subst}
use risc_v_co_simulator.Base.{
  ℕ, ◌%◌, ◌≡◌, sym, ap, ◌∙◌, refl, arith, Bool, true, false, not, ◌&&◌, ◌==◌, Option, none, some,
}
use risc_v_co_simulator.Runtime.{
  Stop, killed, terminated, alignment, Build, Outcome, done, stop, final, ◌>>◌, modify, throw_if,
}
use risc_v_co_simulator.Runtime.Binds.{bind-done}
use risc_v_co_simulator.Memory as Memory
use risc_v_co_simulator.Pipeline.Model.{PipelineModel}
use risc_v_co_simulator.Pipeline.Tick.{next_pc, fetch_instr, do_fetch}

throw_if-done : (c : Bool) (e : Stop) (s s1 : PipelineModel) → throw_if c e s ≡ done tt s1 → s1 ≡ s
throw_if-done true e s s1 r = absurd (ground arith)
throw_if-done false e s s1 r = sym (ap final r)

throw_if-false :
    (c : Bool) (e : Stop) (s s1 : PipelineModel) → throw_if (not c) e s ≡ done tt s1 → c ≡ true
throw_if-false true e s s1 r = refl
throw_if-false false e s s1 r = absurd (ground arith)

-- The state that DoFetch leaves, with the word that it has fetched.
abbrev pub fetched : ℕ → PipelineModel → PipelineModel
fetched instr m = record m {
  instr_address = m.program_counter.current;
  program_counter = record (m.program_counter) { next = next_pc m };
  decode_register = record (m.decode_register) {
    next = record (m.decode_register.next) { instr = instr; pc_de = m.program_counter.current };
  };
}

-- The state before the word is read.
abbrev addressed : PipelineModel → PipelineModel
addressed m = record m {
  instr_address = m.program_counter.current;
  program_counter = record (m.program_counter) { next = next_pc m };
}

fetch_instr-done :
    (m m1 : PipelineModel)
    → fetch_instr (addressed m) ≡ done tt m1
    → (instr : ℕ) × (Memory.get_word m.mmu m.program_counter.current ≡ some instr)
      × (m1 ≡ fetched instr m)
unfolding next_pc
fetch_instr-done m m1 e = go (Memory.get_word m.mmu m.program_counter.current) e
  where
    go :
        (o : Option ℕ)
        → (elim o as (λ _. Outcome PipelineModel (Unit {0})) [
          | none ↦ stop killed (addressed m)
          | some instr ↦ done tt (fetched instr m)
        ])
          ≡ done tt m1
        → (instr : ℕ) × (o ≡ some instr) × (m1 ≡ fetched instr m)
    go none e = absurd (ground arith)
    go (some instr) e = (instr, refl, sym (ap final e))

pub do_fetch-done :
    (b : Build) (m m1 : PipelineModel)
    → do_fetch b m ≡ done tt m1
    → (instr : ℕ) × (Memory.get_word m.mmu m.program_counter.current ≡ some instr)
      × (m1 ≡ fetched instr m)
      × (next_pc m % 4 == 0 ≡ true)
unfolding do_fetch next_pc
do_fetch-done b m m1 e =
    let at = record m { instr_address = m.program_counter.current } in
    let jalr = b.debug && (m.execute_register.current.is_jalr && not m.pc_r) in
    let set = λ (n : PipelineModel). record n {
      program_counter = record (n.program_counter) { next = next_pc n };
    } in
    let aligned = throw_if (not (next_pc m % 4 == 0)) alignment in
    let (_, ma, ea, e1) =
      bind-done (throw_if jalr terminated) (λ _. modify set >> (aligned >> fetch_instr)) at m1 tt
        e in
    let (_, mb, eb, e2) = bind-done aligned (λ _. fetch_instr) (set ma) m1 tt e1 in
    let ma_is = throw_if-done jalr terminated at ma ea in
    let mb_is = throw_if-done _ alignment (set ma) mb eb ∙ ap set ma_is in
    let (instr, word, left) =
      fetch_instr-done m m1 (subst (λ (n : PipelineModel). fetch_instr n ≡ done tt m1) mb_is e2) in
    (instr, word, left, throw_if-false (next_pc m % 4 == 0) alignment (set ma) mb eb)
