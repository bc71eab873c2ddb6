-- ===== src/Pipeline/Flow/Operands.antt =====
-- The operands that DoExecute of models/pipeline/pipeline.cpp finds for an instruction, with older
-- instructions in the memory and write-back stages.
use risc_v_co_simulator.Base.{
  ℕ, ◌<◌, ◌^◌, ◌≡◌, sym, ap, ◌∙◌, refl, arith, true, false, ◌&&◌, ◌==◌, ==_iff, Bool-cases, inl,
  inr, if◌then◌else◌,
}
use risc_v_co_simulator.Pipeline.Modules.Gates.{multiplexer2}
use risc_v_co_simulator.Pipeline.Stages.{MemoryState, WriteBackState}
use risc_v_co_simulator.Pipeline.Tick.Hazard.{load_conflict}
use risc_v_co_simulator.Pipeline.Forwarding.{forwarded}
use risc_v_co_simulator.Pipeline.Flow.{commit}

-- The write-back of the memory stage, where the data memory unit shows `v`.
abbrev pub pending : MemoryState → ℕ → WriteBackState
pending r v = record {
  wb_we = r.wb_we;
  wb_d = multiplexer2 r.mem_to_reg r.alu_res v;
  wb_a = r.wb_a;
}

-- A write-back leaves register 0 at 0, and words in the registers.
pub commit-zero : (x : ℕ → ℕ) (w : WriteBackState) → x 0 ≡ 0 → commit x w 0 ≡ 0
commit-zero x w z = ground arith

pub commit-lt :
    (x : ℕ → ℕ) (w : WriteBackState)
    → ((j : ℕ) → x j < 2 ^ 32)
    → w.wb_d < 2 ^ 32
    → (j : ℕ) → commit x w j < 2 ^ 32
commit-lt x w words word j = ground (arith, words j)

module _ (x : ℕ → ℕ) (zero_reg : x 0 ≡ 0) (r : MemoryState) (w : WriteBackState) (v : ℕ) where
  -- Both write-backs, at a register that is not 0.
  commits :
      (rs : ℕ)
      → (rs == 0) ≡ false
      → commit (commit x w) (pending r v) rs ≡ (
          if rs == r.wb_a && r.wb_we
          then (pending r v).wb_d
          else if rs == w.wb_a && w.wb_we
          then w.wb_d
          else x rs)
  commits rs other = ground arith

  no_load :
      (rs : ℕ)
      → (rs == 0) ≡ false
      → load_conflict true rs r ≡ false
      → (rs == r.wb_a && r.wb_we) ≡ true
      → r.alu_res ≡ (pending r v).wb_d
  unfolding load_conflict
  no_load rs other free hit = ground arith

  -- With no load of the register in the memory stage, the forwarded value of a register is the one
  -- that it holds after both write-backs.
  pub forwarded-commit :
      (rs : ℕ)
      → load_conflict true rs r ≡ false
      → forwarded true rs r w (x rs) ≡ commit (commit x w) (pending r v) rs
  forwarded-commit rs free = elim (Bool-cases (rs == 0)) [
    | inl z ↦
        let at_zero : rs ≡ 0 = (==_iff rs 0).0 z in
        rw z (
          ap x at_zero
          ∙ (zero_reg
              ∙ (sym (commit-zero (commit x w) (pending r v) (commit-zero x w zero_reg))
                  ∙ ap (commit (commit x w) (pending r v)) (sym at_zero))))
    | inr other ↦ elim (Bool-cases (rs == r.wb_a && r.wb_we)) [
      | inl hit ↦ rw (other, commits rs other, hit) (no_load rs other free hit)
      | inr miss ↦ rw (other, commits rs other, miss) refl
    ]
  ]
