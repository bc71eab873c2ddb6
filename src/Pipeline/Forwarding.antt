-- ===== src/Pipeline/Forwarding.antt =====
-- The operands that the bypasses and the multiplexers of DoExecute pick.
use risc_v_co_simulator.Base.{
  ℕ, ◌≡◌, refl, Bool, not, ◌&&◌, ◌==◌, some, if◌then◌else◌, Bool-cases, inl, inr,
}
use risc_v_co_simulator.Pipeline.Modules.Gates.{multiplexer3}
use risc_v_co_simulator.Pipeline.Stages.{MemoryState, WriteBackState, encoding}
use risc_v_co_simulator.Pipeline.Tick.Hazard.{bypass}

-- The value that the bypass picks for register `rs`: the ALU's result in the memory stage, a load's
-- address included, the write-back stage's value, or the one read.
abbrev pub forwarded : (used : Bool) → (rs : ℕ) → MemoryState → WriteBackState → (read : ℕ) → ℕ
forwarded used rs m w read =
    if used && not (rs == 0)
    then (if rs == m.wb_a && m.wb_we
        then m.alu_res
        else if rs == w.wb_a && w.wb_we
        then w.wb_d
        else read)
    else read

pub bypass_lem :
    (used : Bool) (rs : ℕ) (m : MemoryState) (w : WriteBackState) (read : ℕ)
    → multiplexer3 (encoding (bypass used rs m w)) read m.alu_res w.wb_d
      ≡ some (forwarded used rs m w read)
unfolding multiplexer3 bypass
bypass_lem used rs m w read = elim (Bool-cases (used && not (rs == 0))) [
  | inr h ↦ rw h refl
  | inl h ↦ elim (Bool-cases (rs == m.wb_a && m.wb_we)) [
    | inl k ↦ rw (h, k) refl
    | inr k ↦ elim (Bool-cases (rs == w.wb_a && w.wb_we)) [
      | inl l ↦ rw (h, k, l) refl
      | inr l ↦ rw (h, k, l) refl
    ]
  ]
]
