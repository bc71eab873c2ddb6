-- ===== src/Pipeline/Flow/Registers.antt =====
-- The register file's part of a cycle of models/pipeline/pipeline.cpp.
use mathlib.Core.Path.{fun_ext}
use risc_v_co_simulator.Base.{
  ℕ, zero, suc, ◌<◌, ◌≡◌, refl, arith, Bool, true, false, not, ◌&&◌, ◌==◌, lt→ltb, Bool-cases, inl,
  inr, some, if◌then◌else◌, ==_iff,
}
use risc_v_co_simulator.Isa
use risc_v_co_simulator.Trace.{TraceWriter}
use risc_v_co_simulator.Pipeline.Modules.Storage.{RegFile, tick_reg_file, write_port, read_ports}

put-write :
    (x : ℕ → ℕ) (a v : ℕ)
    → (a == 0) ≡ false
    → x 0 ≡ 0
    → (j : ℕ) → (if a == j then v else x j) ≡ Isa.put x a v j
put-write x a v other zero_reg j = ground (arith, ==_iff a j, ==_iff j 0)

put-zero : (x : ℕ → ℕ) (v : ℕ) → x 0 ≡ 0 → (j : ℕ) → x j ≡ Isa.put x 0 v j
put-zero x v zero_reg zero = zero_reg
put-zero x v zero_reg (suc j) = ground arith

-- A write of the register file is a write-back.
pub write-commit :
    (x : ℕ → ℕ) (we : Bool) (a v : ℕ)
    → x 0 ≡ 0
    → (if we && not (a == 0) then (λ i. if a == i then v else x i) else x)
      ≡ (if we then Isa.put x a v else x)
write-commit x false a v zero_reg = refl
write-commit x true zero v zero_reg = fun_ext (put-zero x v zero_reg)
write-commit x true (suc a) v zero_reg =
    let other : (suc a == 0) ≡ false = ground arith in
    rw other (fun_ext (put-write x (suc a) v other zero_reg))

-- What the register file holds and shows after its tick.
abbrev written : RegFile → ℕ → ℕ
written r =
    if r.write_enable3 && not (r.address3 == 0)
    then (λ i. if r.address3 == i then r.write_data3 else r.regs i)
    else r.regs

abbrev pub ticked : RegFile → RegFile
ticked r = record r {
  regs = written r;
  read_data1 = written r r.address1;
  read_data2 = written r r.address2;
}

pub tick_reg_file_lem :
    (r : RegFile) (w : TraceWriter)
    → r.address1 < 32
    → r.address2 < 32
    → r.address3 < 32
    → (tick_reg_file r w).0 ≡ some (ticked r)
unfolding tick_reg_file write_port read_ports
tick_reg_file_lem r w p q index = elim (Bool-cases (r.write_enable3 && not (r.address3 == 0))) [
  | inl t ↦
      rw (tick_reg_file, write_port, t, lt→ltb _ 32 index) (rw (lt→ltb _ 32 p, lt→ltb _ 32 q) refl)
  | inr f ↦ rw (tick_reg_file, write_port, f) (rw (lt→ltb _ 32 p, lt→ltb _ 32 q) refl)
]
