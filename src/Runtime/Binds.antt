-- ===== src/Runtime/Binds.antt =====
-- The steps of code that comes to its end.
use risc_v_co_simulator.Base.{◌≡◌, ◌⊎◌, inl, inr, refl, arith}
use risc_v_co_simulator.Runtime.{Outcome, Stop, done, stop, M, ◌>>=◌}

-- What is done in two steps has done the first and then the second.
pub bind-done :
    {S A B : Type 0} (x : M S A) (k : A → M S B) (s s' : S) (b : B)
    → (x >>= k) s ≡ done b s'
    → (a : A) × (s1 : S) × (x s ≡ done a s1) × (k a s1 ≡ done b s')
bind-done {S} {A} {B} x k s s' b e = go (x s) refl e
  where
    go :
        (o : Outcome S A)
        → x s ≡ o
        → (elim o [ done a s1 ↦ k a s1 | stop e s1 ↦ stop e s1 ]) ≡ done b s'
        → (a : A) × (s1 : S) × (x s ≡ done a s1) × (k a s1 ≡ done b s')
    go (done a s1) x_is e = (a, s1, x_is, e)
    go (stop _ _) x_is e = absurd (ground arith)

-- What stops in two steps stops in the first, or does it and stops in the second.
pub bind-stop :
    {S A B : Type 0} (x : M S A) (k : A → M S B) (s s' : S) (e : Stop)
    → (x >>= k) s ≡ stop e s'
    → (x s ≡ stop e s') ⊎ ((a : A) × (s1 : S) × (x s ≡ done a s1) × (k a s1 ≡ stop e s'))
bind-stop {S} {A} {B} x k s s' e r = go (x s) refl r
  where
    go :
        (o : Outcome S A)
        → x s ≡ o
        → (elim o [ done a s1 ↦ k a s1 | stop e s1 ↦ stop e s1 ]) ≡ stop e s'
        → (x s ≡ stop e s') ⊎ ((a : A) × (s1 : S) × (x s ≡ done a s1) × (k a s1 ≡ stop e s'))
    go (done a s1) x_is r = inr (a, s1, x_is, r)
    go (stop e1 s1) x_is r = inl (ground (arith, x_is))

-- The stops of a step, bounded by a predicate.
abbrev pub StopsIn : {S A : Type 0} → (Stop → Type 0) → M S A → Type 0
StopsIn {S} P x = (s s' : S) (e : Stop) → x s ≡ stop e s' → P e

pub bind-StopsIn :
    {S A B : Type 0} (P : Stop → Type 0) (x : M S A) (k : A → M S B)
    → StopsIn P x
    → ((a : A) → StopsIn P (k a))
    → StopsIn P (x >>= k)
bind-StopsIn P x k hx hk s s' e r = elim (bind-stop x k s s' e r) [
  | inl r' ↦ hx s s' e r'
  | inr (a, s1, _, r') ↦ hk a s1 s' e r'
]
