-- ===== src/Runtime/Safe.antt =====
-- Code that keeps an invariant of its state, also where it stops, and stops in known ways only.
use risc_v_co_simulator.Base.{◌≡◌, refl, Bool, true, false}
use risc_v_co_simulator.Runtime.{Outcome, Stop, done, stop, M, ◌>>=◌, throw_if}

abbrev pub IsGood : {S A : Type 0} → (S → Type 0) → (Stop → Type 0) → Outcome S A → Type 0
IsGood I E (done _ s) = I s
IsGood I E (stop e s) = I s × E e

pub record IsSafe {S A : Type 0} (I : S → Type 0) (E : Stop → Type 0) (x : M S A) : Type 0 where
  pub safe : (s : S) → I s → IsGood I E (x s)

module _ {S : Type 0} (I : S → Type 0) (E : Stop → Type 0) where
  pub bind-IsSafe :
      {A B : Type 0} (x : M S A) (k : A → M S B)
      → IsSafe I E x
      → ((a : A) → IsSafe I E (k a))
      → IsSafe I E (x >>= k)
  bind-IsSafe {A} {B} x k hx hk = record { safe = λ s ok. go (x s) (hx.safe s ok) }
    where
      go :
          (o : Outcome S A)
          → IsGood I E o
          → IsGood I E (elim o as (λ _. Outcome S B) [ done a s ↦ k a s | stop e s ↦ stop e s ])
      go (done a s) h = (hk a).safe s h
      go (stop e s) h = h

  pub modify-IsSafe : (f : S → S) → ((s : S) → I s → I (f s)) → IsSafe I E (λ s. done tt (f s))
  modify-IsSafe f keeps = record { safe = keeps }

  pub throw_if-IsSafe : (c : Bool) (e : Stop) → (c ≡ true → E e) → IsSafe I E (throw_if c e)
  throw_if-IsSafe true e known = record { safe = λ s ok. (ok, known refl) }
  throw_if-IsSafe false e known = record { safe = λ s ok. ok }
