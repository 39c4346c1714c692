-- ===== src/Base/Totality.antt =====
-- Actions that return: from each state with a property, with a value, in a state that has the
-- property again.
use mathlib.Core.Bool.{Bool, true, false}
use friendlyrabbit.Base.Runs.{
  Run, done, panic, stuck, Action, pure, choose, ◌>>=◌, ◌>>◌, Ensures, Returns, Any, Safe,
}

pub record Total {S A : Type 0} (P : S → Type 0) (Q : A → Type 0) (m : Action S A) : Type 0 where
  pub returns : (s : S) → P s → Returns (λ a t. Q a × P t) (m s)

module _ {S A : Type 0} {P : S → Type 0} (Q : A → Type 0) where
  pub Total-pure : (a : A) → Q a → Total P Q (pure a)
  unfolding pure
  Total-pure a q = record { returns = λ s p. (q, p) }

  pub Total-choose :
      (b : Bool) (m n : Action S A) → Total P Q m → Total P Q n → Total P Q (choose b m n)
  unfolding choose
  Total-choose true m n tm tn = tm
  Total-choose false m n tm tn = tn

module _ {S A B : Type 0} where
  pub Returns-bind :
      (Q : A → S → Type 0) (P : B → S → Type 0) (m : Action S A) (f : A → Action S B) (s : S)
      → Returns Q (m s)
      → ((a : A) (t : S) → Q a t → Returns P (f a t))
      → Returns P ((m >>= f) s)
  unfolding ◌>>=◌
  Returns-bind Q P m f s h k = after (m s) h
    where
      after :
          (r : Run S A)
          → Returns Q r
          → Returns P (elim r [ done a t ↦ f a t | panic t ↦ panic t | stuck ↦ stuck ])
      after (done a t) q = k a t q
      after (panic t) q = q
      after stuck q = q

  pub Total-bind :
      {P : S → Type 0} (R : A → Type 0) (Q : B → Type 0) (m : Action S A) (f : A → Action S B)
      → Total P R m
      → ((a : A) → R a → Total P Q (f a))
      → Total P Q (m >>= f)
  Total-bind {P = P} R Q m f tm tf = record {
    returns = λ s p.
        Returns-bind (λ a t. R a × P t) (λ b t. Q b × P t) m f s (tm.returns s p)
          (λ a t h. (tf a h.0).returns t h.1);
  }

module _ {S B : Type 0} where
  pub Total-then :
      {P : S → Type 0} (Q : B → Type 0) (m : Action S (Unit {0})) (k : Action S B)
      → Total P Any m
      → Total P Q k
      → Total P Q (m >> k)
  unfolding ◌>>◌
  Total-then Q m k tm tk = Total-bind Any Q m (λ _. k) tm (λ _ _. tk)

module _ {S A : Type 0} where
  pub Returns-mono :
      (P Q : A → S → Type 0) (r : Run S A)
      → ((a : A) (s : S) → P a s → Q a s)
      → Returns P r
      → Returns Q r
  Returns-mono P Q (done a s) k h = k a s h
  Returns-mono P Q (panic s) k h = h
  Returns-mono P Q stuck k h = h

  -- A value that has been shown to have a property if it is returned.
  pub Total-and :
      {P : S → Type 0} (Q R : A → Type 0) (m : Action S A)
      → Safe P Q m
      → Total P R m
      → Total P (λ a. Q a × R a) m
  Total-and {P = P} Q R m safe total = record {
    returns = λ s p. both (m s) (safe.holds s p) (total.returns s p);
  }
    where
      both :
          (r : Run S A)
          → Ensures (λ a t. Q a × P t) r
          → Returns (λ a t. R a × P t) r
          → Returns (λ a t. (Q a × R a) × P t) r
      both (done a s) p q = ((p.0, q.0), p.1)
      both (panic s) p q = p
      both stuck p q = q
