-- ===== src/Base/Runs.antt =====
-- Stateful code. An action takes the state before it and comes to one of three ends: it returns, it
-- panics, which a deferred `recover` can catch in the state that it leaves, or it is stuck.
use mathlib.Core.Path.{◌≡◌, refl, ap, fun_ext}
use native.Mathlib.Omega.{arith}
use mathlib.Core.Bool.{Bool, true, false}

-- `stuck`: it still waits, or the rounds that a loop was given are used up.
pub data Run (S A : Type 0) : Type 0 where
  done : A → S → Run S A
  panic : S → Run S A
  stuck : Run S A

abbrev pub Action : Type 0 → Type 0 → Type 0
Action S A = S → Run S A

module _ {S A : Type 0} where
  unfoldable pub pure : A → Action S A
  pure a s = done a s

  unfoldable pub fails : Action S A
  fails s = panic s

  unfoldable pub waits : Action S A
  waits s = stuck

  -- What a run that has returned satisfies; a panic satisfies nothing.
  abbrev pub Ensures : (A → S → Type 0) → Run S A → Type 0
  Ensures P (done a s) = P a s
  Ensures P (panic s) = ⊥
  Ensures P stuck = Unit {0}

  -- The run returns, and what it returns satisfies the predicate.
  abbrev pub Returns : (A → S → Type 0) → Run S A → Type 0
  Returns P (done a s) = P a s
  Returns P (panic s) = ⊥
  Returns P stuck = ⊥

-- `if b { m } else { n }`
unfoldable pub choose : {S A : Type 0} → Bool → Action S A → Action S A → Action S A
choose true m n = m
choose false m n = n

module _ {S A : Type 0} (b : Bool) (m n : Action S A) where
  pub choose-true : b ≡ true → choose b m n ≡ m
  unfolding choose
  choose-true h = rw h

  pub choose-false : b ≡ false → choose b m n ≡ n
  unfolding choose
  choose-false h = rw h

infixl 5 ◌>>=◌ ◌>>◌
unfoldable pub ◌>>=◌ : {S A B : Type 0} → Action S A → (A → Action S B) → Action S B
◌>>=◌ m f s = elim (m s) [ done a t ↦ f a t | panic t ↦ panic t | stuck ↦ stuck ]

unfoldable pub ◌>>◌ : {S B : Type 0} → Action S (Unit {0}) → Action S B → Action S B
unfolding ◌>>=◌
m >> k = m >>= λ _. k

-- Equations between blocks, for `simp`.
module _ {S A B C : Type 0} where
  pub >>=-assoc :
      (m : Action S A) (f : A → Action S B) (g : B → Action S C)
      → ((m >>= f) >>= g) ≡ (m >>= λ a. f a >>= g)
  unfolding ◌>>=◌
  >>=-assoc m f g = fun_ext λ s. ground arith

module _ {S A B : Type 0} where
  pub pure->>= : (a : A) (f : A → Action S B) → (pure a >>= f) ≡ f a
  unfolding ◌>>=◌ pure
  pure->>= a f = refl

  pub choose->>= :
      (b : Bool) (m n : Action S A) (f : A → Action S B)
      → (choose b m n >>= f) ≡ choose b (m >>= f) (n >>= f)
  unfolding choose
  choose->>= true m n f = refl
  choose->>= false m n f = refl

module _ {S A : Type 0} where
  pub >>=-pure : (m : Action S A) → (m >>= pure) ≡ m
  unfolding ◌>>=◌ pure
  >>=-pure m = fun_ext λ s. ground arith

-- The first part of a block, when it is known how it ends.
module _ {S A B : Type 0} (m : Action S A) (f : A → Action S B) (s : S) where
  pub >>=-done : {a : A} {t : S} → m s ≡ done a t → (m >>= f) s ≡ f a t
  unfolding ◌>>=◌
  >>=-done h =
      ap (λ (r : Run S A). elim r [ done a t ↦ f a t | panic t ↦ panic t | stuck ↦ stuck ]) h

  pub >>=-stuck : m s ≡ stuck → (m >>= f) s ≡ stuck
  unfolding ◌>>=◌
  >>=-stuck h =
      ap (λ (r : Run S A). elim r [ done a t ↦ f a t | panic t ↦ panic t | stuck ↦ stuck ]) h

module _ {S B : Type 0} (m : Action S (Unit {0})) (k : Action S B) (s : S) where
  pub >>-done : {t : S} → m s ≡ done tt t → (m >> k) s ≡ k t
  unfolding ◌>>◌
  >>-done h = >>=-done m (λ _. k) s h

  pub >>-stuck : m s ≡ stuck → (m >> k) s ≡ stuck
  unfolding ◌>>◌
  >>-stuck h = >>=-stuck m (λ _. k) s h

-- From a state with `P` the action does not panic, and if it returns then its value has `Q` and the
-- state has `P` again.
pub record Safe {S A : Type 0} (P : S → Type 0) (Q : A → Type 0) (m : Action S A) : Type 0 where
  pub holds : (s : S) → P s → Ensures (λ a t. Q a × P t) (m s)

-- Any value.
abbrev pub Any : {A : Type 0} → A → Type 0
Any a = Unit {0}

module _ {S A : Type 0} {P : S → Type 0} {Q : A → Type 0} where
  pub Safe-pure : (a : A) → Q a → Safe P Q (pure a)
  unfolding pure
  Safe-pure a q = record { holds = λ s h. (q, h) }

  pub Safe-waits : Safe P Q waits
  unfolding waits
  Safe-waits = record { holds = λ s h. tt }

  pub Safe-mono :
      (R : A → Type 0) (m : Action S A) → ((a : A) → R a → Q a) → Safe P R m → Safe P Q m
  Safe-mono R m k h = record { holds = λ s p. weaken (m s) (h.holds s p) }
    where
      weaken : (r : Run S A) → Ensures (λ a t. R a × P t) r → Ensures (λ a t. Q a × P t) r
      weaken (done a t) (q, p) = (k a q, p)
      weaken (panic t) p = p
      weaken stuck p = tt

  pub Safe-choose :
      (b : Bool) (m n : Action S A) → Safe P Q m → Safe P Q n → Safe P Q (choose b m n)
  unfolding choose
  Safe-choose true m n sm sn = sm
  Safe-choose false m n sm sn = sn

module _ {S A : Type 0} {P : S → Type 0} where
  pub Safe-pure-Any : (a : A) → Safe P Any (pure a)
  unfolding pure
  Safe-pure-Any a = record { holds = λ s h. (tt, h) }

module _ {S A B : Type 0} {P : S → Type 0} {Q : B → Type 0} where
  pub Safe-bind :
      (R : A → Type 0) (m : Action S A) (f : A → Action S B)
      → Safe P R m
      → ((a : A) → R a → Safe P Q (f a))
      → Safe P Q (m >>= f)
  unfolding ◌>>=◌
  Safe-bind R m f sm sf = record { holds = λ s h. after (m s) (sm.holds s h) }
    where
      after :
          (r : Run S A)
          → Ensures (λ a t. R a × P t) r
          → Ensures
              (λ b t. Q b × P t)
              (elim r [ done a t ↦ f a t | panic t ↦ panic t | stuck ↦ stuck ])
      after (done a t) (q, h) = (sf a q).holds t h
      after (panic t) h = h
      after stuck h = tt

  -- The value of the first action may be anything.
  pub Safe-bind-Any :
      (m : Action S A) (f : A → Action S B)
      → Safe P Any m
      → ((a : A) → Safe P Q (f a))
      → Safe P Q (m >>= f)
  Safe-bind-Any m f sm sf = Safe-bind Any m f sm (λ a _. sf a)

module _ {S B : Type 0} {P : S → Type 0} {Q : B → Type 0} where
  pub Safe-then :
      (m : Action S (Unit {0})) (k : Action S B) → Safe P Any m → Safe P Q k → Safe P Q (m >> k)
  unfolding ◌>>◌
  Safe-then m k sm sk = Safe-bind-Any m (λ _. k) sm (λ _. sk)

-- The same for one run, whose states may have different properties before and after each part.
module _ {S A B : Type 0} where
  pub Ensures-bind :
      (Q : A → S → Type 0) (P : B → S → Type 0) (m : Action S A) (f : A → Action S B) (s : S)
      → Ensures Q (m s)
      → ((a : A) (t : S) → Q a t → Ensures P (f a t))
      → Ensures P ((m >>= f) s)
  unfolding ◌>>=◌
  Ensures-bind Q P m f s h k = after (m s) h
    where
      after :
          (r : Run S A)
          → Ensures Q r
          → Ensures P (elim r [ done a t ↦ f a t | panic t ↦ panic t | stuck ↦ stuck ])
      after (done a t) h = k a t h
      after (panic t) h = h
      after stuck h = tt

module _ {S B : Type 0} where
  pub Ensures-then :
      (Q : S → Type 0) (P : B → S → Type 0) (m : Action S (Unit {0})) (k : Action S B) (s : S)
      → Ensures (λ u t. Q t) (m s)
      → ((t : S) → Q t → Ensures P (k t))
      → Ensures P ((m >> k) s)
  unfolding ◌>>◌
  Ensures-then Q P m k s h f = Ensures-bind (λ u t. Q t) P m (λ _. k) s h (λ u t q. f t q)

module _ {S A : Type 0} where
  pub Ensures-mono :
      (P Q : A → S → Type 0) (r : Run S A)
      → ((a : A) (s : S) → P a s → Q a s)
      → Ensures P r
      → Ensures Q r
  Ensures-mono P Q (done a s) k h = k a s h
  Ensures-mono P Q (panic s) k h = h
  Ensures-mono P Q stuck k h = tt

pub ruleset safe_rules =
    (Safe-pure, Safe-pure-Any, Safe-waits, Safe-choose, Safe-bind-Any, Safe-then)

-- A goroutine whose panic is caught.
unfoldable pub recovered : {S : Type 0} → Action S (Unit {0}) → Action S (Unit {0})
recovered m s = elim (m s) [ done u t ↦ done u t | panic t ↦ done tt t | stuck ↦ stuck ]

-- Its `unfolding` line opens the ways to build an action.
unfoldable pub actions : Unit {0}
unfolding pure fails waits choose ◌>>=◌ ◌>>◌ recovered
actions = tt
