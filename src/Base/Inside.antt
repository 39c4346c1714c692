-- ===== src/Base/Inside.antt =====
-- An action on a part of the state, and what a run of it leaves of the whole.
use mathlib.Core.Path.{◌≡◌, refl}
use friendlyrabbit.Base.Runs.{
  Run, done, panic, stuck, Action, ◌>>=◌, ◌>>◌, Ensures, Ensures-bind, Returns,
}
use friendlyrabbit.Base.Totality.{Returns-bind}

module _ {S T : Type 0} (get : S → T) (put : T → S → S) where
  abbrev pub put_back : {A : Type 0} → S → Run T A → Run S A
  put_back s (done a t) = done a (put t s)
  put_back s (panic t) = panic (put t s)
  put_back s stuck = stuck

  unfoldable pub inside : {A : Type 0} → Action T A → Action S A
  inside m s = put_back s (m (get s))

  pub inside-Ensures :
      {A : Type 0} (P : A → T → Type 0) (Q : A → S → Type 0) (m : Action T A) (s : S)
      → Ensures P (m (get s))
      → ((a : A) (t : T) → P a t → Q a (put t s))
      → Ensures Q (inside m s)
  unfolding inside
  inside-Ensures {A = A} P Q m s h next = after (m (get s)) h
    where
      after : (r : Run T A) → Ensures P r → Ensures Q (put_back s r)
      after (done a t) h = next a t h
      after (panic t) h = h
      after stuck h = tt

  pub inside-Returns :
      {A : Type 0} (P : A → T → Type 0) (Q : A → S → Type 0) (m : Action T A) (s : S)
      → Returns P (m (get s))
      → ((a : A) (t : T) → P a t → Q a (put t s))
      → Returns Q (inside m s)
  unfolding inside
  inside-Returns {A = A} P Q m s h next = after (m (get s)) h
    where
      after : (r : Run T A) → Returns P r → Returns Q (put_back s r)
      after (done a t) h = next a t h
      after (panic t) h = h
      after stuck h = h

  -- At the head of a block.
  pub inside-bind :
      {A B : Type 0} (P : A → T → Type 0) (Q : B → S → Type 0) (m : Action T A) (g : A → Action S B)
      (s : S)
      → Ensures P (m (get s))
      → ((a : A) (t : T) → P a t → Ensures Q (g a (put t s)))
      → Ensures Q ((inside m >>= g) s)
  inside-bind {A = A} P Q m g s h next =
      Ensures-bind (λ a u. (t : T) × P a t × (u ≡ put t s)) Q _ g s
        (inside-Ensures P _ m s h (λ a t x. (t, x, refl)))
        (λ a u (t, x, same). rw same (next a t x))

  pub inside-then :
      {B : Type 0} (P : T → Type 0) (Q : B → S → Type 0) (m : Action T (Unit {0})) (g : Action S B)
      (s : S)
      → Ensures (λ u t. P t) (m (get s))
      → ((t : T) → P t → Ensures Q (g (put t s)))
      → Ensures Q ((inside m >> g) s)
  unfolding ◌>>◌
  inside-then P Q m g s h next = inside-bind (λ u. P) Q m (λ _. g) s h (λ u t x. next t x)

  pub inside-bind_Returns :
      {A B : Type 0} (P : A → T → Type 0) (Q : B → S → Type 0) (m : Action T A) (g : A → Action S B)
      (s : S)
      → Returns P (m (get s))
      → ((a : A) (t : T) → P a t → Returns Q (g a (put t s)))
      → Returns Q ((inside m >>= g) s)
  inside-bind_Returns {A = A} P Q m g s h next =
      Returns-bind (λ a u. (t : T) × P a t × (u ≡ put t s)) Q _ g s
        (inside-Returns P _ m s h (λ a t x. (t, x, refl)))
        (λ a u (t, x, same). rw same (next a t x))
