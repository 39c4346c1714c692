-- ===== src/Publisher/Step.antt =====
-- A step on the pool inside the publisher, which leaves the rest of the publisher as it is.
use friendlyrabbit.Error.{Error}
use friendlyrabbit.Message.Letter.{Letter, PublishReceipt, receipt_of}
use friendlyrabbit.Base.{
  ◌+◌, ◌%◌, ◌≡◌, refl, true, false, Option, none, some, Action, ◌>>=◌, ◌>>◌, Ensures, inside-bind,
  inside-Ensures, inside-then,
}
use friendlyrabbit.Env.{Env}
use friendlyrabbit.Payload.Packages.{Packages}
use friendlyrabbit.Pool.State.{Pool}
use friendlyrabbit.Publisher.State.{Publisher, put_pool, on_pool}

module _ (k : Packages) where
  -- The receipt of a publish, by its error: a failed letter comes back with its count, of 16 bits,
  -- one higher.
  abbrev pub receipt_for : Letter k → Option Error → PublishReceipt k
  receipt_for l none = record {
    letter_id = l.letter_id;
    failed_letter = none;
    success = true;
    error = none;
  }
  receipt_for l (some x) = record {
    letter_id = l.letter_id;
    failed_letter =
        some (record l { opts = record l.opts { retry_count = (l.opts.retry_count + 1) % 65536 } });
    success = false;
    error = some x;
  }

  pub receipt_of-receipt_for :
      (l : Letter k) (x : Option Error) → receipt_of k l x ≡ receipt_for l x
  unfolding receipt_of
  receipt_of-receipt_for l none = refl
  receipt_of-receipt_for l (some x) = refl

module _ (e : Env) (k : Packages) where
  pub on_pool-bind :
      {A B : Type 0} (P : A → Pool e → Type 0) (Q : B → Publisher e k → Type 0)
      (m : Action (Pool e) A) (g : A → Action (Publisher e k) B) (s : Publisher e k)
      → Ensures P (m s.pool)
      → ((a : A) (p : Pool e) → P a p → Ensures Q (g a (record s { pool = p })))
      → Ensures Q ((on_pool e k m >>= g) s)
  unfolding on_pool
  on_pool-bind P Q m g s h next = inside-bind (λ s. s.pool) (put_pool e k) P Q m g s h next

  pub on_pool-Ensures :
      {A : Type 0} (P : A → Pool e → Type 0) (Q : A → Publisher e k → Type 0)
      (m : Action (Pool e) A) (s : Publisher e k)
      → Ensures P (m s.pool)
      → ((a : A) (p : Pool e) → P a p → Q a (record s { pool = p }))
      → Ensures Q (on_pool e k m s)
  unfolding on_pool
  on_pool-Ensures P Q m s h next = inside-Ensures (λ s. s.pool) (put_pool e k) P Q m s h next

  pub on_pool-then :
      {B : Type 0} (P : Pool e → Type 0) (Q : B → Publisher e k → Type 0)
      (m : Action (Pool e) (Unit {0})) (g : Action (Publisher e k) B) (s : Publisher e k)
      → Ensures (λ u p. P p) (m s.pool)
      → ((p : Pool e) → P p → Ensures Q (g (record s { pool = p })))
      → Ensures Q ((on_pool e k m >> g) s)
  unfolding on_pool
  on_pool-then P Q m g s h next = inside-then (λ s. s.pool) (put_pool e k) P Q m g s h next
