-- ===== src/Consumer/Triple.antt =====
-- What an action of the consumer leaves of the pool, from what the pool was: how such statements
-- compose, and what the actions that do not touch the pool leave of it.
use friendlyrabbit.Base.{
  Bool, true, false, Action, pure, choose, waits, ◌>>=◌, ◌>>◌, Ensures, Ensures-bind,
  inside-Ensures,
}
use friendlyrabbit.Env.{Env}
use friendlyrabbit.Payload.Packages.{Packages}
use friendlyrabbit.Pool.State.{Pool}
use friendlyrabbit.Consumer.State.{Incoming, Consumer, put_pool, on_pool}

module _ (e : Env) (k : Packages) (i : Incoming e k) where
  -- From a pool with `P` the action does not panic, and if it returns then the pool has `Q`.
  pub record Goes {A : Type 0} (P Q : Pool e → Type 0) (m : Action (Consumer e k i) A)
      : Type 0 where
    pub goes : (s : Consumer e k i) → P s.pool → Ensures (λ a t. Q t.pool) (m s)

  module _ {P Q : Pool e → Type 0} where
    pub Goes-waits : {A : Type 0} → Goes {A = A} P Q waits
    unfolding waits
    Goes-waits = record { goes = λ s h. tt }

    pub Goes-pure : {A : Type 0} (a : A) → ((p : Pool e) → P p → Q p) → Goes P Q (pure a)
    unfolding pure
    Goes-pure a f = record { goes = λ s h. f s.pool h }

    pub Goes-choose :
        {A : Type 0} (b : Bool) (m n : Action (Consumer e k i) A)
        → Goes P Q m
        → Goes P Q n
        → Goes P Q (choose b m n)
    unfolding choose
    Goes-choose true m n gm gn = gm
    Goes-choose false m n gm gn = gn

    pub Goes-on_pool :
        {A : Type 0} (m : Action (Pool e) A)
        → ((p : Pool e) → P p → Ensures (λ a q. Q q) (m p))
        → Goes P Q (on_pool e k i m)
    unfolding on_pool
    Goes-on_pool m h = record {
      goes = λ s p.
          inside-Ensures (λ s. s.pool) (put_pool e k i) (λ a q. Q q) _ m s (h s.pool p)
            (λ a q x. x);
    }

    pub Goes-bind :
        {A B : Type 0} (R : Pool e → Type 0) (m : Action (Consumer e k i) A)
        (g : A → Action (Consumer e k i) B)
        → Goes P R m
        → ((a : A) → Goes R Q (g a))
        → Goes P Q (m >>= g)
    Goes-bind R m g gm gg = record {
      goes = λ s p. Ensures-bind (λ a t. R t.pool) _ m g s (gm.goes s p) (λ a t q. (gg a).goes t q);
    }

    pub Goes-then :
        {B : Type 0} (R : Pool e → Type 0) (m : Action (Consumer e k i) (Unit {0}))
        (g : Action (Consumer e k i) B)
        → Goes P R m
        → Goes R Q g
        → Goes P Q (m >> g)
    unfolding ◌>>◌
    Goes-then R m g gm gg = Goes-bind R m (λ _. g) gm (λ _. gg)
