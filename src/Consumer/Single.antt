-- ===== src/Consumer/Single.antt =====
-- Get, in a world in which connections are up and channels open.
use friendlyrabbit.Base.{
  Any, ℕ, suc, ◌≡◌, refl, ◌∙◌, ap, String, Bool, true, false, Option, none, some, List, [], ◌∷◌,
  ◌++◌, pure, Action, ◌>>=◌, ◌>>◌, Returns, inside-bind_Returns,
}
use friendlyrabbit.Error.{Error, Result, ok, err}
use friendlyrabbit.Pool.View.Lease.{IsCreated}
use friendlyrabbit.Env.{Env, Item, host}
use friendlyrabbit.Env.Fifo.{IsFifo}
use friendlyrabbit.Payload.Packages.{Packages}
use friendlyrabbit.Message.Received.{Delivery}
use friendlyrabbit.Pool.State.{Pool, call, the}
use friendlyrabbit.Pool.Channel.{close}
use friendlyrabbit.Pool.Steady.{IsPresent}
use friendlyrabbit.Pool.View.{IsSound}
use friendlyrabbit.Pool.Promises.{Leaves}
use friendlyrabbit.Pool.Calm.Opening.{IsOpening}
use friendlyrabbit.Pool.Calm.Promises.{get_transient_channel-Returns}
use friendlyrabbit.Consumer.State.{Incoming, Consumer, put_pool, on_pool, get_on, got, get}

-- The answer to a request for a message: an error, a delivery, or neither if the queue is empty.
abbrev pub answer_of : {A : Type 0} → A → Bool → Option Error → Result (Option A)
answer_of d there (some x) = err x
answer_of d true none = ok (some d)
answer_of d false none = ok none

module _ (e : Env) (k : Packages) (i : Incoming e k) (f : IsFifo e) (rounds : ℕ)
    (s : Consumer e k i) (sound : IsSound e f s.pool) where
  abbrev Left : List Item → Pool e → Type 0
  Left is t = Leaves e f rounds s.pool sound is t

  Left-net : (is : List Item) (t : Pool e) (w : e.Net) → Left is t → Left is (record t { net = w })
  Left-net is t w (v, q, c) = (record { live = v.live; queued = v.queued; cached = v.cached }, q, c)

  -- A request on a channel that is there.
  asks_lem :
      {A : Type 0} (Q : A → Type 0) (is : List Item) (g : e.Channel → e.Net → A × e.Net)
      (o : Option e.Channel) (t : Pool e)
      → IsPresent o
      → ((c : e.Channel) (w : e.Net) → Q (g c w).0)
      → Left is t
      → Returns (λ a u. Q a × Left is u) ((the o >>= λ c. call e (g c)) t)
  unfolding the call ◌>>=◌
  asks_lem Q is g none t there h l = absurd there
  asks_lem Q is g (some c) t there h l = (h c t.net, Left-net is t _ l)

  on_pool-Returns :
      {A B : Type 0} (P : A → Pool e → Type 0) (Q : B → Consumer e k i → Type 0)
      (m : Action (Pool e) A) (g : A → Action (Consumer e k i) B) (t : Consumer e k i)
      → Returns P (m t.pool)
      → ((a : A) (p : Pool e) → P a p → Returns Q (g a (record t { pool = p })))
      → Returns Q ((on_pool e k i m >>= g) t)
  unfolding on_pool
  on_pool-Returns P Q m g t h next =
      inside-bind_Returns (λ s. s.pool) (put_pool e k i) P Q m g t h next

  got_lem :
      (d : Delivery e.Net i.Time) (there : Bool) (x : Option Error)
      → got e k i (d, there, x) ≡ answer_of d there x
  unfolding got
  got_lem d there (some x) = refl
  got_lem d true none = refl
  got_lem d false none = refl

  -- In a world in which connections are up and channels open, and in which the broker answers every
  -- request for a message of the queue in the same way, Get returns: the error of the answer, or the
  -- delivery, or nothing if there is none. It uses a new channel of the first host, which is the last
  -- of the queue then; the cache is as it was, and the pool is sound.
  pub get-Returns :
      (queue : String) (p : ℕ) (rest : List Item) (d : Delivery e.Net i.Time) (there : Bool)
      (x : Option Error)
      → IsOpening e
      → ((c : e.Channel) (w : e.Net) → (i.get c queue true w).0 ≡ (d, there, x))
      → f.contents s.pool.connections ≡ host p ∷ rest
      → Returns
          (λ a t.
            (a ≡ answer_of d there x)
            × Leaves e f rounds s.pool sound (rest ++ (host p ∷ [])) t.pool)
          (get e k i (suc rounds) queue s)
  unfolding get get_on close ◌>>◌ pure
  get-Returns queue p rest d there x o answers same =
      let Q : Result (Option (Delivery e.Net i.Time)) → Consumer e k i → Type 0 =
        λ a t. (a ≡ answer_of d there x) × Left (rest ++ (host p ∷ [])) t.pool in
      on_pool-Returns (λ ch t. IsCreated e f s.pool 0 false p ch × Left (rest ++ (host p ∷ [])) t) Q
        _ _ s (get_transient_channel-Returns e f rounds s.pool sound o false p rest same)
        λ ch t (made, left).
          on_pool-Returns (λ a u. (a ≡ (d, there, x)) × Left (rest ++ (host p ∷ [])) u) Q
            (get_on e k i queue ch) _ (put_pool e k i t s)
            (asks_lem (λ a. a ≡ (d, there, x)) _ (λ c. i.get c queue true) ch.channel t
              made.usable.0 answers left)
            λ a u (is, left').
              on_pool-Returns (λ b v. Any b × Left (rest ++ (host p ∷ [])) v) Q (close e ch) _
                (put_pool e k i u s)
                (asks_lem Any _ e.close_channel ch.channel u made.usable.0 (λ c w. tt) left')
                λ b v (_, left''). (ap (got e k i) is ∙ got_lem d there x, left'')
