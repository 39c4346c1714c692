-- ===== src/Pool/Closing.antt =====
-- Shutdown: it returns, and what it leaves of the pool.
use friendlyrabbit.Base.{
  ℕ, suc, ◌≡◌, ◌∙◌, ap, refl, Bool, true, false, Option, none, some, List, [], ◌∷◌, Action, Run,
  done, panic, stuck, pure, recovered, choose, ◌>>=◌, ◌>>◌, All, Any, Total, Total-pure, Total-then,
  Returns, Returns-bind, Bool-cases, inl, inr,
}
use friendlyrabbit.Config.{PoolConfig}
use friendlyrabbit.Env.{Env, Item, host, other}
use friendlyrabbit.Env.Fifo.{IsFifo}
use friendlyrabbit.Pool.State.{ConnectionHost, ChannelHost, Pool, call, load, the}
use friendlyrabbit.Pool.Channel.{close}
use friendlyrabbit.Pool.Recovery.{is_connection_flagged}
use friendlyrabbit.Pool.Lease.{close_quietly}
use friendlyrabbit.Pool.Start.{
  reset_connections, renew_connections, no_channels, close_channels, close_if_open,
  close_connection_of, close_host, close_items, close_got, close_round, close_connections,
  flush_channels, forget, shutdown,
}
use friendlyrabbit.Pool.View.{IsBelow, IsSound}

-- An action that is never stuck, and keeps a property even where it panics.
module _ {S : Type 0} (P : S → Type 0) where
  abbrev Left : {A : Type 0} → Run S A → Type 0
  Left (done a s) = P s
  Left (panic s) = P s
  Left stuck = ⊥

  record Quiet {A : Type 0} (m : Action S A) : Type 0 where
    pub leaves : (s : S) → P s → Left (m s)

  Quiet-bind :
      {A B : Type 0} (m : Action S A) (f : A → Action S B)
      → Quiet m
      → ((a : A) → Quiet (f a))
      → Quiet (m >>= f)
  unfolding ◌>>=◌
  Quiet-bind {A = A} {B = B} m f qm qf = record { leaves = λ s p. after (m s) (qm.leaves s p) }
    where
      after :
          (r : Run S A)
          → Left r
          → Left {A = B} (elim r [ done a t ↦ f a t | panic t ↦ panic t | stuck ↦ stuck ])
      after (done a t) p = (qf a).leaves t p
      after (panic t) p = p
      after stuck p = p

  Total-recovered : (m : Action S (Unit {0})) → Quiet m → Total P Any (recovered m)
  unfolding recovered
  Total-recovered m q = record { returns = λ s p. after (m s) (q.leaves s p) }
    where
      after :
          (r : Run S (Unit {0}))
          → Left r
          → Returns
              (λ u t. Any u × P t)
              (elim r [ done u t ↦ done u t | panic t ↦ done tt t | stuck ↦ stuck ])
      after (done u t) p = (tt, p)
      after (panic t) p = (tt, p)
      after stuck p = p

module _ (e : Env) (q : e.Queue) (c : PoolConfig) (chs : List (ChannelHost e)) where
  -- The queue, the cache and the settings are these.
  abbrev Holds : Pool e → Type 0
  Holds s = (s.connections ≡ q) × (s.config ≡ c) × (s.channels ≡ chs)

  Quiet-call : {A : Type 0} (f : e.Net → A × e.Net) → Quiet Holds (call e f)
  unfolding call
  Quiet-call f = record { leaves = λ s p. p }

  Quiet-the : {A : Type 0} (o : Option A) → Quiet Holds (the o)
  unfolding the
  Quiet-the none = record { leaves = λ s p. p }
  Quiet-the (some a) = record { leaves = λ s p. p }

  Quiet-load : (p : ℕ) → Quiet Holds (load e p)
  unfolding load
  Quiet-load p = record { leaves = λ s h. found s h (s.hosts p) }
    where
      found :
          (s : Pool e)
          → Holds s
          → (o : Option (ConnectionHost e))
          → Left Holds {A = ConnectionHost e} (elim o [ none ↦ panic s | some h ↦ done h s ])
      found s h none = h
      found s h (some x) = h

  close_quietly-Total : (ch : ChannelHost e) → Total Holds Any (close_quietly e ch)
  unfolding close_quietly close
  close_quietly-Total ch =
      Total-recovered Holds _ (Quiet-bind Holds _ _ (Quiet-the ch.channel) (λ d. Quiet-call _))

  close_if_open-Quiet :
      (d : e.Connection) (is_shut : Bool) → Quiet Holds (close_if_open e d is_shut)
  unfolding close_if_open choose pure
  close_if_open-Quiet d true = record { leaves = λ s p. p }
  close_if_open-Quiet d false = Quiet-call _

  close_host-Total : (p : ℕ) → Total Holds Any (close_host e p)
  unfolding close_host close_connection_of
  close_host-Total p = Total-recovered Holds _ (
      Quiet-bind Holds _ _ (Quiet-load p) λ h.
        Quiet-bind Holds _ _ (Quiet-the h.connection)
          λ d. Quiet-bind Holds _ _ (Quiet-call _) (close_if_open-Quiet d))

  close_items-Total :
      (n : ℕ) (is : List Item) → All (IsBelow n) is → Total Holds Any (close_items e is)
  unfolding close_items
  close_items-Total n [] below = Total-pure Any tt tt
  close_items-Total n (host p ∷ is) below =
      Total-then Any _ _ (close_host-Total p) (close_items-Total n is below.1)
  close_items-Total n (other ∷ is) below = absurd below.0

  -- The loop over the cache, up to the point where the cache is empty.
  close_channels_lem :
      (left : List (ChannelHost e)) (s : Pool e)
      → Holds s
      → Returns
          (λ u t. (t.connections ≡ q) × (t.config ≡ c) × (t.channels ≡ []))
          (close_channels e left s)
  unfolding close_channels no_channels ◌>>◌
  close_channels_lem [] s h = (h.0, h.1, refl)
  close_channels_lem (ch ∷ left) s h =
      Returns-bind (λ u t. Any u × Holds t)
        (λ u t. (t.connections ≡ q) × (t.config ≡ c) × (t.channels ≡ [])) (close_quietly e ch)
        (λ u. close_channels e left) s ((close_quietly-Total ch).returns s h)
        (λ u t k. close_channels_lem left t k.1)

module _ (e : Env) (f : IsFifo e) where
  -- The queue and the cache are empty.
  abbrev IsEmpty : Pool e → Type 0
  IsEmpty t = (f.contents t.connections ≡ []) × (t.channels ≡ [])

  close_round_lem :
      (again : Action (Pool e) (Unit {0})) (s : Pool e)
      → IsEmpty s
      → Returns (λ u t. IsEmpty t) (close_round e again s)
  unfolding close_round
  close_round_lem again s h = rw ((f.is_empty_iff s.connections).1 (h.0)) h

  not_empty :
      (q : e.Queue) (i : Item) (rest : List Item) → f.contents q ≡ i ∷ rest → e.is_empty q ≡ false
  not_empty q i rest same = elim (Bool-cases (e.is_empty q)) [
    | inl gone ↦ absurd (both ((f.is_empty_iff q).0 gone))
    | inr left ↦ left
  ]
    where
      both : f.contents q ≡ [] → ⊥
      both none_left = cc

  close_connections_lem :
      (rounds n : ℕ) (s : Pool e) (is : List Item)
      → f.contents s.connections ≡ is
      → All (IsBelow n) is
      → s.channels ≡ []
      → Returns (λ u t. IsEmpty t) (close_connections e (suc (suc rounds)) s)
  unfolding close_connections close_round close_got ◌>>◌
  close_connections_lem rounds n s [] same below none_left = close_round_lem _ s (same, none_left)
  close_connections_lem rounds n s (i ∷ rest) same below none_left =
      let (q, got, left) = f.get_all s.connections i rest same in
      rw (not_empty s.connections i rest same, got)
        (Returns-bind (λ u t. Any u × Holds e q s.config [] t) (λ u t. IsEmpty t)
          (close_items e (i ∷ rest)) (λ u. close_connections e (suc rounds))
          (record s { connections = q })
          ((close_items-Total e q s.config [] n (i ∷ rest) below).returns
            (record s { connections = q }) (refl, refl, none_left))
          (λ u t k. close_round_lem _ t (ap f.contents (k.1.0) ∙ left, k.1.2)))

  renew_lem :
      ((n : ℕ) → (q : e.Queue) × (e.new_queue n ≡ some q))
      → (s : Pool e) → s.channels ≡ []
      → Returns (λ u t. IsEmpty t) (renew_connections e s)
  unfolding renew_connections reset_connections
  renew_lem makes s none_left =
      let (q, made) = makes s.config.max_connection_count in
      rw made (f.contents-new s.config.max_connection_count q made, none_left)

  -- Shutdown of a sound pool returns, whatever happens to its connections and channels meanwhile,
  -- provided that the queue package makes new queues: two rounds of the loop over the queue are
  -- enough. No channel and no host is left in the pool, no connection is flagged, and the
  -- connections are counted from 0 again.
  pub shutdown-Returns :
      (rounds : ℕ) (s : Pool e)
      → IsSound e f s
      → ((n : ℕ) → (q : e.Queue) × (e.new_queue n ≡ some q))
      → Returns
          (λ u t.
            (f.contents t.connections ≡ [])
            × (t.channels ≡ [])
            × (t.connection_id ≡ 0)
            × ((id : ℕ) → is_connection_flagged e t id ≡ false))
          (shutdown e (suc (suc rounds)) s)
  unfolding shutdown flush_channels forget is_connection_flagged ◌>>◌ ◌>>=◌
  shutdown-Returns rounds s sound makes =
      Returns-bind
        (λ u t. (t.connections ≡ s.connections) × (t.config ≡ s.config) × (t.channels ≡ [])) _
        (flush_channels e) _ s
        (close_channels_lem e s.connections s.config s.channels s.channels s (refl, refl, refl))
        λ u t h.
          Returns-bind (λ u t. IsEmpty t) _ (close_connections e (suc (suc rounds))) _ t
            (close_connections_lem rounds s.next_host t (f.contents s.connections)
              (ap f.contents (h.0)) sound.queued h.2)
            λ u w k.
              Returns-bind (λ u t. IsEmpty t) _ (renew_connections e) (λ u. forget e) w
                (renew_lem makes w k.1) (λ u x m. (m.0, m.1, refl, λ id. refl))
