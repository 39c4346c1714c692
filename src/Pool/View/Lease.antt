-- ===== src/Pool/View/Lease.antt =====
-- Handing connections and channels out and taking them back: what each call does to the queue and
-- to the cache.
use friendlyrabbit.Base.{
  ℕ, zero, suc, ◌<◌, ◌≡◌, refl, ◌∙◌, ap, Bool, true, false, some, List, [], ◌∷◌, ◌++◌, Action, pure,
  All, All-append, length, length-append, waits, arith, Ensures, Ensures-mono, Ensures-bind,
  Ensures-then,
}
use friendlyrabbit.Error.{Result, ok, err}
use friendlyrabbit.Env.{Env, Item, host, other}
use friendlyrabbit.Env.Fifo.{IsFifo}
use friendlyrabbit.Pool.State.{ChannelHost, Pool}
use friendlyrabbit.Pool.Connection.{on_result}
use friendlyrabbit.Pool.Lease.{
  get_connection_from_pool, get_connection, put_connection, return_connection, created, create_on,
  create_cache_channel,
}
use friendlyrabbit.Pool.Channel.{blank_channel}
use friendlyrabbit.Pool.Steady.{Keeps-load, id_of}
use friendlyrabbit.Pool.Steady.Recovery.{
  handle_error-Keeps, flag_connection-Keeps, verify_healthy_connection-Keeps,
}
use friendlyrabbit.Pool.Steady.Channel.{IsUsable, IsNew, new_channel_host-Keeps}
use friendlyrabbit.Pool.View.{IsBelow, At, At-queue, At-bind, At-then}

module _ (e : Env) (f : IsFifo e) (r : Pool e) where
  from_pool_lem :
      (s : Pool e) (p : ℕ) (rest : List Item) (chs : List (ChannelHost e))
      → At e f r (host p ∷ rest) chs s
      → Ensures (λ x t. (x ≡ ok p) × At e f r rest chs t) (get_connection_from_pool e s)
  unfolding get_connection_from_pool
  from_pool_lem s p rest chs v =
      let (q, got, left) = f.get_one s.connections (host p) rest v.queue in
      rw got (refl, At-queue e f r s _ rest chs q v left)

  -- GetConnection takes the first host of the queue.
  pub get_connection_lem :
      (rounds : ℕ) (s : Pool e) (p : ℕ) (rest : List Item) (chs : List (ChannelHost e))
      → p < r.next_host
      → At e f r (host p ∷ rest) chs s
      → Ensures (λ x t. (x ≡ ok p) × At e f r rest chs t) (get_connection e rounds s)
  unfolding get_connection on_result pure
  get_connection_lem rounds s p rest chs lt v =
      Ensures-bind (λ x t. (x ≡ ok p) × At e f r rest chs t) _ _ _ s (from_pool_lem s p rest chs v)
        λ x t h. rw (h.0) (
          At-then e f _ _ _ r t rest chs h.1
            (verify_healthy_connection-Keeps e t rounds p (rw (h.1.next_host) lt))
            (λ u k. (refl, k)))

  put_connection_lem :
      (s : Pool e) (p : ℕ) (is : List Item) (chs : List (ChannelHost e))
      → At e f r is chs s
      → Ensures (λ u t. At e f r (is ++ (host p ∷ [])) chs t) (put_connection e p s)
  unfolding put_connection
  put_connection_lem s p is chs v =
      At-queue e f r s is _ chs _ v
        (f.contents-put (host p) s.connections ∙ ap (λ is. is ++ (host p ∷ [])) v.queue)

  -- ReturnConnection puts the host at the end of the queue, flagged or not.
  return_connection_lem :
      (s : Pool e) (p : ℕ) (flag : Bool) (is : List Item) (chs : List (ChannelHost e))
      → p < r.next_host
      → At e f r is chs s
      → Ensures (λ u t. At e f r (is ++ (host p ∷ [])) chs t) (return_connection e p flag s)
  unfolding return_connection
  return_connection_lem s p false is chs lt v = put_connection_lem s p is chs v
  return_connection_lem s p true is chs lt v =
      At-bind e f _ _ _ _ r s is chs v (Keeps-load e s p (rw (v.next_host) lt)) λ h t known w.
        At-then e f _ _ _ r t is chs w (flag_connection-Keeps e t h.connection_id)
          λ u k. put_connection_lem u p is chs k

-- The queue turned round some number of times: its head goes to its end.
pub data Rotates : List Item → List Item → Type 0 where
  here : {is : List Item} → Rotates is is
  turn : {i : Item} {is js : List Item} → Rotates (is ++ (i ∷ [])) js → Rotates (i ∷ is) js

module _ (e : Env) (f : IsFifo e) (r : Pool e) where
  -- A channel made by createCacheChannel: usable, on the host that now stands last in the queue.
  pub record IsCreated (id : ℕ) (cacheble : Bool) (p : ℕ) (ch : ChannelHost e) : Type 0 where
    pub usable : IsUsable e ch
    pub id_given : ch.id ≡ id
    pub is_ackable : ch.ackable ≡ true
    pub kind_given : ch.transient ≡ cacheble
    pub host_given : ch.conn_host ≡ p
    pub host_id : some ch.connection_id ≡ id_of e (r.hosts p)

  -- The state that it leaves: the queue turned round, the cache as it was.
  abbrev pub Created : ℕ → Bool → List Item → List (ChannelHost e) → ChannelHost e → Pool e → Type 0
  Created id cacheble is chs ch t =
      (p : ℕ) × (front : List Item) × (p < r.next_host)
      × All (IsBelow r.next_host) front
      × Rotates is (front ++ (host p ∷ []))
      × At e f r (front ++ (host p ∷ [])) chs t
      × IsCreated id cacheble p ch

  create_on_lem :
      (again : Action (Pool e) (ChannelHost e)) (id : ℕ) (cacheble : Bool) (s : Pool e) (p : ℕ)
      (rest : List Item) (chs : List (ChannelHost e))
      → p < r.next_host
      → All (IsBelow r.next_host) rest
      → At e f r rest chs s
      → ((t : Pool e)
          → At e f r (rest ++ (host p ∷ [])) chs t
          → Ensures (Created id cacheble (rest ++ (host p ∷ [])) chs) (again t))
      → Ensures (Created id cacheble (host p ∷ rest) chs) (create_on e again id cacheble p s)
  unfolding create_on pure
  create_on_lem again id cacheble s p rest chs lt below v next =
      At-bind e f _ _ _ _ r s rest chs v (Keeps-load e s p (rw (v.next_host) lt)) λ h t known w.
        At-bind e f _ _ _ _ r t rest chs w
          (new_channel_host-Keeps e t p id h.connection_id true cacheble (rw (w.next_host) lt))
          (finish h.connection_id (known.1 ∙ v.ids p lt))
    where
      after : List Item
      after = rest ++ (host p ∷ [])

      turned :
          (ch : ChannelHost e) (t : Pool e)
          → Created id cacheble after chs ch t
          → Created id cacheble (host p ∷ rest) chs ch t
      turned ch t (q, front, qlt, fbelow, rot, k, c) = (q, front, qlt, fbelow, turn rot, k, c)

      finish :
          (cid : ℕ)
          → some cid ≡ id_of e (r.hosts p)
          → (x : Result (ChannelHost e)) (t : Pool e)
          → IsNew e (blank_channel e p id cid true cacheble) x
          → At e f r rest chs t
          → Ensures (Created id cacheble (host p ∷ rest) chs) (created e again p x t)
      finish cid same (ok ch) t (new, usable) w =
          Ensures-then (At e f r after chs) _ _ _ t (put_connection_lem e f r t p rest chs w) λ u k.
            (
              p,
              rest,
              lt,
              below,
              turn here,
              k,
              record {
                usable = usable;
                id_given = new.id;
                is_ackable = new.ackable;
                kind_given = new.transient;
                host_given = new.conn_host;
                host_id = ap some new.connection_id ∙ same;
              },
            )
      finish cid same (err x) t new w =
          At-then e f _ _ _ r t rest chs w (handle_error-Keeps e t x) λ u k.
            Ensures-then (At e f r after chs) _ _ _ u
              (return_connection_lem e f r u p true rest chs lt k)
              λ u k. Ensures-mono _ _ (again u) turned (next u k)

  -- createCacheChannel on a pool whose queue is not empty.
  pub create_lem :
      (rounds tries id : ℕ) (cacheble : Bool) (s : Pool e) (is : List Item)
      (chs : List (ChannelHost e))
      → All (IsBelow r.next_host) is
      → 0 < length is
      → At e f r is chs s
      → Ensures (Created id cacheble is chs) (create_cache_channel e rounds tries id cacheble s)
  unfolding create_cache_channel on_result waits
  create_lem rounds zero id cacheble s is chs below some_left v = tt
  create_lem rounds (suc tries) id cacheble s [] chs below some_left v = absurd (omega arith)
  create_lem rounds (suc tries) id cacheble s (other ∷ rest) chs below some_left v = absurd below.0
  create_lem rounds (suc tries) id cacheble s (host p ∷ rest) chs below some_left v =
      Ensures-bind (λ x t. (x ≡ ok p) × At e f r rest chs t) _ _ _ s
        (get_connection_lem e f r rounds s p rest chs below.0 v)
        λ x t h. rw (h.0) (
          create_on_lem _ id cacheble t p rest chs below.0 below.1 h.1 λ u k.
            create_lem rounds tries id cacheble u (rest ++ (host p ∷ [])) chs
              (All-append _ rest _ below.1 (below.0, tt))
              (omega (arith, length-append rest (host p ∷ []))) k)
