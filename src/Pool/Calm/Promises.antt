-- ===== src/Pool/Calm/Promises.antt =====
-- In a calm world the calls that hand out connections and channels return, with one round of each
-- loop at least.
use friendlyrabbit.Base.{
  false, Bool, Total-and, some, ℕ, suc, ◌<◌, ◌≡◌, refl, Bool, true, List, [], ◌∷◌, ◌++◌, All,
  All-append, Action, Any, Returns, Returns-bind, Returns-mono, pure, ◌>>◌, ◌∙◌, ap,
}
use friendlyrabbit.Error.{Result, ok, err}
use friendlyrabbit.Env.{Env, Item, host}
use friendlyrabbit.Env.Fifo.{IsFifo}
use friendlyrabbit.Pool.State.{ChannelHost, Pool, load}
use friendlyrabbit.Pool.Connection.{on_result}
use friendlyrabbit.Pool.Channel.{blank_channel, new_channel_host}
use friendlyrabbit.Pool.Recovery.{handle_error, verify_healthy_connection}
use friendlyrabbit.Pool.Lease.{
  get_connection_from_pool, get_connection, put_connection, return_connection, created, create_on,
  create_cache_channel, get_transient_channel,
}
use friendlyrabbit.Pool.Steady.{Hosts, id_of}
use friendlyrabbit.Pool.Steady.Channel.{IsNew, new_channel_host-Keeps}
use friendlyrabbit.Pool.View.{IsBelow, IsSound, At, At-here, At-queue}
use friendlyrabbit.Pool.View.Back.{At-Returns, put_connection_lem}
use friendlyrabbit.Pool.View.Lease.{IsCreated}
use friendlyrabbit.Pool.Promises.{Leaves, leaves}
use friendlyrabbit.Pool.Calm.{IsCalm, Total-load, verify_healthy_connection-Answers}
use friendlyrabbit.Pool.Calm.Opening.{IsOpening, IsOk, new_channel_host-IsOk}

module _ (e : Env) (f : IsFifo e) (r : Pool e) where
  get_connection_from_pool_lem :
      (s : Pool e) (p : ℕ) (rest : List Item) (chs : List (ChannelHost e))
      → At e f r (host p ∷ rest) chs s
      → Returns (λ x t. (x ≡ ok p) × At e f r rest chs t) (get_connection_from_pool e s)
  unfolding get_connection_from_pool
  get_connection_from_pool_lem s p rest chs v =
      let (q, got, left) = f.get_one s.connections (host p) rest v.queue in
      rw got (refl, At-queue e f r s _ rest chs q v left)

  get_connection_lem :
      (calm : IsCalm e) (rounds : ℕ) (s : Pool e) (p : ℕ) (rest : List Item)
      (chs : List (ChannelHost e))
      → p < r.next_host
      → At e f r (host p ∷ rest) chs s
      → Returns (λ x t. (x ≡ ok p) × At e f r rest chs t) (get_connection e (suc rounds) s)
  unfolding get_connection on_result pure ◌>>◌
  get_connection_lem calm rounds s p rest chs lt v =
      Returns-bind (λ x t. (x ≡ ok p) × At e f r rest chs t)
        (λ x t. (x ≡ ok p) × At e f r rest chs t) (get_connection_from_pool e)
        (on_result (λ x. handle_error e x >> pure (err x))
          (λ p. verify_healthy_connection e (suc rounds) p >> pure (ok p)))
        s (get_connection_from_pool_lem s p rest chs v)
        λ x t h. rw (h.0) (
          Returns-bind (λ u w. Any u × At e f r rest chs w)
            (λ x t. (x ≡ ok p) × At e f r rest chs t) (verify_healthy_connection e (suc rounds) p)
            (λ u. pure (ok p)) t
            (At-Returns e f r Any _ t rest chs h.1
              (verify_healthy_connection-Answers e t calm rounds p (rw (h.1.next_host) lt)))
            (λ u w k. (refl, k.1)))

  -- The channel made on the first host, and the host put back.
  abbrev pub First :
      ℕ → Bool → ℕ → List Item → List (ChannelHost e) → ChannelHost e → Pool e → Type 0
  First id cacheble p rest chs ch t =
      IsCreated e f r id cacheble p ch × At e f r (rest ++ (host p ∷ [])) chs t

  created_lem :
      (again : Action (Pool e) (ChannelHost e)) (id : ℕ) (cacheble : Bool) (p cid : ℕ)
      (rest : List Item) (chs : List (ChannelHost e)) (x : Result (ChannelHost e)) (t : Pool e)
      → some cid ≡ id_of e (r.hosts p)
      → IsNew e (blank_channel e p id cid true cacheble) x
      → IsOk e x
      → At e f r rest chs t
      → Returns (First id cacheble p rest chs) (created e again p x t)
  unfolding created return_connection ◌>>◌ pure
  created_lem again id cacheble p cid rest chs (err x) t same new fine v = absurd fine
  created_lem again id cacheble p cid rest chs (ok ch) t same (new, usable) fine v =
      Returns-bind (λ u t. At e f r (rest ++ (host p ∷ [])) chs t) (First id cacheble p rest chs)
        (put_connection e p) (λ u. pure ch) t (put_connection_lem e f r t p rest chs v)
        λ u w k. (
          record {
            usable = usable;
            id_given = new.id;
            is_ackable = new.ackable;
            kind_given = new.transient;
            host_given = new.conn_host;
            host_id = ap some new.connection_id ∙ same;
          },
          k,
        )

  create_on_lem :
      (o : IsOpening e) (again : Action (Pool e) (ChannelHost e)) (id : ℕ) (cacheble : Bool)
      (s : Pool e) (p : ℕ) (rest : List Item) (chs : List (ChannelHost e))
      → p < r.next_host
      → At e f r rest chs s
      → Returns (First id cacheble p rest chs) (create_on e again id cacheble p s)
  unfolding create_on
  create_on_lem o again id cacheble s p rest chs lt v =
      Returns-bind _ (First id cacheble p rest chs) _ _ s
        (At-Returns e f r (Hosts e s p) (load e p) s rest chs v
          (Total-load e s p (rw (v.next_host) lt)))
        λ h t k.
          Returns-bind _ (First id cacheble p rest chs) _ (created e again p) t
            (At-Returns e f r _ (new_channel_host e p id h.connection_id true cacheble) t rest chs
              k.1
              (Total-and _ (IsOk e) _
                (new_channel_host-Keeps e t p id h.connection_id true cacheble
                  (rw (k.1.next_host) lt))
                (new_channel_host-IsOk e t o p id h.connection_id true cacheble
                  (rw (k.1.next_host) lt))))
            λ x w m.
              created_lem again id cacheble p h.connection_id rest chs x w (k.0.1 ∙ v.ids p lt)
                m.0.0 m.0.1 m.1

module _ (e : Env) (f : IsFifo e) (rounds : ℕ) (s : Pool e) (sound : IsSound e f s) where
  -- In a calm world GetConnection returns, from a sound pool with a host in the queue: it takes the
  -- first host of the queue, and leaves the pool sound, with the rest of the queue and the same
  -- cache. It does so even if the connection is flagged.
  pub get_connection-Returns :
      IsCalm e
      → (p : ℕ) (rest : List Item) → f.contents s.connections ≡ host p ∷ rest
      → Returns
          (λ x t. (x ≡ ok p) × Leaves e f rounds s sound rest t)
          (get_connection e (suc rounds) s)
  get_connection-Returns calm p rest same =
      let below : All (IsBelow s.next_host) (host p ∷ rest) = rw same at (sound.queued) in
      Returns-mono _ (λ x t. (x ≡ ok p) × Leaves e f rounds s sound rest t) _
        (λ x t h. (h.0, leaves e f rounds s sound rest t below.1 h.1))
        (get_connection_lem e f s calm rounds s p rest s.channels below.0
          (At-here e f s _ s.channels sound same refl))

  -- In a calm world in which channels open, createCacheChannel returns, from a sound pool with a
  -- host in the queue, with a usable channel of the given id and kind that confirms, on the host
  -- that was first in the queue and is last now; the rest of the queue has moved up, the cache is as
  -- it was, and the pool is sound.
  pub create_cache_channel-Returns :
      IsOpening e
      → (tries id : ℕ) (cacheble : Bool) (p : ℕ) (rest : List Item)
      → f.contents s.connections ≡ host p ∷ rest
      → Returns
          (λ ch t.
            IsCreated e f s id cacheble p ch × Leaves e f rounds s sound (rest ++ (host p ∷ [])) t)
          (create_cache_channel e (suc rounds) (suc tries) id cacheble s)
  unfolding create_cache_channel on_result
  create_cache_channel-Returns o tries id cacheble p rest same =
      let below : All (IsBelow s.next_host) (host p ∷ rest) = rw same at (sound.queued) in
      Returns-bind (λ x t. (x ≡ ok p) × At e f s rest s.channels t) _
        (get_connection e (suc rounds))
        (on_result (λ x. handle_error e x >> create_cache_channel e (suc rounds) tries id cacheble)
          (create_on e (create_cache_channel e (suc rounds) tries id cacheble) id cacheble))
        s
        (get_connection_lem e f s o.calm rounds s p rest s.channels below.0
          (At-here e f s _ s.channels sound same refl))
        λ x t h. rw (h.0) (
          Returns-mono (First e f s id cacheble p rest s.channels)
            (λ ch t.
              IsCreated e f s id cacheble p ch
              × Leaves e f rounds s sound (rest ++ (host p ∷ [])) t)
            _
            (λ ch t k. (
              k.0,
              leaves e f rounds s sound _ t
                  (All-append (IsBelow s.next_host) rest (host p ∷ []) below.1 (below.0, tt)) k.1,
            ))
            (create_on_lem e f s o _ id cacheble t p rest s.channels below.0 h.1))

  -- In such a world GetTransientChannel returns too, whether or not a confirming channel is asked
  -- for: the channel confirms, has the id 0 and is not one of the cache.
  pub get_transient_channel-Returns :
      IsOpening e
      → (ackable : Bool) (p : ℕ) (rest : List Item) → f.contents s.connections ≡ host p ∷ rest
      → Returns
          (λ ch t.
            IsCreated e f s 0 false p ch × Leaves e f rounds s sound (rest ++ (host p ∷ [])) t)
          (get_transient_channel e (suc rounds) ackable s)
  unfolding get_transient_channel
  get_transient_channel-Returns o ackable p rest same =
      create_cache_channel-Returns o rounds 0 false p rest same
