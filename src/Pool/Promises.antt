-- ===== src/Pool/Promises.antt =====
-- What the calls that hand out and take back connections and channels promise of a sound pool.
use friendlyrabbit.Base.{
  some, ◌&&◌, ◌==◌, if◌then◌else◌, ℕ, ◌<◌, ◌≡◌, refl, Bool, true, List, [], ◌∷◌, ◌++◌, All,
  All-append, length, Ensures, Returns, Returns-mono, Ensures-mono,
}
use friendlyrabbit.Error.{ok}
use friendlyrabbit.Env.{Env, Item, host}
use friendlyrabbit.Env.Fifo.{IsFifo}
use friendlyrabbit.Pool.State.{ConnectionHost, ChannelHost, Pool}
use friendlyrabbit.Pool.Recovery.{is_connection_flagged}
use friendlyrabbit.Pool.View.Flags.{Returns-both, Flags, return_connection-Flags}
use friendlyrabbit.Pool.Lease.{
  get_connection, return_connection, create_cache_channel, return_channel,
}
use friendlyrabbit.Pool.View.{IsBelow, IsSound, At, At-here, At-IsSound}
use friendlyrabbit.Pool.View.Back.{return_connection_lem}
use friendlyrabbit.Pool.View.Lease.{get_connection_lem, Created, create_lem}
use friendlyrabbit.Pool.View.Channels.{Returned, return_channel_lem}

module _ (e : Env) (f : IsFifo e) (rounds : ℕ) (s : Pool e) (sound : IsSound e f s) where
  -- The pool is sound, its queue is the given one, and its cache is as it was.
  abbrev pub Leaves : List Item → Pool e → Type 0
  Leaves is t = IsSound e f t × (f.contents t.connections ≡ is) × (t.channels ≡ s.channels)

  pub leaves :
      (is : List Item) (t : Pool e)
      → All (IsBelow s.next_host) is
      → At e f s is s.channels t
      → Leaves is t
  leaves is t below v = (At-IsSound e f s t is s.channels v below sound.cached, v.queue, v.cache)

  -- GetConnection on a sound pool with a host in the queue does not panic, whatever the connection
  -- goes through; if it returns, it has taken the first host of the queue, and the pool is sound
  -- and otherwise holds what it held.
  pub get_connection-head :
      (p : ℕ) (rest : List Item)
      → f.contents s.connections ≡ host p ∷ rest
      → Ensures (λ x t. (x ≡ ok p) × Leaves rest t) (get_connection e rounds s)
  get_connection-head p rest same =
      let below : All (IsBelow s.next_host) (host p ∷ rest) = rw same at (sound.queued) in
      Ensures-mono _ (λ x t. (x ≡ ok p) × Leaves rest t) _
        (λ x t h. (h.0, leaves rest t below.1 h.1))
        (get_connection_lem e f s rounds s p rest s.channels below.0
          (At-here e f s _ s.channels sound same refl))

  -- ReturnConnection of a host of a sound pool returns: the host is the last of the queue then, the
  -- pool is sound and its cache as it was, the connection of the host is flagged if that was asked
  -- for, and all other flags are as they were.
  pub return_connection-last :
      (p : ℕ) (h : ConnectionHost e) (flag : Bool)
      → p < s.next_host
      → s.hosts p ≡ some h
      → Returns
          (λ u t.
            Leaves (f.contents s.connections ++ (host p ∷ [])) t
            × ((id : ℕ)
                → is_connection_flagged e t id ≡ (
                    if flag && (id == h.connection_id)
                    then true
                    else is_connection_flagged e s id)))
          (return_connection e p flag s)
  return_connection-last p h flag lt there =
      let is = f.contents s.connections ++ (host p ∷ []) in
      Returns-both (λ u t. Leaves is t) (λ u t. Flags e s p h there flag t)
        (return_connection e p flag s)
        (Returns-mono (λ u t. At e f s is s.channels t) (λ u t. Leaves is t) _
          (λ u t v. leaves _ t (All-append _ _ (host p ∷ []) sound.queued (lt, tt)) v)
          (return_connection_lem e f s s p flag _ s.channels lt
            (At-here e f s _ s.channels sound refl refl)))
        (return_connection-Flags e s p h there flag)

  -- What createCacheChannel and GetTransientChannel leave of a sound pool `s`: the queue turned
  -- round, the channel's host last, the cache as it was, and a usable channel.
  abbrev pub MadeChannel : ℕ → Bool → ChannelHost e → Pool e → Type 0
  MadeChannel id cacheble ch t =
      Created e f s id cacheble (f.contents s.connections) s.channels ch t × IsSound e f t

  Created-IsSound :
      (id : ℕ) (cacheble : Bool) (ch : ChannelHost e) (t : Pool e)
      → Created e f s id cacheble (f.contents s.connections) s.channels ch t
      → MadeChannel id cacheble ch t
  Created-IsSound id cacheble ch t (p, front, lt, below, rot, v, made) = (
    (p, front, lt, below, rot, v, made),
    At-IsSound e f s t _ s.channels v (All-append _ front _ below (lt, tt)) sound.cached,
  )

  -- createCacheChannel on a sound pool with a host in the queue does not panic, whatever fails on
  -- the way. If it returns, then with a usable channel of the given id and kind that confirms, on
  -- the host that is now last in the queue, whose connection's id it has; no host is lost, since
  -- the queue is the old one turned round, and the cache is as it was.
  pub create_cache_channel-IsSound :
      (tries id : ℕ) (cacheble : Bool)
      → 0 < length (f.contents s.connections)
      → Ensures (MadeChannel id cacheble) (create_cache_channel e rounds tries id cacheble s)
  create_cache_channel-IsSound tries id cacheble some_left =
      Ensures-mono _ _ _ (Created-IsSound id cacheble) (
        create_lem e f s rounds tries id cacheble s _ s.channels sound.queued some_left
          (At-here e f s _ s.channels sound refl refl))

  -- ReturnChannel of a channel of the cache, on a sound pool, does not panic. If it returns, there
  -- was room in the cache, and the channel is the last of it: the same one if it had not erred, and
  -- otherwise one with the same id, host and kind that was opened anew and is usable.
  pub return_channel-last :
      (ch : ChannelHost e) (erred : Bool)
      → ch.conn_host < s.next_host
      → ch.transient ≡ true
      → Ensures
          (λ u t. Returned e f s (f.contents s.connections) s.channels erred ch t)
          (return_channel e rounds ch erred s)
  return_channel-last ch erred lt cached =
      return_channel_lem e f s _ s.channels rounds s ch erred lt cached
        (At-here e f s _ s.channels sound refl refl)
