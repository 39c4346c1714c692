-- ===== src/Pool/View/Channels.antt =====
-- Returning a channel: a channel of the cache goes back to it, opened anew if it had an error.
use friendlyrabbit.Base.{
  ℕ, zero, suc, ◌<◌, ◌≡◌, refl, ap, Bool, true, false, none, some, List, [], ◌∷◌, ◌++◌, Action,
  length, leb, arith, waits, pure, choose, choose-true, Bool-cases, inl, inr, Ensures, Ensures-bind,
}
use friendlyrabbit.Config.{PoolConfig}
use friendlyrabbit.Env.{Env, Item}
use friendlyrabbit.Env.Fifo.{IsFifo}
use friendlyrabbit.Pool.State.{ChannelHost, Pool}
use friendlyrabbit.Pool.Channel.{Made}
use friendlyrabbit.Pool.Lease.{send_channel, remade, reconnect_channel, return_channel}
use friendlyrabbit.Pool.Steady.Recovery.{handle_error-Keeps, verify_healthy_connection-Keeps}
use friendlyrabbit.Pool.Steady.Channel.{
  IsSame, IsSame-refl, IsSame-trans, IsUsable, IsMade, make_channel-Keeps,
}
use friendlyrabbit.Pool.View.{At, At-cache, At-bind, At-then}

module _ (e : Env) (f : IsFifo e) (r : Pool e) (is : List Item) (chs : List (ChannelHost e)) where
  -- The channel that comes out of a reconnection.
  abbrev Reopened : ChannelHost e → ChannelHost e → Pool e → Type 0
  Reopened ch ch' t = IsSame e ch ch' × IsUsable e ch' × At e f r is chs t

  remade_lem :
      (again : ChannelHost e → Action (Pool e) (ChannelHost e)) (ch : ChannelHost e) (m : Made e)
      (t : Pool e)
      → IsMade e ch m
      → At e f r is chs t
      → ((ch' : ChannelHost e) (u : Pool e)
          → IsSame e ch ch'
          → At e f r is chs u
          → Ensures (Reopened ch) (again ch' u))
      → Ensures (Reopened ch) (remade e again m t)
  unfolding remade pure
  remade_lem again ch (ch', none) t (same, usable) v next = (same, usable, v)
  remade_lem again ch (ch', some x) t (same, usable) v next =
      At-then e f _ _ _ r t is chs v (handle_error-Keeps e t x) (λ u w. next ch' u same w)

  reconnect_channel_lem :
      (rounds tries : ℕ) (s : Pool e) (ch ch' : ChannelHost e)
      → ch.conn_host < r.next_host
      → IsSame e ch ch'
      → At e f r is chs s
      → Ensures (Reopened ch) (reconnect_channel e rounds tries ch' s)
  unfolding reconnect_channel waits
  reconnect_channel_lem rounds zero s ch ch' lt same v = tt
  reconnect_channel_lem rounds (suc tries) s ch ch' lt same v =
      At-then e f _ _ _ r s is chs v
        (verify_healthy_connection-Keeps e s rounds ch'.conn_host
          (rw (v.next_host, same.conn_host) lt))
        λ t w.
          At-bind e f _ _ _ _ r t is chs w
            (make_channel-Keeps e t ch' (rw (w.next_host, same.conn_host) lt))
            λ m u made k.
              remade_lem _ ch m u (IsSame-trans e ch ch' m.0 same made.0, made.1) k
                λ ch'' u' same' k'. reconnect_channel_lem rounds tries u' ch ch'' lt same' k'

  -- What goes back to the cache: the channel itself, or a new one on the same host if it had erred.
  abbrev pub GoesBack : Bool → ChannelHost e → ChannelHost e → Type 0
  GoesBack true ch ch' = IsSame e ch ch' × IsUsable e ch'
  GoesBack false ch ch' = ch' ≡ ch

  abbrev pub Returned : Bool → ChannelHost e → Pool e → Type 0
  Returned erred ch t =
      (ch' : ChannelHost e) × GoesBack erred ch ch'
      × At e f r is (chs ++ (ch' ∷ [])) t
      × (length chs < r.config.max_cache_channel_count)

  room_left :
      (t : Pool e)
      → At e f r is chs t
      → leb t.config.max_cache_channel_count (length t.channels) ≡ false
      → length chs < r.config.max_cache_channel_count
  room_left t v room = ground (
    arith,
    room,
    ap (λ (c : PoolConfig). c.max_cache_channel_count) v.config,
    ap (length {0}) v.cache,
  )

  send_channel_lem :
      (erred : Bool) (ch ch' : ChannelHost e) (t : Pool e)
      → GoesBack erred ch ch'
      → At e f r is chs t
      → Ensures (λ u t. Returned erred ch t) (send_channel e ch' t)
  unfolding send_channel
  send_channel_lem erred ch ch' t back v =
      elim (Bool-cases (leb t.config.max_cache_channel_count (length t.channels))) [
        | inl full ↦ rw full tt
        | inr room ↦ rw (room, v.cache) (ch', back, At-cache e f r t is chs _ v, room_left t v room)
      ]

  -- ReturnChannel of a channel of the cache.
  pub return_channel_lem :
      (rounds : ℕ) (s : Pool e) (ch : ChannelHost e) (erred : Bool)
      → ch.conn_host < r.next_host
      → ch.transient ≡ true
      → At e f r is chs s
      → Ensures (λ u t. Returned erred ch t) (return_channel e rounds ch erred s)
  unfolding return_channel choose
  return_channel_lem rounds s ch false lt cached v =
      rw (choose-true _ _ _ cached) (send_channel_lem false ch ch s refl v)
  return_channel_lem rounds s ch true lt cached v = rw (choose-true _ _ _ cached) (
      Ensures-bind (Reopened ch) _ _ _ s
        (reconnect_channel_lem rounds rounds s ch ch lt (IsSame-refl e ch) v)
        λ ch' t h. send_channel_lem true ch ch' t (h.0, h.1) h.2)
