-- ===== src/Pool/View/Ready.antt =====
-- The channels of the cache that can be used as they are.
use friendlyrabbit.Base.{
  Ensures, ◌<◌, ◌≡◌, refl, ◌∙◌, Bool, true, false, Option, some, List, ◌∷◌, [],
}
use friendlyrabbit.Env.{Env, Item}
use friendlyrabbit.Env.Fifo.{IsFifo}
use friendlyrabbit.Pool.State.{ChannelHost, Pool}
use friendlyrabbit.Pool.Lease.{get_channel_from_pool}
use friendlyrabbit.Pool.View.{At, At-cache}
use friendlyrabbit.Pool.Steady.{IsPresent}
use friendlyrabbit.Pool.Steady.Channel.{IsOpen, Confirms}
use friendlyrabbit.Pool.View.Channels.{GoesBack}

module _ (e : Env) where
  -- A channel host of the cache with a channel that was put in confirm mode, on a host of the pool
  -- `r`.
  pub record IsReady (r : Pool e) (ch : ChannelHost e) : Type 0 where
    pub present : IsPresent ch.channel
    pub is_ackable : ch.ackable ≡ true
    pub confirms : (c : e.Channel) × (ch.channel ≡ some c) × Confirms e true c
    pub cached : ch.transient ≡ true
    pub on_host : ch.conn_host < r.next_host

  module _ (f : IsFifo e) (r : Pool e) (is : List Item) where
    confirmed :
        {o : Option e.Channel} (ackable : Bool)
        → (c : e.Channel) × (o ≡ some c) × IsOpen e c × Confirms e ackable c
        → ackable ≡ true
        → (c : e.Channel) × (o ≡ some c) × Confirms e true c
    confirmed true (c, there, is_open, confirms) on = (c, there, confirms)
    confirmed false (c, there, is_open, confirms) on = absurd cc

    pub GoesBack-IsReady :
        (rest : List (ChannelHost e)) (erred : Bool) (ch ch' : ChannelHost e)
        → GoesBack e f r is rest erred ch ch'
        → IsReady r ch
        → IsReady r ch'
    GoesBack-IsReady rest true ch ch' (same, usable) h = record {
      present = usable.0;
      is_ackable = same.ackable ∙ h.is_ackable;
      confirms = confirmed ch'.ackable usable.2 (same.ackable ∙ h.is_ackable);
      cached = same.transient ∙ h.cached;
      on_host = rw same.conn_host h.on_host;
    }
    GoesBack-IsReady rest false ch ch' same h = rw same h

module _ (e : Env) (f : IsFifo e) where
  pub get_channel_lem :
      (r s : Pool e) (is : List Item) (ch : ChannelHost e) (rest : List (ChannelHost e))
      → At e f r is (ch ∷ rest) s
      → Ensures (λ c t. (c ≡ ch) × At e f r is rest t) (get_channel_from_pool e s)
  unfolding get_channel_from_pool
  get_channel_lem r s is ch rest v = rw v.cache (refl, At-cache e f r s is _ rest v)

  pub empty_cache :
      (r s : Pool e) (is : List Item)
      → At e f r is [] s
      → Ensures (λ c t. ⊥) (get_channel_from_pool e s)
  unfolding get_channel_from_pool
  empty_cache r s is v = rw v.cache tt
