-- ===== src/Publisher/Sent.antt =====
-- Publish: the receipt, and the channel that goes back.
use friendlyrabbit.Base.{
  ℕ, ◌<◌, ◌≡◌, refl, ap, ◌∙◌, ◌>>=◌, none, some, Bool, true, false, not, Option, List, [], ◌∷◌,
  ◌++◌, Any, pure, choose, is_nil, Ensures, Ensures-then,
}
use friendlyrabbit.Error.{Error}
use friendlyrabbit.Env.{Env, Item}
use friendlyrabbit.Env.Fifo.{IsFifo}
use friendlyrabbit.Payload.Packages.{Packages}
use friendlyrabbit.Message.Letter.{Letter, PublishReceipt}
use friendlyrabbit.Pool.State.{ChannelHost, Pool, call, the}
use friendlyrabbit.Pool.Lease.{get_channel_from_pool}
use friendlyrabbit.Pool.Steady.Channel.{IsSame, IsUsable}
use friendlyrabbit.Config.{PoolConfig}
use friendlyrabbit.Pool.Steady.{Keeps-call}
use friendlyrabbit.Pool.View.{At, At-cache, Ensures-Keeps}
use friendlyrabbit.Pool.View.Channels.{GoesBack, Returned, return_channel_lem}
use friendlyrabbit.Publisher.State.{Broker, Publisher, publishing_of}
use friendlyrabbit.Publisher.Publish.{send_on, report, publish, publish_deferred_confirm}
use friendlyrabbit.Publisher.Step.{receipt_for, receipt_of-receipt_for, on_pool-bind, on_pool-then}

module _ (e : Env) (k : Packages) (b : Broker e k) (f : IsFifo e) where
  -- A call on a channel that is there, with what it returned.
  asked_lem :
      {A : Type 0} (r : Pool e) (is : List Item) (chs : List (ChannelHost e)) (c : e.Channel)
      (g : e.Channel → e.Net → A × e.Net) (o : Option e.Channel) (s : Pool e)
      → o ≡ some c
      → At e f r is chs s
      → Ensures (λ a t. (a ≡ (g c s.net).0) × At e f r is chs t) ((the o >>= λ c. call e (g c)) s)
  unfolding the call ◌>>=◌
  asked_lem r is chs c g o s same v =
      rw same (refl, (Ensures-Keeps e f Any _ r s is chs v (Keeps-call e s (g c))).1)

  send_on_lem :
      (r : Pool e) (is : List Item) (chs : List (ChannelHost e)) (ch : ChannelHost e) (l : Letter k)
      (c : e.Channel) (s : Pool e)
      → ch.channel ≡ some c
      → At e f r is chs s
      → Ensures
          (λ x t.
            (x ≡ (b.publish c (publishing_of e k s.config.application_name l) s.net).0)
            × At e f r is chs t)
          (send_on e k b ch l s)
  unfolding send_on
  send_on_lem r is chs ch l c s same v =
      asked_lem r is chs c (λ c. b.publish c (publishing_of e k s.config.application_name l))
        ch.channel s same v

  pub deferred_lem :
      (r : Pool e) (is : List Item) (chs : List (ChannelHost e)) (ch : ChannelHost e) (l : Letter k)
      (c : e.Channel) (s : Pool e)
      → ch.channel ≡ some c
      → At e f r is chs s
      → Ensures
          (λ x t.
            (x ≡ (b.publish_deferred c (publishing_of e k s.config.application_name l) s.net).0)
            × At e f r is chs t)
          (publish_deferred_confirm e k b ch l s)
  unfolding publish_deferred_confirm
  deferred_lem r is chs ch l c s same v =
      asked_lem r is chs c
        (λ c. b.publish_deferred c (publishing_of e k s.config.application_name l)) ch.channel s
        same v

  -- The channel that is taken from the cache, with nothing else changed.
  pub taken_lem :
      (r s : Pool e) (is : List Item) (ch : ChannelHost e) (rest : List (ChannelHost e))
      → At e f r is (ch ∷ rest) s
      → Ensures
          (λ c t. (c ≡ ch) × (t.net ≡ s.net) × (t.config ≡ s.config) × At e f r is rest t)
          (get_channel_from_pool e s)
  unfolding get_channel_from_pool
  taken_lem r s is ch rest v = rw v.cache (refl, refl, refl, At-cache e f r s is _ rest v)

  -- The receipts after a publish.
  abbrev pub receipts_after :
      Bool → Letter k → Option Error → List (PublishReceipt k) → List (PublishReceipt k)
  receipts_after true l x rs = rs ++ (receipt_for k l x ∷ [])
  receipts_after false l x rs = rs

  report_lem :
      (receipt : Bool) (l : Letter k) (x : Option Error) (s : Publisher e k)
      → Ensures
          (λ u t.
            (t.pool ≡ s.pool)
            × (t.publish_receipts ≡ receipts_after receipt l x s.publish_receipts)
            × (t.letters ≡ s.letters))
          (report e k b receipt l x s)
  unfolding report choose pure
  report_lem true l x s =
      (refl, ap (λ r. s.publish_receipts ++ (r ∷ [])) (receipt_of-receipt_for k l x), refl)
  report_lem false l x s = (refl, refl, refl)

  -- What goes back to the cache: the channel itself, or after an error one on the same host that was
  -- opened anew.
  abbrev pub GoesBackAfter : Option Error → ChannelHost e → ChannelHost e → Type 0
  GoesBackAfter none ch ch' = ch' ≡ ch
  GoesBackAfter (some x) ch ch' = IsSame e ch ch' × IsUsable e ch'

  GoesBack-GoesBackAfter :
      (r : Pool e) (is : List Item) (rest : List (ChannelHost e)) (x : Option Error)
      (ch ch' : ChannelHost e)
      → GoesBack e f r is rest (not (is_nil x)) ch ch'
      → GoesBackAfter x ch ch'
  GoesBack-GoesBackAfter r is rest none ch ch' h = h
  GoesBack-GoesBackAfter r is rest (some x) ch ch' h = h

  -- What Publish leaves when it returns `x`: that is what the broker returned of the letter on the
  -- channel `c` of `ch`; the channel is back in the cache, opened anew after an error, and a receipt
  -- of the result is sent if one was asked for.
  pub record Published (r : Pool e) (is : List Item) (ch : ChannelHost e) (c : e.Channel)
      (rest : List (ChannelHost e)) (l : Letter k) (receipt : Bool) (s : Publisher e k)
      (x : Option Error) (t : Publisher e k) : Type 0 where
    pub channel : ChannelHost e
    pub sent : x ≡ (b.publish c (publishing_of e k s.pool.config.application_name l) s.pool.net).0
    pub goes_back : GoesBackAfter x ch channel
    pub pool : At e f r is (rest ++ (channel ∷ [])) t.pool
    pub receipts : t.publish_receipts ≡ receipts_after receipt l x s.publish_receipts
    pub letters : t.letters ≡ s.letters

  pub publish_lem :
      (rounds : ℕ) (l : Letter k) (receipt : Bool) (r : Pool e) (s : Publisher e k) (is : List Item)
      (ch : ChannelHost e) (c : e.Channel) (rest : List (ChannelHost e))
      → At e f r is (ch ∷ rest) s.pool
      → ch.channel ≡ some c
      → ch.transient ≡ true
      → ch.conn_host < r.next_host
      → Ensures (Published r is ch c rest l receipt s) (publish e k b rounds l receipt s)
  unfolding publish pure
  publish_lem rounds l receipt r s is ch c rest v there cached lt =
      on_pool-bind e k
        (λ d t. (d ≡ ch) × (t.net ≡ s.pool.net) × (t.config ≡ s.pool.config) × At e f r is rest t) _
        _ _ s (taken_lem r s.pool is ch rest v)
        λ d p (same, same_net, same_config, w). rw same (
          on_pool-bind e k
            (λ x t.
              (x ≡ (b.publish c (publishing_of e k p.config.application_name l) p.net).0)
              × At e f r is rest t)
            _ (send_on e k b ch l) _ _ (send_on_lem r is rest ch l c p there w)
            λ x q (is_sent, w').
              Ensures-then
                (λ t.
                  (t.pool ≡ q)
                  × (t.publish_receipts ≡ receipts_after receipt l x s.publish_receipts)
                  × (t.letters ≡ s.letters))
                _ _ _ _ (report_lem receipt l x _)
                λ t sent.
                  on_pool-then e k (Returned e f r is rest (not (is_nil x)) ch) _ _ _ t
                    (return_channel_lem e f r is rest rounds t.pool ch _ lt cached (rw (sent.0) w'))
                    λ u back. record {
                      channel = back.0;
                      sent =
                          is_sent
                          ∙ ap
                              (λ (a : PoolConfig).
                                (b.publish c (publishing_of e k a.application_name l) p.net).0)
                              same_config
                          ∙ ap
                              (λ w.
                                (b.publish c (publishing_of e k s.pool.config.application_name l)
                                  w).0)
                              same_net;
                      goes_back = GoesBack-GoesBackAfter r is rest x ch back.0 back.1;
                      pool = back.2;
                      receipts = sent.1;
                      letters = sent.2;
                    })
