-- ===== src/Publisher/Accepted.antt =====
-- PublishWithConfirmation with a broker that accepts: what it is sent on an open channel is
-- confirmed.
use friendlyrabbit.Base.{
  ℕ, suc, ◌≡◌, refl, ap, true, false, Option, none, some, List, [], ◌∷◌, ◌++◌, length, leb, Action,
  pure, choose, choose-true, ◌>>=◌, ◌>>◌, Returns, inside-bind_Returns,
}
use friendlyrabbit.Error.{Error, ok}
use friendlyrabbit.Env.{Env}
use friendlyrabbit.Payload.Packages.{Packages}
use friendlyrabbit.Message.Letter.{Letter}
use friendlyrabbit.Pool.State.{ChannelHost, Pool, call, the}
use friendlyrabbit.Pool.Lease.{get_channel_from_pool, send_channel, return_channel}
use friendlyrabbit.Publisher.State.{
  settled, Broker, Publisher, Publishing, put_pool, on_pool, publishing_of,
}
use friendlyrabbit.Publisher.Step.{receipt_for, receipt_of-receipt_for}
use friendlyrabbit.Publisher.Publish.{
  publish_deferred_confirm, woken, wait_publish_confirmation, confirmed, after_publish,
  confirm_round, publish_with_confirmation,
}

module _ (e : Env) (k : Packages) (b : Broker e k) where
  pub record IsAccepting : Type 0 where
    pub sends :
        (c : e.Channel) (p : Publishing k) (n : e.Net)
        → (x : b.Confirmation) × ((b.publish_deferred c p n).0 ≡ ok (some x))
    pub acks : (x : b.Confirmation) (n : e.Net) → (b.acked x n).0 ≡ true

  -- The pool holds the given channels, and otherwise what it held.
  abbrev pub Holds : Pool e → List (ChannelHost e) → Pool e → Type 0
  Holds r chs t =
      (t.channels ≡ chs)
      × (t.connections ≡ r.connections)
      × (t.config ≡ r.config)
      × (t.next_host ≡ r.next_host)

  on_pool-Returns :
      {A B : Type 0} (P : A → Pool e → Type 0) (Q : B → Publisher e k → Type 0)
      (m : Action (Pool e) A) (g : A → Action (Publisher e k) B) (s : Publisher e k)
      → Returns P (m s.pool)
      → ((a : A) (p : Pool e) → P a p → Returns Q (g a (record s { pool = p })))
      → Returns Q ((on_pool e k m >>= g) s)
  unfolding on_pool
  on_pool-Returns P Q m g s h next =
      inside-bind_Returns (λ s. s.pool) (put_pool e k) P Q m g s h next

  module _ (r : Pool e) (rest : List (ChannelHost e)) (ch : ChannelHost e) where
    get_lem :
        (t : Pool e)
        → Holds r (ch ∷ rest) t
        → Returns (λ c u. (c ≡ ch) × Holds r rest u) (get_channel_from_pool e t)
    unfolding get_channel_from_pool
    get_lem t (same, q, c, n) = rw same (refl, (refl, q, c, n))

    -- There is room for the channel that was taken.
    back_lem :
        (rounds : ℕ) (t : Pool e)
        → ch.transient ≡ true
        → leb r.config.max_cache_channel_count (length rest) ≡ false
        → Holds r rest t
        → Returns (λ u v. Holds r (rest ++ (ch ∷ [])) v) (return_channel e rounds ch false t)
    unfolding return_channel choose send_channel
    back_lem rounds t cached room (same, q, c, n) =
        rw (choose-true _ _ _ cached) (rw (same, c, room) (refl, q, refl, n))

    sent_lem :
        (o : IsAccepting) (l : Letter k) (c : e.Channel) (t : Pool e)
        → ch.channel ≡ some c
        → Holds r rest t
        → Returns
            (λ a u. ((x : b.Confirmation) × (a ≡ ok (some x))) × Holds r rest u)
            (publish_deferred_confirm e k b ch l t)
    unfolding publish_deferred_confirm the call ◌>>=◌
    sent_lem o l c t usable v =
        rw usable ((o.sends c (publishing_of e k t.config.application_name l) t.net), v)

  module _ (r : Pool e) (chs : List (ChannelHost e)) where
    waited_lem :
        (o : IsAccepting) (l : Letter k) (timeout : ℕ) (x : b.Confirmation) (t : Pool e)
        → ((x : b.Confirmation) (n : e.Net) → (b.wait l.opts.ctx timeout x n).0 ≡ settled)
        → Holds r chs t
        → Returns
            (λ a u. (a ≡ (true, none)) × Holds r chs u)
            (wait_publish_confirmation e k b (some x) l timeout t)
    unfolding wait_publish_confirmation woken the call pure ◌>>=◌
    waited_lem o l timeout x t settles v =
        rw (settles x t.net) (ap (λ acked. (acked, none)) (o.acks x _), v)

  module _ (o : IsAccepting) (rounds tries : ℕ) (l : Letter k) (timeout : ℕ)
      (s : Publisher e k) where
    -- What is left: the channels in the cache, and a receipt of the success.
    abbrev pub Accepted : List (ChannelHost e) → Option Error → Publisher e k → Type 0
    Accepted chs x t =
        (x ≡ none)
        × (t.publish_receipts ≡ s.publish_receipts ++ (receipt_for k l none ∷ []))
        × (t.letters ≡ s.letters)
        × Holds s.pool chs t.pool

    -- A broker takes every letter and acknowledges it, the letter's context is not cancelled, and
    -- every confirmation comes before the timeout. Then PublishWithConfirmation returns: from a cache
    -- that begins with a channel host that holds a channel and was made for the cache, and that has
    -- no more than its capacity, it returns no error after one round, with the channel at the end of
    -- the cache, one more receipt, with the letter's id, no letter and no error, marked as a success,
    -- and the rest of the cache, the queue and the letters as they were.
    pub publish_with_confirmation-Returns :
        (ch : ChannelHost e) (rest : List (ChannelHost e)) (c : e.Channel)
        → s.pool.channels ≡ ch ∷ rest
        → ch.channel ≡ some c
        → ch.transient ≡ true
        → leb s.pool.config.max_cache_channel_count (length rest) ≡ false
        → ((x : b.Confirmation) (n : e.Net) → (b.wait l.opts.ctx timeout x n).0 ≡ settled)
        → Returns
            (Accepted (rest ++ (ch ∷ [])))
            (publish_with_confirmation e k b rounds (suc tries) l timeout s)
    unfolding publish_with_confirmation confirm_round after_publish confirmed ◌>>◌ pure
    publish_with_confirmation-Returns ch rest c same usable cached room settles =
        on_pool-Returns (λ d u. (d ≡ ch) × Holds s.pool rest u) (Accepted (rest ++ (ch ∷ []))) _ _ s
          (get_lem s.pool rest ch s.pool (same, refl, refl, refl))
          λ d p h. rw (h.0) (
            on_pool-Returns
              (λ a u. ((x : b.Confirmation) × (a ≡ ok (some x))) × Holds s.pool rest u)
              (Accepted (rest ++ (ch ∷ []))) (publish_deferred_confirm e k b ch l) _
              (record s { pool = p }) (sent_lem s.pool rest ch o l c p usable h.1)
              λ a q m. rw (m.0.1) (
                on_pool-Returns (λ u v. Holds s.pool (rest ++ (ch ∷ [])) v)
                  (Accepted (rest ++ (ch ∷ []))) (return_channel e rounds ch false) _
                  (record s { pool = q }) (back_lem s.pool rest ch rounds q cached room m.1)
                  λ u v w.
                    on_pool-Returns (λ a u. (a ≡ (true, none)) × Holds s.pool (rest ++ (ch ∷ [])) u)
                      (Accepted (rest ++ (ch ∷ [])))
                      (wait_publish_confirmation e k b (some m.0.0) l timeout) _
                      (record s { pool = v })
                      (waited_lem s.pool (rest ++ (ch ∷ [])) o l timeout m.0.0 v settles w)
                      λ a x y. rw (y.0) (
                        refl,
                        ap (λ r. s.publish_receipts ++ (r ∷ [])) (receipt_of-receipt_for k l none),
                        refl,
                        y.1,
                      )))
