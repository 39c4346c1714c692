-- ===== src/Publisher/Confirm.antt =====
-- PublishWithConfirmation: how it ends, over all its rounds.
use friendlyrabbit.Base.{
  ℕ, zero, suc, ◌≡◌, refl, ap, sym, ◌∙◌, String, Safe-bind, inl, inr, Bool, true, false, Option,
  none, some, List, [], ◌∷◌, ◌++◌, Action, All, All-append, length, length-append, arith, Any,
  waits, pure, choose, ◌>>=◌, ◌>>◌, Ensures, Ensures-then, Safe-pure,
}
use friendlyrabbit.Error.{Error, Result, ok, err}
use friendlyrabbit.Env.{Env, Item}
use friendlyrabbit.Env.Fifo.{IsFifo}
use friendlyrabbit.Payload.Packages.{Packages}
use friendlyrabbit.Message.Letter.{Letter, receipt_of}
use friendlyrabbit.Pool.State.{ChannelHost, Pool, call, the}
use friendlyrabbit.Pool.Lease.{get_channel_from_pool}
use friendlyrabbit.Pool.Steady.{Keeps, Keeps-call, Keeps-call_result}
use friendlyrabbit.Pool.View.{At, Ensures-Keeps}
use friendlyrabbit.Pool.View.Ready.{IsReady, get_channel_lem, empty_cache, GoesBack-IsReady}
use friendlyrabbit.Pool.View.Channels.{return_channel_lem}
use friendlyrabbit.Publisher.State.{
  Wake, cancelled, timed_out, settled, Broker, Publisher, publishing_of, on_pool,
}
use friendlyrabbit.Publisher.Publish.{
  woken, wait_publish_confirmation, pause_after_error, confirmed, after_publish, has_failed,
  confirm_round, publish_with_confirmation,
}
use friendlyrabbit.Publisher.Step.{
  receipt_for, receipt_of-receipt_for, on_pool-bind, on_pool-then, on_pool-Ensures,
}
use friendlyrabbit.Publisher.Outcome.{IsConfirming, IsOf, IsOutcome, IsWoken}
use friendlyrabbit.Publisher.Sent.{deferred_lem}
use friendlyrabbit.Config.{PoolConfig}
use friendlyrabbit.Pool.Steady.Channel.{Confirms}

module _ (e : Env) (k : Packages) (b : Broker e k) (f : IsFifo e) (r : Pool e)
    (is : List Item) where
  abbrev app : String
  app = r.config.application_name

  -- What PublishWithConfirmation leaves: as many channels in the cache, all of them ready, and one
  -- more receipt, of the result that it returns.
  pub record Confirmed (n : ℕ) (l : Letter k) (timeout : ℕ) (s : Publisher e k) (x : Option Error)
      (t : Publisher e k) : Type 0 where
    pub channels : List (ChannelHost e)
    pub pool : At e f r is channels t.pool
    pub ready : All (IsReady e r) channels
    pub count : length channels ≡ n
    pub receipts : t.publish_receipts ≡ s.publish_receipts ++ (receipt_for k l x ∷ [])
    pub letters : t.letters ≡ s.letters
    pub outcome : IsOutcome e k b r.config.application_name l timeout x

  module _ (l : Letter k) (timeout : ℕ) (s : Publisher e k) (law : IsConfirming e k b) where
    -- A state between two steps of it.
    pub record Waiting (n : ℕ) (t : Publisher e k) : Type 0 where
      pub channels : List (ChannelHost e)
      pub pool : At e f r is channels t.pool
      pub ready : All (IsReady e r) channels
      pub count : length channels ≡ n
      pub receipts : t.publish_receipts ≡ s.publish_receipts
      pub letters : t.letters ≡ s.letters

    -- Another state of the pool with the same contents.
    moved :
        (n : ℕ) (t : Publisher e k) (w : Waiting n t) (p : Pool e)
        → At e f r is w.channels p
        → Waiting n (record t { pool = p })
    moved n t w p v = record {
      channels = w.channels;
      pool = v;
      ready = w.ready;
      count = w.count;
      receipts = w.receipts;
      letters = w.letters;
    }

    ends :
        (n : ℕ) (t : Publisher e k) (x : Option Error)
        → IsOutcome e k b app l timeout x
        → Waiting n t
        → Confirmed n l timeout s x
            (record t { publish_receipts = t.publish_receipts ++ (receipt_of k l x ∷ []) })
    ends n t x out w = record {
      channels = w.channels;
      pool = w.pool;
      ready = w.ready;
      count = w.count;
      receipts =
          ap (λ rs. rs ++ (receipt_of k l x ∷ [])) w.receipts
          ∙ ap (λ r. s.publish_receipts ++ (r ∷ [])) (receipt_of-receipt_for k l x);
      letters = w.letters;
      outcome = out;
    }

    confirmed_lem :
        (again : Action (Publisher e k) (Option Error)) (n : ℕ) (a : Bool × Option Error)
        (t : Publisher e k)
        → IsWoken e k b app l timeout a
        → Waiting n t
        → ((u : Publisher e k) → Waiting n u → Ensures (Confirmed n l timeout s) (again u))
        → Ensures (Confirmed n l timeout s) (confirmed e k b again l a t)
    unfolding confirmed pure ◌>>◌ ◌>>=◌
    confirmed_lem again n (false, none) t out w next = next t w
    confirmed_lem again n (true, none) t out w next = ends n t none out w
    confirmed_lem again n (true, some x) t out w next = ends n t (some x) out w
    confirmed_lem again n (false, some x) t out w next = ends n t (some x) out w

    wait_lem :
        (r' : Pool e) (d : b.Confirmation)
        → IsOf e k b app l d
        → Keeps e r'
            (IsWoken e k b app l timeout)
            (wait_publish_confirmation e k b (some d) l timeout)
    unfolding wait_publish_confirmation the
    wait_lem r' d sent =
        Safe-bind (λ a. a ≡ d) _ _ (record { holds = λ s h. (refl, h) })
          λ a same. rw same (
            Safe-bind (λ w. (n : e.Net) × ((b.wait l.opts.ctx timeout d n).0 ≡ w)) _ _
              (Keeps-call_result e r' _) wake)
      where
        wake :
            (w : Wake)
            → (n : e.Net) × ((b.wait l.opts.ctx timeout d n).0 ≡ w)
            → Keeps e r' (IsWoken e k b app l timeout) (woken e k b l timeout d w)
        wake cancelled (n, why) = Safe-pure _ (d, sent, n, inl (why, refl))
        wake timed_out (n, why) = Safe-pure _ (d, sent, n, inr (why, refl))
        wake settled why =
            Safe-bind (λ a. (n : e.Net) × ((b.acked d n).0 ≡ a)) _ _ (Keeps-call_result e r' _)
              λ a h. Safe-pure _ (answered a h)
          where
            answered :
                (a : Bool)
                → (n : e.Net) × ((b.acked d n).0 ≡ a)
                → IsWoken e k b app l timeout (a, none)
            answered true (n, acks) = (d, sent, n, acks)
            answered false h = tt

    pause_lem :
        (again : Action (Publisher e k) (Option Error)) (n : ℕ) (t : Publisher e k)
        → Waiting n t
        → ((u : Publisher e k) → Waiting n u → Ensures (Confirmed n l timeout s) (again u))
        → Ensures (Confirmed n l timeout s) ((pause_after_error e k b >> again) t)
    unfolding pause_after_error choose pure
    pause_lem again n t w next =
        Ensures-then (Waiting n) _ (pause_after_error e k b) again t (either _) next
      where
        slept : Ensures (λ u t. Waiting n t) (on_pool e k (call e (e.sleep t.sleep_on_error)) t)
        slept =
            on_pool-Ensures e k _ _ _ t
              (Ensures-Keeps e f Any _ r t.pool is w.channels w.pool (Keeps-call e t.pool _))
              (λ u p h. moved n t w p h.1)

        either :
            (q : Bool)
            → Ensures
                (λ u t. Waiting n t)
                (choose q (on_pool e k (call e (e.sleep t.sleep_on_error))) (pure tt) t)
        either true = slept
        either false = w

    -- The call that made the result of a publish, on a channel in confirm mode.
    abbrev Made : Result (Option b.Confirmation) → Type 0
    Made a =
        (c : e.Channel) × (n : e.Net) × ((b.publish_deferred c (publishing_of e k app l) n).0 ≡ a)
        × Confirms e true c

    after_publish_lem :
        (again : Action (Publisher e k) (Option Error)) (n : ℕ) (a : Result (Option b.Confirmation))
        (t : Publisher e k)
        → Made a
        → Waiting n t
        → ((u : Publisher e k) → Waiting n u → Ensures (Confirmed n l timeout s) (again u))
        → Ensures (Confirmed n l timeout s) (after_publish e k b again l timeout a t)
    unfolding after_publish
    after_publish_lem again n (err x) t made w next = pause_lem again n t w next
    after_publish_lem again n (ok none) t (c, m, same, (m', on)) w next =
        absurd (law.gives c _ m' m none on same)
    after_publish_lem again n (ok (some d)) t (c, m, same, on) w next =
        on_pool-bind e k _ _ _ _ t
          (Ensures-Keeps e f _ _ r t.pool is w.channels w.pool (wait_lem t.pool d (c, m, same)))
          λ a p h. confirmed_lem again n a (record t { pool = p }) h.0 (moved n t w p h.1) next

    confirm_round_lem :
        (again : Action (Publisher e k) (Option Error)) (rounds n : ℕ) (ch : ChannelHost e)
        (rest : List (ChannelHost e)) (t : Publisher e k)
        → IsReady e r ch
        → All (IsReady e r) rest
        → suc (length rest) ≡ n
        → At e f r is rest t.pool
        → t.publish_receipts ≡ s.publish_receipts
        → t.letters ≡ s.letters
        → ((u : Publisher e k) → Waiting n u → Ensures (Confirmed n l timeout s) (again u))
        → Ensures (Confirmed n l timeout s) (confirm_round e k b again rounds l timeout ch t)
    unfolding confirm_round
    confirm_round_lem again rounds n ch rest t ok_ch ok_rest count v receipts letters next =
        let (c, there, on) = ok_ch.confirms in
        on_pool-bind e k _ _ _ _ t (deferred_lem e k b f r is rest ch l c t.pool there v)
          λ a p (same, v').
            on_pool-then e k _ _ _ _ (record t { pool = p })
              (return_channel_lem e f r is rest rounds p ch (has_failed e k b a) ok_ch.on_host
                ok_ch.cached v')
              λ q back.
                after_publish_lem again n a (record t { pool = q })
                  (
                    c,
                    t.pool.net,
                    ap
                          (λ (o : PoolConfig).
                            (b.publish_deferred c (publishing_of e k o.application_name l)
                              t.pool.net).0)
                          (sym v.config)
                        ∙ sym same,
                    on,
                  )
                  (record {
                    channels = rest ++ (back.0 ∷ []);
                    pool = back.2;
                    ready =
                        All-append _ rest _ ok_rest
                          (GoesBack-IsReady e f r is rest _ ch back.0 back.1 ok_ch, tt);
                    count = omega (arith, length-append rest (back.0 ∷ []));
                    receipts = receipts;
                    letters = letters;
                  })
                  next

    -- A round, by the contents of the cache.
    start_lem :
        (again : Action (Publisher e k) (Option Error)) (rounds n : ℕ) (chs : List (ChannelHost e))
        (t : Publisher e k)
        → At e f r is chs t.pool
        → All (IsReady e r) chs
        → length chs ≡ n
        → t.publish_receipts ≡ s.publish_receipts
        → t.letters ≡ s.letters
        → ((u : Publisher e k) → Waiting n u → Ensures (Confirmed n l timeout s) (again u))
        → Ensures (Confirmed n l timeout s) (
            (on_pool e k (get_channel_from_pool e) >>= confirm_round e k b again rounds l timeout)
              t)
    start_lem again rounds n [] t v ready count receipts letters next =
        on_pool-bind e k (λ c p. ⊥) _ _ _ t (empty_cache e f r t.pool is v) (λ c p h. absurd h)
    start_lem again rounds n (ch ∷ rest) t v (ok_ch, ok_rest) count receipts letters next =
        on_pool-bind e k (λ c p. (c ≡ ch) × At e f r is rest p) _ _ _ t
          (get_channel_lem e f r t.pool is ch rest v)
          λ c p h. rw (h.0) (
            confirm_round_lem again rounds n ch rest (record t { pool = p }) ok_ch ok_rest count h.1
              receipts letters next)

    pub publish_with_confirmation_lem :
        (rounds tries n : ℕ) (t : Publisher e k)
        → Waiting n t
        → Ensures
            (Confirmed n l timeout s)
            (publish_with_confirmation e k b rounds tries l timeout t)
    unfolding publish_with_confirmation waits
    publish_with_confirmation_lem rounds zero n t w = tt
    publish_with_confirmation_lem rounds (suc tries) n t w =
        start_lem _ rounds n w.channels t w.pool w.ready w.count w.receipts w.letters
          (publish_with_confirmation_lem rounds tries n)
