-- ===== src/Consumer/Serving.antt =====
-- One round of processDeliveries with a broker that delivers, while nobody else acts.
use mathlib.Core.List.{append-nil}
use friendlyrabbit.Base.{
  ℕ, suc, ◌≡◌, refl, ap, sym, ◌∙◌, not, Bool, false, Option, none, some, List, [], ◌∷◌, ◌++◌, map,
  Action, done, stuck, pure, length, take, drop, leb, ◌>>=◌, ◌>>◌, >>=-done, >>-done, if◌then◌else◌,
}
use friendlyrabbit.Error.{AmqpError, Poll, received, idle}
use friendlyrabbit.Env.{Env}
use friendlyrabbit.Payload.Packages.{Packages}
use friendlyrabbit.Message.Received.{Delivery, new_received_message}
use friendlyrabbit.Pool.State.{ChannelHost, call}
use friendlyrabbit.Consumer.State.{Incoming, Consumer, Message, on_pool}
use friendlyrabbit.Consumer.Loop.{
  meanwhile, receive_stop, poll_stop, send_message, poll_errors, handle, take_delivery,
  read_message, stop_or, deliver_round, after_notice, process_deliveries,
}

module _ (e : Env) (k : Packages) (i : Incoming e k) where
  -- The channel of deliveries holds these; it is not closed, and neither are there notices.
  pub record IsServing : Type 0 where
    pub waiting : i.Deliveries → e.Net → List (Delivery e.Net i.Time)
    pub no_notice : (n : e.Notices) (w : e.Net) → (e.poll_notices n w).0 ≡ idle
    pub notices_apart :
        (n : e.Notices) (c : i.Deliveries) (w : e.Net)
        → waiting c (e.poll_notices n w).1 ≡ waiting c w
    pub delivers :
        (c : i.Deliveries) (w : e.Net) (d : Delivery e.Net i.Time)
        (ds : List (Delivery e.Net i.Time))
        → waiting c w ≡ d ∷ ds
        → ((i.poll_deliveries c w).0 ≡ received d) × (waiting c (i.poll_deliveries c w).1 ≡ ds)
    pub rests :
        (c : i.Deliveries) (w : e.Net)
        → waiting c w ≡ []
        → ((i.poll_deliveries c w).0 ≡ idle) × (waiting c (i.poll_deliveries c w).1 ≡ [])

  abbrev pub alone : Consumer e k i → Consumer e k i
  alone s = s

  module _ (v : IsServing) (c : i.Deliveries) (ch : ChannelHost e) (rounds : ℕ) where
    -- The consumer in another outside world.
    abbrev pub in_world : e.Net → Consumer e k i → Consumer e k i
    in_world w s = record s { pool = record (s.pool) { net = w } }

    pub poll_errors_lem :
        {A : Type 0} (g : Poll AmqpError → Action (Consumer e k i) A) (s : Consumer e k i)
        → (w : e.Net) × (v.waiting c w ≡ v.waiting c s.pool.net)
          × ((on_pool e k i (poll_errors e k i alone ch) >>= g) s ≡ g idle (in_world w s))
    unfolding poll_errors on_pool ◌>>=◌ pure call
    poll_errors_lem g s = polled ch.errors
      where
        polled :
            (o : Option e.Notices)
            → (w : e.Net) × (v.waiting c w ≡ v.waiting c s.pool.net)
              × ((on_pool e k i (elim o [ none ↦ pure idle | some n ↦ call e (e.poll_notices n) ])
                      >>= g)
                    s
                  ≡ g idle (in_world w s))
        polled none = (s.pool.net, refl, refl)
        polled (some n) = (
          (e.poll_notices n s.pool.net).1,
          v.notices_apart n c s.pool.net,
          ap (λ x. g x (in_world (e.poll_notices n s.pool.net).1 s)) (v.no_notice n s.pool.net),
        )

    abbrev pub message_of : Consumer e k i → Delivery e.Net i.Time → Message e k i
    message_of s d = record {
      is_ackable = not s.auto_ack;
      body = d.body;
      message_id = d.message_id;
      application_id = d.app_id;
      publish_date = i.format d.timestamp;
      delivery = d;
    }

    -- The consumer in another outside world, with more messages.
    abbrev pub with_messages : e.Net → List (Message e k i) → Consumer e k i → Consumer e k i
    with_messages w ms s = record (in_world w s) { received_messages = s.received_messages ++ ms }

    -- There is room for one more message.
    abbrev pub HasRoom : Consumer e k i → Type 0
    HasRoom s = leb 1000 (length s.received_messages) ≡ false

    take_lem :
        (d : Delivery e.Net i.Time) (s : Consumer e k i)
        → HasRoom s
        → take_delivery e k i alone none d s
          ≡ done tt (with_messages s.pool.net (message_of s d ∷ []) s)
    unfolding take_delivery handle meanwhile send_message ◌>>=◌ ◌>>◌ new_received_message
    take_lem d s room =
        ap
          (λ (b : Bool).
            if b then stuck else done tt (with_messages s.pool.net (message_of s d ∷ []) s))
          room

    -- The second `select`: at most one of the deliveries is received.
    pub read_round :
        {A : Type 0} (next : Action (Consumer e k i) A) (s : Consumer e k i)
        (ds : List (Delivery e.Net i.Time))
        → HasRoom s
        → v.waiting c s.pool.net ≡ ds
        → (w : e.Net) × (v.waiting c w ≡ drop 1 ds)
          × ((on_pool e k i (call e (i.poll_deliveries c)) >>= λ d.
                  read_message e k i alone none d >> next)
                s
              ≡ next (with_messages w (map (message_of s) (take 1 ds)) s))
    unfolding on_pool call read_message pure ◌>>=◌ ◌>>◌
    read_round next s [] room same =
        let w = (i.poll_deliveries c s.pool.net).1 in
        let (quiet, none_left) = v.rests c s.pool.net same in
        (
          w,
          none_left,
          ap (λ x. (read_message e k i alone none x >> next) (in_world w s)) quiet
              ∙ ap (λ ms. next (record (in_world w s) { received_messages = ms }))
                  (sym (append-nil s.received_messages)),
        )
    read_round next s (d ∷ ds) room same =
        let w = (i.poll_deliveries c s.pool.net).1 in
        let (comes, left) = v.delivers c s.pool.net d ds same in
        (
          w,
          left,
          ap (λ x. (read_message e k i alone none x >> next) (in_world w s)) comes
              ∙ >>-done (take_delivery e k i alone none d) next (in_world w s)
                  (take_lem d (in_world w s) room),
        )

    pub no_stop :
        (again : Action (Consumer e k i) Bool) (t : Consumer e k i)
        → t.consume_stop ≡ []
        → (poll_stop e k i alone >>= stop_or e k i alone again rounds ch) t ≡ again t
    unfolding poll_stop receive_stop stop_or
    no_stop again t quiet =
        >>=-done (poll_stop e k i alone) (stop_or e k i alone again rounds ch) t
          (ap (λ bs. receive_stop e k i alone bs t) quiet)

    -- A round with no stop signal.
    pub round :
        (tries : ℕ) (s : Consumer e k i) (ds : List (Delivery e.Net i.Time))
        → HasRoom s
        → s.consume_stop ≡ []
        → v.waiting c s.pool.net ≡ ds
        → (w : e.Net) × (v.waiting c w ≡ drop 1 ds)
          × (process_deliveries e k i alone rounds (suc tries) c ch none s
              ≡ process_deliveries e k i alone rounds tries c ch none
                  (with_messages w (map (message_of s) (take 1 ds)) s))
    unfolding process_deliveries after_notice deliver_round meanwhile ◌>>◌ ◌>>=◌
    round tries s ds room quiet same =
        let (w, unread, polled) = poll_errors_lem _ s in
        let (w', left, taken) = read_round _ (in_world w s) ds room (unread ∙ same) in
        (w', left, polled ∙ taken ∙ no_stop _ _ quiet)
