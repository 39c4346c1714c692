-- ===== src/Consumer/Delivered.antt =====
-- The rounds of processDeliveries one after the other: the messages, their order, and the stop.
use mathlib.Core.List.{append-nil, append_assoc}
use friendlyrabbit.Base.{
  ℕ, suc, ◌+◌, ◌≤◌, ◌≡◌, ap, sym, ◌∙◌, Bool, none, List, [], ◌∷◌, ◌++◌, map, length, length-append,
  arith, Run,
}
use friendlyrabbit.Env.{Env}
use friendlyrabbit.Payload.Packages.{Packages}
use friendlyrabbit.Message.Received.{Delivery}
use friendlyrabbit.Pool.State.{ChannelHost, Pool}
use friendlyrabbit.Consumer.State.{Incoming, Consumer, Message}
use friendlyrabbit.Consumer.Loop.{process_deliveries}
use friendlyrabbit.Consumer.Serving.{IsServing, alone, message_of, HasRoom, with_messages, round}

module _ (e : Env) (k : Packages) (i : Incoming e k) (v : IsServing e k i) (c : i.Deliveries)
    (ch : ChannelHost e) (rounds : ℕ) where
  abbrev pub run : ℕ → Consumer e k i → Run (Consumer e k i) Bool
  run tries s = process_deliveries e k i (alone e k i) rounds tries c ch none s

  abbrev pub message : Consumer e k i → Delivery e.Net i.Time → Message e k i
  message s d = message_of e k i v c ch rounds s d

  abbrev pub Room : Consumer e k i → Type 0
  Room s = HasRoom e k i v c ch rounds s

  fuel_zero : (n : ℕ) → 0 + n ≡ n
  fuel_zero n = omega arith

  fuel_suc : (m n : ℕ) → suc m + n ≡ suc (m + n)
  fuel_suc m n = omega arith

  room_lem : (s : Consumer e k i) (n : ℕ) → length s.received_messages + suc n ≤ 1000 → Room s
  room_lem s n h = ground arith

  -- A broker has some deliveries waiting, there are no notices and no stop signal, no function is
  -- given for the messages, the Go channel of messages has room for them, and nobody else acts.
  -- Then processDeliveries makes one round for each of them, without blocking, and goes on from a
  -- state that differs only in this: the messages have been added to the Go channel, each once, in
  -- the order of the deliveries, to be acknowledged exactly if the consumer does not do so itself;
  -- and the outside world has only the remaining deliveries waiting.
  pub process_deliveries-in_order :
      (tries : ℕ) (ds rest : List (Delivery e.Net i.Time)) (s : Consumer e k i)
      → length s.received_messages + length ds ≤ 1000
      → s.consume_stop ≡ []
      → v.waiting c s.pool.net ≡ ds ++ rest
      → (w : e.Net) × (v.waiting c w ≡ rest)
        × (run (length ds + tries) s
            ≡ run tries (record s {
              pool = record (s.pool) { net = w };
              received_messages = s.received_messages ++ map (message s) ds;
            }))
  process_deliveries-in_order tries [] rest s room quiet same = (
    s.pool.net,
    same,
    ap (λ n. run n s) (fuel_zero tries)
        ∙ ap (λ ms. run tries (record s { received_messages = ms }))
            (sym (append-nil s.received_messages)),
  )
  process_deliveries-in_order tries (d ∷ ds) rest s room quiet same =
      let (w, left, once) =
        round e k i v c ch rounds (length ds + tries) s (d ∷ (ds ++ rest))
          (room_lem s (length ds) room) quiet same in
      let (w', left', others) =
        process_deliveries-in_order tries ds rest
          (with_messages e k i v c ch rounds w (message s d ∷ []) s)
          (omega (arith, length-append s.received_messages (message s d ∷ []))) quiet left in
      (
        w',
        left',
        ap (λ n. run n s) (fuel_suc (length ds) tries)
            ∙ once
            ∙ others
            ∙ ap
                (λ ms.
                  run tries
                    (record s { pool = record (s.pool) { net = w' }; received_messages = ms }))
                (append_assoc s.received_messages (message s d ∷ []) (map (message s) ds)),
      )
