-- ===== src/Consumer/Promises.antt =====
-- What the consumer promises on a sound pool, whatever the broker does, and how it is started and
-- stopped.
use friendlyrabbit.Base.{
  ℕ, ◌≡◌, ◌≢◌, refl, choose-true, choose-false, ◌∙◌, >>-done, >>-stuck, arith, Bool, true, false,
  List, [], ◌∷◌, ◌++◌, All, length, leb, ap, Action, Ensures, Ensures-then, Run, done, stuck,
  choose, pure, ◌>>=◌, ◌>>◌, if◌then◌else◌,
}
use friendlyrabbit.Env.{Env}
use friendlyrabbit.Env.Fifo.{IsFifo}
use friendlyrabbit.Payload.Packages.{Packages}
use friendlyrabbit.Pool.State.{Pool}
use friendlyrabbit.Pool.View.{IsSound, At-here}
use friendlyrabbit.Pool.View.Ready.{IsReady}
use friendlyrabbit.Consumer.State.{Incoming, Consumer}
use friendlyrabbit.Consumer.Control.{
  drained, flush_errors, flush_stop, start_consuming, stop_consuming, send_stop, stop_capacity,
  flush_messages, set_started,
}
use friendlyrabbit.Consumer.Loop.{Handling, meanwhile, consume_loop, start_consume_loop}
use friendlyrabbit.Consumer.Kept.{Full, IsApart, meanwhile_lem}
use friendlyrabbit.Consumer.Rounds.{consume_loop_lem}

module _ (e : Env) (k : Packages) (i : Incoming e k) where
  -- The loop of StartConsuming, with any function for the messages, from a sound pool all of whose
  -- cached channel hosts are ackable, were made for the cache and hold a channel that was put in
  -- confirm mode, while the other goroutines leave the queue of hosts and the cache as they find
  -- them: whatever the broker does it does not panic, and if it ends then the consumer is marked as
  -- not started and the cache holds as many such channel hosts as before. It is not said that their
  -- channels are still open.
  pub start_consume_loop-keeps :
      (others : Consumer e k i → Consumer e k i) (f : IsFifo e) (rounds tries : ℕ)
      (action : Handling e k i others) (s : Consumer e k i)
      → IsSound e f s.pool
      → IsApart e k i others f s.pool (f.contents s.pool.connections)
      → All (IsReady e s.pool) s.pool.channels
      → Ensures
          (λ u t.
            (t.started ≡ false)
            × Full e k i others f s.pool
                (f.contents s.pool.connections)
                (length s.pool.channels)
                t.pool)
          (start_consume_loop e k i others rounds tries action s)
  unfolding start_consume_loop set_started
  start_consume_loop-keeps others f rounds tries action s sound apart ready =
      Ensures-then (λ t. Kept t.pool) (λ u t. (t.started ≡ false) × Kept t.pool)
        (consume_loop e k i others rounds tries action) _ s
        ((consume_loop_lem e k i others f s.pool _ apart rounds tries _ action).goes s (record {
          channels = s.pool.channels;
          pool = At-here e f s.pool _ _ sound refl refl;
          ready = ready;
          count = refl;
        }))
        λ t h.
          Ensures-then (λ u. Kept u.pool) (λ u t. (t.started ≡ false) × Kept t.pool)
            (meanwhile e k i others) _ t ((meanwhile_lem e k i others f s.pool _ apart _).goes t h)
            (λ u m. (refl, m))
    where
      Kept : Pool e → Type 0
      Kept p = Full e k i others f s.pool (f.contents s.pool.connections) (length s.pool.channels) p

  drained_lem : {A : Type 0} (xs : List A) → drained xs ≡ []
  drained_lem [] = refl
  drained_lem (x ∷ xs) = drained_lem xs

  pub start_consuming_lem :
      (s : Consumer e k i)
      → start_consuming e k i s
        ≡ done tt (record s { errors = []; consume_stop = []; started = true })
  unfolding start_consuming flush_errors flush_stop set_started ◌>>=◌ ◌>>◌
  start_consuming_lem s = rw (drained_lem s.consume_stop, drained_lem s.errors) refl

  -- The messages after StopConsuming.
  abbrev pub messages_after : {A : Type 0} → Bool → List A → List A
  messages_after true ms = []
  messages_after false ms = ms

  -- StartConsuming and then StopConsuming always return, whatever the Go channels held: the errors
  -- and old stop signals are gone, exactly one stop signal waits for the loop, the consumer is still
  -- marked as started, the messages are dropped if and only if that was asked for, and all else is
  -- as it was.
  pub start_consuming-stop_consuming :
      (flush : Bool) (s : Consumer e k i)
      → (start_consuming e k i >> stop_consuming e k i flush) s
        ≡ done tt (record s {
          errors = [];
          consume_stop = true ∷ [];
          started = true;
          received_messages = messages_after flush s.received_messages;
        })
  unfolding start_consuming stop_consuming send_stop flush_messages choose pure ◌>>=◌ ◌>>◌
  start_consuming-stop_consuming true s =
      rw (drained_lem s.consume_stop, drained_lem s.errors, drained_lem s.received_messages) refl
  start_consuming-stop_consuming false s =
      rw (drained_lem s.consume_stop, drained_lem s.errors) refl

  -- A send of the signal waits while one is in the channel.
  send_stop-waits : (s : Consumer e k i) → s.consume_stop ≢ [] → send_stop e k i s ≡ stuck
  unfolding send_stop
  send_stop-waits s = full s.consume_stop
    where
      full :
          (bs : List Bool)
          → bs ≢ []
          → (if leb stop_capacity (length bs)
              then stuck
              else done tt (record s { consume_stop = s.consume_stop ++ (true ∷ []) }))
            ≡ stuck
      full [] ne = absurd (ne refl)
      full (b ∷ bs) ne = ground arith

  send_stop-goes :
      (s : Consumer e k i)
      → s.consume_stop ≡ []
      → send_stop e k i s ≡ done tt (record s { consume_stop = true ∷ [] })
  unfolding send_stop
  send_stop-goes s empty =
      ap
        (λ (bs : List Bool).
          if leb stop_capacity (length bs)
          then stuck
          else done tt (record s { consume_stop = bs ++ (true ∷ []) }))
        empty

  flush_lem :
      (flush : Bool) (s : Consumer e k i)
      → choose flush (flush_messages e k i) (pure tt) s
        ≡ done tt (record s { received_messages = messages_after flush s.received_messages })
  unfolding choose pure flush_messages
  flush_lem true s = rw (drained_lem s.received_messages) refl
  flush_lem false s = refl

  -- How StopConsuming ends, by the field `started` and by what the channel of the stop holds.
  abbrev pub stop_outcome :
      Bool → Bool → List Bool → Consumer e k i → Run (Consumer e k i) (Unit {0})
  stop_outcome flush false bs s = done tt s
  stop_outcome flush true [] s = done tt (record s {
    consume_stop = true ∷ [];
    received_messages = messages_after flush s.received_messages;
  })
  stop_outcome flush true (b ∷ bs) s = stuck

  -- StopConsuming of a consumer that is not started changes nothing and returns. Of one that is
  -- started, with no signal in the channel, it leaves one there, drops the messages exactly if that
  -- is asked for, and returns; with a signal still in the channel it waits.
  pub stop_consuming-outcome :
      (flush : Bool) (s : Consumer e k i)
      → stop_consuming e k i flush s ≡ stop_outcome flush s.started s.consume_stop s
  unfolding stop_consuming pure
  stop_consuming-outcome flush s = ends s.started s.consume_stop refl refl
    where
      ends :
          (b : Bool) (bs : List Bool)
          → s.started ≡ b
          → s.consume_stop ≡ bs
          → choose s.started
              (send_stop e k i >> choose flush (flush_messages e k i) (pure tt))
              (pure tt)
              s
            ≡ stop_outcome flush b bs s
      ends false bs off same =
          ap (λ (m : Action (Consumer e k i) (Unit {0})). m s) (choose-false _ _ _ off)
      ends true [] on empty =
          rw (choose-true _ _ _ on) (>>-done _ _ s (send_stop-goes s empty) ∙ flush_lem flush _)
      ends true (b ∷ bs) on full =
          rw (choose-true _ _ _ on)
            (>>-stuck _ _ s (send_stop-waits s (λ empty. absurd (both empty))))
        where
          both : s.consume_stop ≡ [] → ⊥
          both empty = cc
