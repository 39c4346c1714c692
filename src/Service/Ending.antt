-- ===== src/Service/Ending.antt =====
-- What Shutdown of the service leaves, while nobody else acts.
use friendlyrabbit.Base.{
  ℕ, suc, ◌≡◌, refl, ap, ◌∙◌, String, Bool, true, false, some, List, [], ◌∷◌, ◌++◌, map, All,
  Action, done, stuck, pure, choose, leb, length, inside, put_back, ◌>>=◌, ◌>>◌, >>-done, Returns,
  Returns-bind, inside-Returns, if◌then◌else◌,
}
use friendlyrabbit.Env.{Env}
use friendlyrabbit.Env.Fifo.{IsFifo}
use friendlyrabbit.Payload.Packages.{Packages}
use friendlyrabbit.Pool.State.{Pool, call}
use friendlyrabbit.Pool.Connection.{second}
use friendlyrabbit.Pool.Start as PoolStart
use friendlyrabbit.Pool.View.{IsSound}
use friendlyrabbit.Pool.Closing.{shutdown-Returns}
use friendlyrabbit.Pool.Recovery.{is_connection_flagged}
use friendlyrabbit.Publisher.State as PublisherState
use friendlyrabbit.Publisher.Queue.{shutdown_publisher, stop_auto_publish}
use friendlyrabbit.Consumer.State.{Incoming, Consumer}
use friendlyrabbit.Consumer.Control.{stop_consuming}
use friendlyrabbit.Consumer.Promises.{stop_outcome, stop_consuming-outcome}
use friendlyrabbit.Service.State.{Service, Consumers, on_publisher, on_pool, put_publisher}
use friendlyrabbit.Service.Stop.{
  meanwhile, send_shutdown, stop_each, put_consumers, shutdown_service,
}

module _ (e : Env) (k : Packages) (i : Incoming e k) where
  abbrev pub alone : Service e k i → Service e k i
  alone s = s

  -- A consumer that has been told to stop, if it was started, without its messages.
  abbrev pub stopped : Bool → Consumer e k i → Consumer e k i
  stopped false c = c
  stopped true c = record c { consume_stop = true ∷ []; received_messages = [] }

  abbrev pub stopped_entry : String × Consumer e k i → String × Consumer e k i
  stopped_entry p = (p.0, stopped p.1.started p.1)

  stop_lem :
      (c : Consumer e k i)
      → c.consume_stop ≡ []
      → stop_consuming e k i true c ≡ done tt (stopped c.started c)
  stop_lem c empty =
      stop_consuming-outcome e k i true c
      ∙ ap (λ bs. stop_outcome e k i true c.started bs c) empty
      ∙ ends c.started
    where
      ends : (b : Bool) → stop_outcome e k i true b [] c ≡ done tt (stopped b c)
      ends true = refl
      ends false = refl

  stop_each_lem :
      (cs : Consumers e k i)
      → All (λ p. p.1.consume_stop ≡ []) cs
      → stop_each e k i alone cs ≡ done tt (map stopped_entry cs)
  unfolding stop_each
  stop_each_lem [] h = refl
  stop_each_lem ((name, c) ∷ rest) (empty, h) =
      rw (stop_each, stop_lem c empty, stop_each_lem rest h) refl

  abbrev in_world : e.Net → Service e k i → Service e k i
  in_world w s = record s {
    publisher = record (s.publisher) { pool = record (s.publisher.pool) { net = w } };
  }

  abbrev slept : e.Net → e.Net
  slept w = (e.sleep second w).1

  abbrev signalled : Service e k i → Service e k i
  signalled s =
      in_world (slept (slept s.publisher.pool.net)) (record s { shutdown_signal = true ∷ [] })

  abbrev last_steps : ℕ → Bool → Bool → Action (Service e k i) Bool
  last_steps rounds stop_consumers is_stopping = do
    choose stop_consumers
        (inside (λ s. s.consumers) (put_consumers e k i alone) (stop_each e k i alone)) (pure tt)
    on_pool e k i (PoolStart.shutdown e rounds)
    pure is_stopping

  send_lem :
      (s : Service e k i)
      → s.shutdown_signal ≡ []
      → send_shutdown e k i alone s ≡ done tt (record s { shutdown_signal = true ∷ [] })
  unfolding send_shutdown
  send_lem s empty =
      ap
        (λ (bs : List Bool).
          if leb 1 (length bs)
          then stuck
          else done tt (record s { shutdown_signal = bs ++ (true ∷ []) }))
        empty

  first_steps :
      (rounds : ℕ) (stop_consumers : Bool) (s : Service e k i)
      → s.shutdown_signal ≡ []
      → shutdown_service e k i alone rounds stop_consumers s
        ≡ last_steps rounds stop_consumers s.publisher.auto_started (signalled s)
  unfolding shutdown_service meanwhile on_pool on_publisher PublisherState.on_pool inside call
      shutdown_publisher stop_auto_publish choose pure ◌>>=◌ ◌>>◌
  first_steps rounds stop_consumers s empty =
      >>-done (send_shutdown e k i alone) _ (in_world (slept s.publisher.pool.net) s)
        (send_lem (in_world (slept s.publisher.pool.net) s) empty)

  abbrev pub consumers_after : Bool → Consumers e k i → Consumers e k i
  consumers_after true cs = map stopped_entry cs
  consumers_after false cs = cs

  stopping_lem :
      (stop_consumers : Bool) (s : Service e k i)
      → All (λ p. p.1.consume_stop ≡ []) s.consumers
      → choose stop_consumers
          (inside (λ s. s.consumers) (put_consumers e k i alone) (stop_each e k i alone))
          (pure tt)
          s
        ≡ done tt (record s { consumers = consumers_after stop_consumers s.consumers })
  unfolding choose pure inside
  stopping_lem true s h =
      ap (put_back (λ (s : Service e k i). s.consumers) (put_consumers e k i alone) s)
        (stop_each_lem s.consumers h)
  stopping_lem false s h = refl

  module _ (f : IsFifo e) where
    -- No connection and no channel is left, and none is counted or flagged.
    abbrev pub IsEmptied : Pool e → Type 0
    IsEmptied t =
        (f.contents t.connections ≡ [])
        × (t.channels ≡ [])
        × (t.connection_id ≡ 0)
        × ((id : ℕ) → is_connection_flagged e t id ≡ false)

    -- The pool is emptied, and the rest that is looked at is as it was.
    abbrev Rest : Service e k i → Service e k i → Type 0
    Rest s t =
        IsEmptied t.publisher.pool
        × (t.consumers ≡ s.consumers)
        × (t.shutdown_signal ≡ s.shutdown_signal)

    on_pool_lem :
        (m : Action (Pool e) (Unit {0})) (s : Service e k i)
        → Returns (λ u p. IsEmptied p) (m s.publisher.pool)
        → Returns (λ u t. Rest s t) (on_pool e k i m s)
    unfolding on_pool on_publisher PublisherState.on_pool
    on_pool_lem m s h =
        inside-Returns (λ s. s.publisher) (put_publisher e k i) (λ u p. IsEmptied p.pool)
          (λ u t. Rest s t) (PublisherState.on_pool e k m) s
          (inside-Returns (λ s. s.pool) (PublisherState.put_pool e k) (λ u p. IsEmptied p)
            (λ u p. IsEmptied p.pool) m s.publisher h (λ u t x. x))
          (λ u t x. (x, refl, refl))

    reports_lem :
        (m : Action (Service e k i) (Unit {0})) (b : Bool) (s' s : Service e k i)
        → Returns (λ u t. Rest s' t) (m s)
        → Returns
            (λ a t.
              (a ≡ b)
              × IsEmptied t.publisher.pool
              × (t.consumers ≡ s'.consumers)
              × (t.shutdown_signal ≡ s'.shutdown_signal))
            ((m >> pure b) s)
    unfolding ◌>>◌ pure
    reports_lem m b s' s h =
        Returns-bind (λ u t. Rest s' t) _ m _ s h (λ u t (x, y, z). (refl, x, y, z))

    -- Shutdown of a service whose pool is sound, with no signal of a shutdown in its Go channel and
    -- no stop signal in those of its consumers, while nobody else acts and the queue package makes
    -- new queues: it returns, whatever happens to the connections meanwhile, and has started the
    -- goroutine that stops the auto-publisher exactly if that was started. The pool is empty then, the
    -- signal of the shutdown is sent, and if the consumers are to be stopped each that was
    -- started has its stop signal and has lost its messages; those that were not started, and all of
    -- them otherwise, are as they were.
    pub shutdown_service-Returns :
        (rounds : ℕ) (stop_consumers : Bool) (s : Service e k i)
        → IsSound e f s.publisher.pool
        → ((n : ℕ) → (q : e.Queue) × (e.new_queue n ≡ some q))
        → s.shutdown_signal ≡ []
        → All (λ p. p.1.consume_stop ≡ []) s.consumers
        → Returns
            (λ is_stopping t.
              (is_stopping ≡ s.publisher.auto_started)
              × IsEmptied t.publisher.pool
              × (t.consumers ≡ consumers_after stop_consumers s.consumers)
              × (t.shutdown_signal ≡ true ∷ []))
            (shutdown_service e k i alone (suc (suc rounds)) stop_consumers s)
    shutdown_service-Returns rounds stop_consumers s sound makes empty free =
        rw (first_steps (suc (suc rounds)) stop_consumers s empty) (
          rw
            (>>-done _
              (on_pool e k i (PoolStart.shutdown e (suc (suc rounds)))
                >> pure s.publisher.auto_started)
              (signalled s) (stopping_lem stop_consumers (signalled s) free))
            (reports_lem _ s.publisher.auto_started
              (record (signalled s) { consumers = consumers_after stop_consumers s.consumers }) _
              (on_pool_lem _ _ (
                shutdown-Returns e f rounds _
                  (record { live = sound.live; queued = sound.queued; cached = sound.cached })
                  makes))))
