-- ===== src/Service/Stop.antt =====
-- Shutdown of the service. `others` is what the other goroutines have done until it next looks at
-- what they share.
use friendlyrabbit.Base.{
  ℕ, Bool, true, false, [], ◌∷◌, ◌++◌, String, Action, Run, done, panic, stuck, pure, choose,
  inside, leb, length, ◌>>=◌, ◌>>◌, if◌then◌else◌,
}
use friendlyrabbit.Env.{Env}
use friendlyrabbit.Payload.Packages.{Packages}
use friendlyrabbit.Pool.State.{call}
use friendlyrabbit.Pool.Connection.{second}
use friendlyrabbit.Pool.Start as PoolStart
use friendlyrabbit.Publisher.Queue.{shutdown_publisher}
use friendlyrabbit.Consumer.State.{Incoming, Consumer}
use friendlyrabbit.Consumer.Control.{stop_consuming}
use friendlyrabbit.Service.State.{Service, Consumers, on_publisher, on_pool}

module _ (e : Env) (k : Packages) (i : Incoming e k) (others : Service e k i → Service e k i) where
  unfoldable pub meanwhile : Action (Service e k i) (Unit {0})
  meanwhile s = done tt (others s)

  -- make(chan bool, 1)
  abbrev pub signal_capacity : ℕ
  signal_capacity = 1

  -- `rs.shutdownSignal <- true`
  unfoldable pub send_shutdown : Action (Service e k i) (Unit {0})
  send_shutdown s =
      if leb signal_capacity (length s.shutdown_signal)
      then stuck
      else done tt (record s { shutdown_signal = s.shutdown_signal ++ (true ∷ []) })

  -- One consumer after the other.
  abbrev pub after_consumer :
      String → Consumer e k i → Run (Consumers e k i) (Unit {0}) → Run (Consumers e k i) (Unit {0})
  after_consumer name c (done u rest) = done tt ((name, c) ∷ rest)
  after_consumer name c (panic rest) = panic ((name, c) ∷ rest)
  after_consumer name c stuck = stuck

  unfoldable pub stop_each : Action (Consumers e k i) (Unit {0})
  stop_each [] = done tt []
  stop_each ((name, c) ∷ rest) = elim (stop_consuming e k i true c) [
    | done u c' ↦ after_consumer name c' (stop_each rest)
    | panic c' ↦ panic ((name, c') ∷ rest)
    | stuck ↦ stuck
  ]

  abbrev pub put_consumers : Consumers e k i → Service e k i → Service e k i
  put_consumers cs s = record s { consumers = cs }

  -- Whether a goroutine is started that sends the signal to the auto-publisher; it sends on its own.
  unfoldable pub shutdown_service : ℕ → Bool → Action (Service e k i) Bool
  unfolding meanwhile send_shutdown stop_each inside
  shutdown_service rounds stop_consumers = do
    is_stopping ← on_publisher e k i (shutdown_publisher e k rounds false)
    on_pool e k i (call e (e.sleep second))
    meanwhile
    send_shutdown
    on_pool e k i (call e (e.sleep second))
    meanwhile
    choose stop_consumers (inside (λ s. s.consumers) put_consumers stop_each) (pure tt)
    on_pool e k i (PoolStart.shutdown e rounds)
    pure is_stopping
