-- ===== src/Pool/Recovery.antt =====
-- The health checks of connectionpool.go: flags, the test of a connection, and its recovery. A loop
-- takes the number of rounds that it may make.
use friendlyrabbit.Base.{
  ℕ, zero, suc, Bool, true, false, Option, none, some, Action, done, pure, waits, ltb, ◌==◌, ◌>>=◌,
  ◌>>◌, if◌then◌else◌, choose,
}
use friendlyrabbit.Error.{Error, notice, AmqpError, Poll, received, closed, idle}
use friendlyrabbit.Env.{Env}
use friendlyrabbit.Pool.State.{ConnectionHost, Pool, call, notify, load, the}
use friendlyrabbit.Pool.Connection.{connect_with_error_handler, pause_on_flow_control}

module _ (e : Env) where
  unfoldable pub pause_on_error : Action (Pool e) (Unit {0})
  pause_on_error s =
      choose (ltb 0 s.sleep_on_error_interval) (call e (e.sleep s.sleep_on_error_interval))
        (pure tt) s

  unfoldable pub handle_error : Error → Action (Pool e) (Unit {0})
  unfolding pause_on_error
  handle_error x s = (do notify e s.error_handler x; pause_on_error) s

  abbrev set_flag : (ℕ → Option Bool) → ℕ → Bool → ℕ → Option Bool
  set_flag f id b j = if j == id then some b else f j

  unfoldable pub unflag_connection : ℕ → Action (Pool e) (Unit {0})
  unflag_connection id s =
      done tt (record s { flagged_connections = set_flag s.flagged_connections id false })

  unfoldable pub flag_connection : ℕ → Action (Pool e) (Unit {0})
  flag_connection id s =
      done tt (record s { flagged_connections = set_flag s.flagged_connections id true })

  abbrev flag_value : Option Bool → Bool
  flag_value none = false
  flag_value (some b) = b

  unfoldable pub is_connection_flagged : Pool e → ℕ → Bool
  is_connection_flagged s id = flag_value (s.flagged_connections id)

  unfoldable pub try_connect : ℕ → Action (Pool e) Bool
  try_connect p s = connect_with_error_handler e p s.unhealthy_handler s

  -- The first loop of triggerConnectionRecovery.
  unfoldable pub connect_until_up : ℕ → ℕ → Action (Pool e) (Unit {0})
  unfolding try_connect
  connect_until_up zero p = waits
  connect_until_up (suc rounds) p =
      let again = connect_until_up rounds p in
      do up ← try_connect p; choose up (pure tt) (do pause_on_error; again)

  unfoldable pub after_flush :
      Action (Pool e) (Unit {0}) → ConnectionHost e → Poll AmqpError → Action (Pool e) (Unit {0})
  after_flush again h (received x) = again
  after_flush again h closed = again
  after_flush again h idle = unflag_connection h.connection_id

  -- Its second loop. A closed channel of notices is always ready, and the loop goes on.
  unfoldable pub flush_errors : ℕ → ℕ → Action (Pool e) (Unit {0})
  unfolding after_flush
  flush_errors zero p = waits
  flush_errors (suc rounds) p =
      let again = flush_errors rounds p in
      do h ← load e p; r ← call e (e.poll_notices h.errors); after_flush again h r

  unfoldable pub trigger_connection_recovery : ℕ → ℕ → Action (Pool e) (Unit {0})
  trigger_connection_recovery rounds p = do connect_until_up rounds p; flush_errors rounds p

  -- Whether the host has had no notice; the user is told of one.
  unfoldable pub health : Poll AmqpError → Action (Pool e) Bool
  health (received x) s = (do notify e s.unhealthy_handler (notice (some x)); pure false) s
  health closed s = (do notify e s.unhealthy_handler (notice none); pure false) s
  health idle s = done true s

  -- `flagged || !healthy || connHost.Connection.IsClosed()`, the last asked only if need be.
  unfoldable pub is_dead : ConnectionHost e → Bool → Bool → Action (Pool e) Bool
  is_dead h true healthy = pure true
  is_dead h false false = pure true
  is_dead h false true = do c ← the h.connection; call e (e.is_closed c)

  -- The test of verifyHealthyConnection.
  unfoldable pub check_health : ConnectionHost e → Action (Pool e) Bool
  unfolding health is_dead is_connection_flagged
  check_health h = do
    r ← call e (e.poll_notices h.errors)
    healthy ← health r
    λ s. is_dead h (is_connection_flagged s h.connection_id) healthy s

  unfoldable pub recover_if : ℕ → ℕ → Bool → Action (Pool e) (Unit {0})
  recover_if rounds p dead = choose dead (trigger_connection_recovery rounds p) (pure tt)

  unfoldable pub verify_healthy_connection : ℕ → ℕ → Action (Pool e) (Unit {0})
  unfolding check_health recover_if
  verify_healthy_connection rounds p = do
    h ← load e p
    dead ← check_health h
    recover_if rounds p dead
    pause_on_flow_control e rounds p
