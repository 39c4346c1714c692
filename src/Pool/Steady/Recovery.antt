-- ===== src/Pool/Steady/Recovery.antt =====
-- The health check and the recovery of a connection keep the pool steady and never panic.
use friendlyrabbit.Base.{
  ℕ, zero, suc, ◌<◌, Bool, true, false, Option, Any, Action, Safe-pure-Any, Safe-choose,
  Safe-bind-Any, Safe-then,
}
use friendlyrabbit.Error.{Error, AmqpError, Poll, received, closed, idle}
use friendlyrabbit.Env.{Env}
use friendlyrabbit.Pool.State.{ConnectionHost, Pool}
use friendlyrabbit.Pool.Recovery.{
  pause_on_error, handle_error, unflag_connection, flag_connection, try_connect, connect_until_up,
  after_flush, flush_errors, trigger_connection_recovery, health, is_dead, check_health, recover_if,
  verify_healthy_connection,
}
use friendlyrabbit.Pool.Steady.{
  Steady, Keeps, keeps_rules, Keeps-call, Keeps-notify, Keeps-load_bind, Keeps-the, IsPresent,
}
use friendlyrabbit.Pool.Steady.Connection.{
  connect_with_error_handler-Keeps, pause_on_flow_control-Keeps,
}

module _ (e : Env) (r : Pool e) where
  pause_on_error-Keeps : Keeps e r Any (pause_on_error e)
  unfolding pause_on_error
  pause_on_error-Keeps = record {
    holds = λ s h. (Safe-choose _ _ _ (Keeps-call e r _) (Safe-pure-Any _)).holds s h;
  }

  -- An error that is handed to the user.
  pub handle_error-Keeps : (x : Error) → Keeps e r Any (handle_error e x)
  unfolding handle_error
  handle_error-Keeps x = record {
    holds =
        λ s h. (Safe-then _ _ (Keeps-notify e r s.error_handler x) pause_on_error-Keeps).holds s h;
  }

  Steady-flags :
      (s : Pool e) (f : ℕ → Option Bool)
      → Steady e r s
      → Steady e r (record s { flagged_connections = f })
  Steady-flags s f h = record {
    next_host = h.next_host;
    connections = h.connections;
    channels = h.channels;
    config = h.config;
    counted = h.counted;
    live = h.live;
    ids = h.ids;
  }

  pub unflag_connection-Keeps : (id : ℕ) → Keeps e r Any (unflag_connection e id)
  unfolding unflag_connection
  unflag_connection-Keeps id = record { holds = λ s h. (tt, Steady-flags s _ h) }

  pub flag_connection-Keeps : (id : ℕ) → Keeps e r Any (flag_connection e id)
  unfolding flag_connection
  flag_connection-Keeps id = record { holds = λ s h. (tt, Steady-flags s _ h) }

  try_connect-Keeps : (p : ℕ) → p < r.next_host → Keeps e r Any (try_connect e p)
  unfolding try_connect
  try_connect-Keeps p lt = record {
    holds = λ s h. (connect_with_error_handler-Keeps e r p s.unhealthy_handler lt).holds s h;
  }

  connect_until_up-Keeps :
      (rounds p : ℕ) → p < r.next_host → Keeps e r Any (connect_until_up e rounds p)
  unfolding connect_until_up
  connect_until_up-Keeps zero p lt = search keeps_rules
  connect_until_up-Keeps (suc rounds) p lt = Safe-bind-Any _ _ (try_connect-Keeps p lt) λ up.
      Safe-choose up _ _ (Safe-pure-Any _)
        (Safe-then _ _ pause_on_error-Keeps (connect_until_up-Keeps rounds p lt))

  after_flush-Keeps :
      (again : Action (Pool e) (Unit {0})) (h : ConnectionHost e) (x : Poll AmqpError)
      → Keeps e r Any again
      → Keeps e r Any (after_flush e again h x)
  unfolding after_flush
  after_flush-Keeps again h (received x) k = k
  after_flush-Keeps again h closed k = k
  after_flush-Keeps again h idle k = unflag_connection-Keeps _

  flush_errors-Keeps : (rounds p : ℕ) → p < r.next_host → Keeps e r Any (flush_errors e rounds p)
  unfolding flush_errors
  flush_errors-Keeps zero p lt = search keeps_rules
  flush_errors-Keeps (suc rounds) p lt = Keeps-load_bind e r p _ lt λ h known.
      Safe-bind-Any _ _ (Keeps-call e r _)
        λ x. after_flush-Keeps _ h x (flush_errors-Keeps rounds p lt)

  health-Keeps : (x : Poll AmqpError) → Keeps e r Any (health e x)
  unfolding health
  health-Keeps (received x) = record {
    holds =
        λ s h. (Safe-then _ _ (Keeps-notify e r s.unhealthy_handler _) (Safe-pure-Any _)).holds s h;
  }
  health-Keeps closed = record {
    holds =
        λ s h. (Safe-then _ _ (Keeps-notify e r s.unhealthy_handler _) (Safe-pure-Any _)).holds s h;
  }
  health-Keeps idle = record { holds = λ s h. (tt, h) }

  is_dead-Keeps :
      (h : ConnectionHost e) (flagged healthy : Bool)
      → IsPresent h.connection
      → Keeps e r Any (is_dead e h flagged healthy)
  unfolding is_dead
  is_dead-Keeps h true healthy present = search keeps_rules
  is_dead-Keeps h false false present = search keeps_rules
  is_dead-Keeps h false true present = search (keeps_rules, Keeps-the)

  check_health-Keeps :
      (h : ConnectionHost e) → IsPresent h.connection → Keeps e r Any (check_health e h)
  unfolding check_health
  check_health-Keeps h present = Safe-bind-Any _ _ (Keeps-call e r _) λ x.
      Safe-bind-Any _ _ (health-Keeps x)
        λ healthy. record { holds = λ s st. (is_dead-Keeps h _ healthy present).holds s st }

  recover_if-Keeps :
      (rounds p : ℕ) (dead : Bool) → p < r.next_host → Keeps e r Any (recover_if e rounds p dead)
  unfolding recover_if trigger_connection_recovery
  recover_if-Keeps rounds p dead lt =
      Safe-choose dead _ _
        (Safe-then _ _ (connect_until_up-Keeps rounds p lt) (flush_errors-Keeps rounds p lt))
        (Safe-pure-Any _)

  -- The check of a host of the pool, recovery and waiting included.
  pub verify_healthy_connection-Keeps :
      (rounds p : ℕ) → p < r.next_host → Keeps e r Any (verify_healthy_connection e rounds p)
  unfolding verify_healthy_connection
  verify_healthy_connection-Keeps rounds p lt = Keeps-load_bind e r p _ lt λ h known.
      Safe-bind-Any _ _ (check_health-Keeps h known.0) λ dead.
        Safe-then _ _ (recover_if-Keeps rounds p dead lt)
          (pause_on_flow_control-Keeps e r rounds p lt)
