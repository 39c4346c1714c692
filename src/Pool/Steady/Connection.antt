-- ===== src/Pool/Steady/Connection.antt =====
-- The connection host's methods keep the pool steady and never panic.
use friendlyrabbit.Base.{ℕ, zero, suc, ◌<◌, ◌≡◌, Bool, Option, none, some, Any, String, Action}
use friendlyrabbit.Error.{Error, Poll, received, closed, idle}
use friendlyrabbit.Config.{TlsSettings}
use friendlyrabbit.Env.{Env}
use friendlyrabbit.Pool.State.{ConnectionHost, Handler, Pool}
use friendlyrabbit.Pool.Connection.{
  create_tls_config, is_open, actual_tls_config, report_failure, keep_connection, reconnect,
  connect_host, connect_with_error_handler, pause_round, after_poll, poll_then,
  pause_on_flow_control,
}
use friendlyrabbit.Pool.Steady.{
  Keeps, keeps_rules, Keeps-load_bind, Keeps-store, Keeps-the, id_of, IsPresent,
}

module _ (e : Env) (r : Pool e) where
  is_open-Keeps : (c : Option e.Connection) → Keeps e r Any (is_open e c)
  unfolding is_open
  is_open-Keeps none = search keeps_rules
  is_open-Keeps (some c) = search keeps_rules

  report_failure-Keeps : (h : Handler e) (x : Error) → Keeps e r Any (report_failure e h x)
  unfolding report_failure
  report_failure-Keeps h x = search keeps_rules

  create_tls_config-Keeps : (pem key : String) → Keeps e r Any (create_tls_config e pem key)
  unfolding create_tls_config
  create_tls_config-Keeps pem key = search (keeps_rules) depth 10

  actual_tls_config-Keeps : (t : Option TlsSettings) → Keeps e r Any (actual_tls_config e t)
  unfolding actual_tls_config
  actual_tls_config-Keeps none = search keeps_rules
  actual_tls_config-Keeps (some t) = search (keeps_rules, create_tls_config-Keeps)

  keep_connection-Keeps :
      (p : ℕ) (h : ConnectionHost e) (c : e.Connection)
      → some h.connection_id ≡ id_of e (r.hosts p)
      → Keeps e r Any (keep_connection e p h c)
  unfolding keep_connection
  keep_connection-Keeps p h c same =
      search
        (
          keeps_rules,
          λ (n : e.Notices) (b : e.Blockers).
              Keeps-store e r p (record h { connection = some c; errors = n; blockers = b })
                (tt, same),
        )
        depth 10

  reconnect-Keeps :
      (p : ℕ) (h : ConnectionHost e) (handler : Handler e)
      → some h.connection_id ≡ id_of e (r.hosts p)
      → Keeps e r Any (reconnect e p h handler)
  unfolding reconnect
  reconnect-Keeps p h handler same =
      search
        (
          keeps_rules,
          actual_tls_config-Keeps,
          report_failure-Keeps,
          λ (c : e.Connection). keep_connection-Keeps p h c same,
        )
        depth 10

  connect_host-Keeps :
      (p : ℕ) (h : ConnectionHost e) (handler : Handler e)
      → some h.connection_id ≡ id_of e (r.hosts p)
      → Keeps e r Any (connect_host e p h handler)
  unfolding connect_host
  connect_host-Keeps p h handler same =
      search (keeps_rules, is_open-Keeps, reconnect-Keeps) depth 10

  -- One attempt to connect a host of the pool.
  pub connect_with_error_handler-Keeps :
      (p : ℕ) (handler : Handler e)
      → p < r.next_host
      → Keeps e r Any (connect_with_error_handler e p handler)
  unfolding connect_with_error_handler
  connect_with_error_handler-Keeps p handler lt =
      Keeps-load_bind e r p _ lt λ h known. connect_host-Keeps p h handler known.1

  after_poll-Keeps :
      (again : Action (Pool e) (Unit {0})) (b : Poll Bool)
      → Keeps e r Any again
      → Keeps e r Any (after_poll e again b)
  unfolding after_poll
  after_poll-Keeps again (received active) k = search keeps_rules
  after_poll-Keeps again closed k = search keeps_rules
  after_poll-Keeps again idle k = search keeps_rules

  poll_then-Keeps :
      (again : Action (Pool e) (Unit {0})) (h : ConnectionHost e)
      → Keeps e r Any again
      → Keeps e r Any (poll_then e again h)
  unfolding poll_then
  poll_then-Keeps again h k = search (keeps_rules, after_poll-Keeps)

  pause_round-Keeps :
      (again : Action (Pool e) (Unit {0})) (h : ConnectionHost e)
      → IsPresent h.connection
      → Keeps e r Any again
      → Keeps e r Any (pause_round e again h)
  unfolding pause_round
  pause_round-Keeps again h present k = search (keeps_rules, Keeps-the, poll_then-Keeps) depth 10

  -- Waiting for the flow control of a host of the pool.
  pub pause_on_flow_control-Keeps :
      (rounds p : ℕ) → p < r.next_host → Keeps e r Any (pause_on_flow_control e rounds p)
  unfolding pause_on_flow_control
  pause_on_flow_control-Keeps zero p lt = search keeps_rules
  pause_on_flow_control-Keeps (suc rounds) p lt =
      Keeps-load_bind e r p _ lt
        λ h known. pause_round-Keeps _ h known.0 (pause_on_flow_control-Keeps rounds p lt)
