-- ===== src/Pool/Connection.antt =====
-- connectionhost.go, with the TLS configuration of configs.go.
use friendlyrabbit.Base.{
  ℕ, zero, suc, String, ◌<>◌, Bool, true, false, not, Option, none, some, Action, done, pure, waits,
  ◌>>=◌, ◌>>◌, choose,
}
use friendlyrabbit.Error.{Error, unable_to_connect, Result, ok, err, Poll, received, closed, idle}
use friendlyrabbit.Config.{TlsSettings}
use friendlyrabbit.Env.{Env, DialConfig}
use friendlyrabbit.Pool.State.{
  ConnectionHost, Handler, Pool, call, notify, load, store, update, the,
}

-- time.Second and time.Millisecond
abbrev pub second : ℕ
second = 1000000000

abbrev pub millisecond : ℕ
millisecond = 1000000

-- `err != nil`, and what is done with the value otherwise.
unfoldable pub on_result :
    {S A B : Type 0} → (Error → Action S B) → (A → Action S B) → Result A → Action S B
on_result f g (err x) = f x
on_result f g (ok a) = g a

module _ (e : Env) where
  unfoldable pub create_tls_config : String → String → Action (Pool e) (Result e.Tls)
  create_tls_config pem_location local_location = do
    ca ← call e (e.read_file pem_location)
    on_result (λ x. pure (err x))
        (λ pem. do
          cert ← call e (e.load_key_pair local_location local_location)
          on_result (λ x. pure (err x))
              (λ c. pure (ok (e.add_certificate c (e.append_certs pem e.new_tls)))) cert)
        ca

  -- `ch.Connection != nil && !ch.Connection.IsClosed()`
  unfoldable pub is_open : Option e.Connection → Action (Pool e) Bool
  is_open none = pure false
  is_open (some c) = do is_shut ← call e (e.is_closed c); pure (not is_shut)

  -- The TLS configuration of a host, absent where TLS is off.
  unfoldable pub actual_tls_config : Option TlsSettings → Action (Pool e) (Result (Option e.Tls))
  unfolding create_tls_config
  actual_tls_config none = pure (ok none)
  actual_tls_config (some t) =
      choose t.enable_tls
        (do
          r ← create_tls_config t.pem_cert_location t.local_cert_location
          on_result (λ x. pure (err x)) (λ c. pure (ok (some c))) r)
        (pure (ok none))

  abbrev server_name : Option TlsSettings → String
  server_name none = ""
  server_name (some t) = t.cert_server_name

  abbrev address : ConnectionHost e → Option e.Tls → String
  address h none = h.uri
  address h (some t) = "amqps://" <> server_name h.tls_config

  abbrev dial_config : ConnectionHost e → Option e.Tls → DialConfig e.Tls
  dial_config h t = record {
    heartbeat = h.heartbeat_interval;
    timeout = h.connection_timeout;
    connection_name = h.connection_name;
    tls = t;
  }

  unfoldable pub report_failure : Handler e → Error → Action (Pool e) Bool
  report_failure handler x = do notify e handler x; pure false

  -- The new connection is kept, and the client package is told where to send notices.
  unfoldable pub keep_connection : ℕ → ConnectionHost e → e.Connection → Action (Pool e) Bool
  keep_connection p h c = do
    errors ← call e (e.make_notices 10)
    blockers ← call e (e.make_blockers 10)
    store e p (record h { connection = some c; errors = errors; blockers = blockers })
    call e (e.notify_close c errors)
    call e (e.notify_blocked c blockers)
    pure true

  unfoldable pub reconnect : ℕ → ConnectionHost e → Handler e → Action (Pool e) Bool
  unfolding actual_tls_config report_failure keep_connection
  reconnect p h handler = do
    tls ← actual_tls_config h.tls_config
    on_result (report_failure handler)
        (λ t. do
          c ← call e (e.dial (address h t) (dial_config h t))
          on_result (report_failure handler) (keep_connection p h) c)
        tls

  -- The test is repeated once the lock is held.
  unfoldable pub connect_host : ℕ → ConnectionHost e → Handler e → Action (Pool e) Bool
  unfolding is_open reconnect
  connect_host p h handler = do
    up ← is_open h.connection
    choose up (pure true)
        (do still_up ← is_open h.connection; choose still_up (pure true) (reconnect p h handler))

  unfoldable pub connect_with_error_handler : ℕ → Handler e → Action (Pool e) Bool
  unfolding connect_host
  connect_with_error_handler p handler = do h ← load e p; connect_host p h handler

  unfoldable pub connect : ℕ → Action (Pool e) Bool
  unfolding connect_with_error_handler
  connect p = connect_with_error_handler p none

  -- A new host at the next pointer, which is not connected yet.
  unfoldable pub allocate : ConnectionHost e → Action (Pool e) ℕ
  allocate h s =
      done s.next_host
        (record s { hosts = update e s.hosts s.next_host h; next_host = suc s.next_host })

  unfoldable pub after_poll : Action (Pool e) (Unit {0}) → Poll Bool → Action (Pool e) (Unit {0})
  after_poll again (received active) = choose active (do call e (e.sleep second); again) (pure tt)
  after_poll again closed = pure tt
  after_poll again idle = pure tt

  -- The `select` of PauseOnFlowControl, which ends the loop or goes round again.
  unfoldable pub poll_then :
      Action (Pool e) (Unit {0}) → ConnectionHost e → Action (Pool e) (Unit {0})
  unfolding after_poll
  poll_then again h = do blocker ← call e (e.poll_blockers h.blockers); after_poll again blocker

  unfoldable pub pause_round :
      Action (Pool e) (Unit {0}) → ConnectionHost e → Action (Pool e) (Unit {0})
  unfolding poll_then
  pause_round again h = do
    c ← the h.connection
    is_shut ← call e (e.is_closed c)
    choose is_shut (pure tt) (poll_then again h)

  -- The loop of PauseOnFlowControl, for at most the given number of rounds. A receive from a closed
  -- channel gives the zero `Blocking`, which is not active.
  unfoldable pub pause_on_flow_control : ℕ → ℕ → Action (Pool e) (Unit {0})
  unfolding pause_round
  pause_on_flow_control zero p = waits
  pause_on_flow_control (suc rounds) p =
      let again = pause_on_flow_control rounds p in do h ← load e p; pause_round again h

  unfoldable pub connected_host : ℕ → Bool → Action (Pool e) (Result ℕ)
  connected_host p true = pure (ok p)
  connected_host p false = pure (err unable_to_connect)

  unfoldable pub new_connection_host :
      String → String → ℕ → ℕ → ℕ → Option TlsSettings → Action (Pool e) (Result ℕ)
  unfolding allocate connect connected_host
  new_connection_host uri name id heartbeat timeout tls = do
    errors ← call e (e.make_notices 10)
    blockers ← call e (e.make_blockers 10)
    p ← allocate (record {
      connection = none;
      connection_id = id;
      cached_channel_count = 0;
      uri = uri;
      connection_name = name;
      heartbeat_interval = heartbeat;
      connection_timeout = timeout;
      tls_config = tls;
      errors = errors;
      blockers = blockers;
    })
    up ← connect p
    connected_host p up
