-- ===== src/Pool/Start.antt =====
-- The construction of a pool and its shutdown, of connectionpool.go.
use friendlyrabbit.Base.{
  ℕ, zero, suc, ◌+◌, ◌*◌, ◌%◌, ◌<>◌, Bool, true, false, ◌||◌, Option, none, some, List, [], ◌∷◌,
  Action, recovered, Run, done, panic, stuck, pure, fails, waits, ◌==◌, ◌>>=◌, ◌>>◌, if◌then◌else◌,
  choose,
}
use friendlyrabbit.Error.{Error, zero_interval, zero_connections, not_initialized, Result, ok, err}
use friendlyrabbit.Config.{PoolConfig}
use friendlyrabbit.Env.{Env, Item, host, other, Got, items, failed, blocks}
use friendlyrabbit.Pool.State.{ChannelHost, Handler, Pool, call, load, the}
use friendlyrabbit.Pool.Connection.{second, millisecond, on_result, new_connection_host}
use friendlyrabbit.Pool.Recovery.{handle_error}
use friendlyrabbit.Pool.Lease.{send_channel, close_quietly, create_cache_channel}

-- uint64 arithmetic wraps.
abbrev pub u64 : ℕ → ℕ
u64 n = n % 18446744073709551616

module _ (e : Env) where
  unfoldable pub reset_connections : Option e.Queue → Action (Pool e) (Unit {0})
  reset_connections none s = panic s
  reset_connections (some q) s = done tt (record s { connections = q })

  unfoldable pub renew_connections : Action (Pool e) (Unit {0})
  unfolding reset_connections
  renew_connections s = reset_connections (e.new_queue s.config.max_connection_count) s

  -- A new host for the pool, named after the application and the connection's id.
  unfoldable pub next_connection : Action (Pool e) (Result ℕ)
  next_connection s =
      new_connection_host e s.uri
        (s.config.application_name <> "-" <> e.format_uint s.connection_id) s.connection_id
        s.heartbeat_interval s.connection_timeout s.config.tls_config s

  unfoldable pub give_up : Error → Action (Pool e) Bool
  give_up x = do handle_error e x; pure false

  unfoldable pub queued_as : Option Error × e.Queue → Action (Pool e) (Result (Unit {0}))
  queued_as (none, q) s = done (ok tt) (record s { connections = q })
  queued_as (some x, q) s = done (err x) (record s { connections = q })

  unfoldable pub queued : ℕ → Action (Pool e) (Result (Unit {0}))
  unfolding queued_as
  queued p s = queued_as (e.put (host p) s.connections) s

  unfoldable pub count_connection : Action (Pool e) (Unit {0})
  count_connection s = done tt (record s { connection_id = u64 (s.connection_id + 1) })

  -- The first loop of initializeConnections, by the connections that are left to make.
  unfoldable pub make_connections : ℕ → Action (Pool e) Bool
  unfolding next_connection give_up queued count_connection
  make_connections zero = pure true
  make_connections (suc left) =
      let again = make_connections left in
      do
        r ← next_connection
        on_result give_up
            (λ p. do
              queued_p ← queued p
              on_result give_up (λ u. do count_connection; again) queued_p)
            r

  -- Its second loop, from the given id on.
  unfoldable pub make_channels : ℕ → ℕ → ℕ → Action (Pool e) Bool
  make_channels rounds zero i = pure true
  make_channels rounds (suc left) i =
      let again = make_channels rounds left (i + 1) in
      do ch ← create_cache_channel e rounds rounds i true; send_channel e ch; again

  unfoldable pub start_count : Action (Pool e) (Unit {0})
  start_count s = done tt (record s { connection_id = 0 })

  unfoldable pub fill_connections : Action (Pool e) Bool
  unfolding make_connections
  fill_connections s = make_connections s.config.max_connection_count s

  unfoldable pub fill_channels : ℕ → Action (Pool e) Bool
  unfolding make_channels
  fill_channels rounds s = make_channels rounds s.config.max_cache_channel_count 0 s

  unfoldable pub initialize_connections : ℕ → Action (Pool e) Bool
  unfolding start_count renew_connections fill_connections fill_channels
  initialize_connections rounds = do
    start_count
    renew_connections
    connected ← fill_connections
    choose connected (fill_channels rounds) (pure false)

  unfoldable pub blank_pool : PoolConfig → Handler e → Handler e → e.Queue → e.Net → Pool e
  blank_pool config error_handler unhealthy_handler q net = record {
    net = net;
    hosts = λ p. none;
    next_host = 0;
    config = config;
    uri = config.uri;
    heartbeat_interval = config.heartbeat * second;
    connection_timeout = config.connection_timeout * second;
    connections = q;
    channels = [];
    connection_id = 0;
    flagged_connections = λ id. none;
    sleep_on_error_interval = config.sleep_on_error_interval * millisecond;
    error_handler = error_handler;
    unhealthy_handler = unhealthy_handler;
  }

  unfoldable pub started : Bool → Action (Pool e) (Result (Unit {0}))
  started true = pure (ok tt)
  started false = pure (err not_initialized)

  unfoldable pub init_pool : ℕ → Action (Pool e) (Result (Unit {0}))
  unfolding initialize_connections started
  init_pool rounds = do up ← initialize_connections rounds; started up

  -- What NewConnectionPool comes to: a refusal of the settings, or a run on a new pool. A run that
  -- ends with an error leaves no pool to the caller.
  pub data Opened : Type 0 where
    refused : Error → Opened
    crashed : Opened
    ran : Run (Pool e) (Result (Unit {0})) → Opened

  unfoldable pub open_pool :
      ℕ → PoolConfig → Handler e → Handler e → Option e.Queue → e.Net → Opened
  unfolding blank_pool init_pool
  open_pool rounds config h u none net = crashed
  open_pool rounds config h u (some q) net = ran (init_pool rounds (blank_pool config h u q net))

  unfoldable pub new_connection_pool : ℕ → PoolConfig → Handler e → Handler e → e.Net → Opened
  unfolding open_pool
  new_connection_pool rounds config h u net =
      if config.heartbeat == 0 || config.connection_timeout == 0
      then refused zero_interval
      else if config.max_connection_count == 0
      then refused zero_connections
      else open_pool rounds config h u (e.new_queue config.max_connection_count) net

  unfoldable pub no_channels : Action (Pool e) (Unit {0})
  no_channels s = done tt (record s { channels = [] })

  -- ChannelFlushLoop closes the channels that the cache holds.
  unfoldable pub close_channels : List (ChannelHost e) → Action (Pool e) (Unit {0})
  unfolding no_channels
  close_channels [] = no_channels
  close_channels (ch ∷ rest) = do close_quietly e ch; close_channels rest

  unfoldable pub close_if_open : e.Connection → Bool → Action (Pool e) (Unit {0})
  close_if_open c is_shut = choose is_shut (pure tt) (call e (e.close_connection c))

  unfoldable pub close_connection_of : ℕ → Action (Pool e) (Unit {0})
  unfolding close_if_open
  close_connection_of p = do
    h ← load e p
    c ← the h.connection
    is_shut ← call e (e.is_closed c)
    close_if_open c is_shut

  -- It is closed in a goroutine that survives a panic.
  unfoldable pub close_host : ℕ → Action (Pool e) (Unit {0})
  unfolding close_connection_of
  close_host p = recovered (close_connection_of p)

  -- The type assertion on an item panics outside the goroutine.
  unfoldable pub close_items : List Item → Action (Pool e) (Unit {0})
  unfolding close_host
  close_items [] = pure tt
  close_items (host p ∷ rest) = do close_host p; close_items rest
  close_items (other ∷ rest) = fails

  unfoldable pub close_got : Action (Pool e) (Unit {0}) → Got e.Queue → Action (Pool e) (Unit {0})
  unfolding close_items
  close_got again (items is q) s = (do close_items is; again) (record s { connections = q })
  close_got again (failed x) s = again s
  close_got again blocks s = stuck

  unfoldable pub close_round : Action (Pool e) (Unit {0}) → Action (Pool e) (Unit {0})
  unfolding close_got
  close_round again s =
      if e.is_empty s.connections
      then done tt s
      else close_got again (e.get (e.len s.connections) s.connections) s

  -- `for !cp.connections.Empty()`
  unfoldable pub close_connections : ℕ → Action (Pool e) (Unit {0})
  unfolding close_round
  close_connections zero = waits
  close_connections (suc rounds) = let again = close_connections rounds in close_round again

  unfoldable pub flush_channels : Action (Pool e) (Unit {0})
  unfolding close_channels
  flush_channels s = close_channels s.channels s

  unfoldable pub forget : Action (Pool e) (Unit {0})
  forget s = done tt (record s { flagged_connections = λ id. none; connection_id = 0 })

  unfoldable pub shutdown : ℕ → Action (Pool e) (Unit {0})
  unfolding flush_channels close_connections renew_connections forget
  shutdown rounds = do flush_channels; close_connections rounds; renew_connections; forget
