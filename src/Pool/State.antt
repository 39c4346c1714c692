-- ===== src/Pool/State.antt =====
-- The structs of connectionhost.go, channelhost.go and connectionpool.go, and the state that the
-- pool's code runs on: the pool's own fields, the `ConnectionHost`s that it has allocated, which
-- pointers share, and the outside world. Mutexes are left out: a run is one goroutine's.
use friendlyrabbit.Base.{
  ℕ, actions, String, Bool, Option, none, some, List, Action, done, panic, ◌==◌, if◌then◌else◌,
}
use friendlyrabbit.Error.{Error}
use friendlyrabbit.Config.{PoolConfig, TlsSettings}
use friendlyrabbit.Env.{Env}

module _ (e : Env) where
  open e use {Net, Connection, Channel, Notices, Blockers, Queue}

  pub record ConnectionHost : Type 0 where
    pub connection : Option Connection
    pub connection_id : ℕ  -- uint64
    pub cached_channel_count : ℕ  -- uint64
    pub uri : String
    pub connection_name : String
    pub heartbeat_interval : ℕ  -- nanoseconds
    pub connection_timeout : ℕ  -- nanoseconds
    pub tls_config : Option TlsSettings
    pub errors : Notices
    pub blockers : Blockers

  -- `conn_host` is the pointer to the host that the channel was opened on.
  pub record ChannelHost : Type 0 where
    pub channel : Option Channel
    pub id : ℕ  -- uint64
    pub connection_id : ℕ  -- uint64
    pub ackable : Bool
    pub transient : Bool
    pub errors : Option Notices
    pub conn_host : ℕ

  -- A user's `func(error)`, which may be nil; it acts on the outside world only.
  abbrev pub Handler : Type 0
  Handler = Option (Error → Net → Unit {0} × Net)

  pub record Pool : Type 0 where
    pub net : Net
    -- the allocated hosts by pointer, and the next pointer
    pub hosts : ℕ → Option ConnectionHost
    pub next_host : ℕ
    -- the fields of ConnectionPool
    pub config : PoolConfig
    pub uri : String
    pub heartbeat_interval : ℕ  -- nanoseconds
    pub connection_timeout : ℕ  -- nanoseconds
    pub connections : Queue
    pub channels : List ChannelHost
    pub connection_id : ℕ  -- uint64
    pub flagged_connections : ℕ → Option Bool
    pub sleep_on_error_interval : ℕ  -- nanoseconds
    pub error_handler : Handler
    pub unhealthy_handler : Handler

  -- A call of the outside world.
  unfoldable pub call : {A : Type 0} → (Net → A × Net) → Action Pool A
  call f s = done (f s.net).0 (record s { net = (f s.net).1 })

  -- A call of a handler, if there is one.
  unfoldable pub notify : Handler → Error → Action Pool (Unit {0})
  unfolding call
  notify none x s = done tt s
  notify (some h) x s = call (h x) s

  -- What a pointer points to.
  unfoldable pub load : ℕ → Action Pool ConnectionHost
  load p s = elim (s.hosts p) [ none ↦ panic s | some h ↦ done h s ]

  abbrev pub update : (ℕ → Option ConnectionHost) → ℕ → ConnectionHost → ℕ → Option ConnectionHost
  update f p h r = if r == p then some h else f r

  unfoldable pub store : ℕ → ConnectionHost → Action Pool (Unit {0})
  store p h s = done tt (record s { hosts = update s.hosts p h })

-- The value behind a pointer that a method is called on, which panics on nil.
unfoldable pub the : {S A : Type 0} → Option A → Action S A
the none s = panic s
the (some c) s = done c s

-- Its `unfolding` line opens the actions on a pool.
unfoldable pub pool_actions : Unit {0}
unfolding actions call notify load store the
pool_actions = tt
