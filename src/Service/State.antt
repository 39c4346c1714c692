-- ===== src/Service/State.antt =====
-- The RabbitService and its settings. The pool is the publisher's, and the consumers share it: what a
-- stored consumer has in its field `pool` is not looked at, and GetConsumer puts the pool there.
use friendlyrabbit.Base.{
  lookup, ℕ, String, Bool, Option, none, some, List, [], ◌∷◌, ◌++◌, Action, done, stuck, inside,
  leb, length, if◌then◌else◌,
}
use friendlyrabbit.Error.{Error, Result, ok, err, consumer_not_found}
use friendlyrabbit.Config.{
  CompressionConfig, EncryptionConfig, PoolConfig, PublisherConfig, ConsumerConfig,
}
use friendlyrabbit.Env.{Env}
use friendlyrabbit.Payload.Packages.{Packages}
use friendlyrabbit.Message.Letter.{Table}
use friendlyrabbit.Pool.State.{Pool}
use friendlyrabbit.Publisher.State as PublisherState
use friendlyrabbit.Publisher.State.{Publisher}
use friendlyrabbit.Consumer.State.{Incoming, Consumer}

-- The pointers may be nil; a map is the list of its entries.
pub record RabbitSeasoning (k : Packages) : Type 0 where
  pub encryption_config : Option EncryptionConfig
  pub compression_config : Option CompressionConfig
  pub pool_config : Option PoolConfig
  pub consumer_configs : List (String × Option (ConsumerConfig (Table k)))
  pub publisher_config : Option PublisherConfig

module _ (e : Env) (k : Packages) (i : Incoming e k) where
  abbrev pub Consumers : Type 0
  Consumers = List (String × Consumer e k i)

  pub record Service : Type 0 where
    pub config : RabbitSeasoning k
    pub publisher : Publisher e k
    pub encryption_configured : Bool
    pub central_err : List Error
    pub consumers : Consumers
    pub shutdown_signal : List Bool
    pub shutdown : Bool
    pub monitor_sleep_interval : ℕ  -- nanoseconds

  abbrev pub put_publisher : Publisher e k → Service → Service
  put_publisher p s = record s { publisher = p }

  unfoldable pub on_publisher : {A : Type 0} → Action (Publisher e k) A → Action Service A
  unfolding inside
  on_publisher m = inside (λ s. s.publisher) put_publisher m

  unfoldable pub on_pool : {A : Type 0} → Action (Pool e) A → Action Service A
  unfolding on_publisher
  on_pool m = on_publisher (PublisherState.on_pool e k m)

  -- make(chan error, 1000)
  abbrev pub central_capacity : ℕ
  central_capacity = 1000

  -- `rs.centralErr <- err`
  unfoldable pub send_central : Error → Action Service (Unit {0})
  send_central x s =
      if leb central_capacity (length s.central_err)
      then stuck
      else done tt (record s { central_err = s.central_err ++ (x ∷ []) })

  unfoldable pub get_consumer : String → Service → Result (Consumer e k i)
  unfolding lookup
  get_consumer name s = elim (lookup name s.consumers) [
    | none ↦ err (consumer_not_found name)
    | some c ↦ ok (record c { pool = s.publisher.pool })
  ]

  unfoldable pub get_consumer_config : String → Service → Result (ConsumerConfig (Table k))
  unfolding lookup
  get_consumer_config name s = elim (lookup name s.consumers) [
    | none ↦ err (consumer_not_found name)
    | some c ↦ ok c.config
  ]
