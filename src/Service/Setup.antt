-- ===== src/Service/Setup.antt =====
-- Making a service. The goroutines that it starts are the loops of Service/Monitor and the loop of
-- the auto-publisher.
use friendlyrabbit.Base.{
  insert, ℕ, ◌*◌, String, ◌<>◌, true, false, ◌&&◌, Option, none, some, List, [], ◌∷◌, Action, Run,
  done, panic, stuck, pure, length, ltb, ◌>>=◌, ◌>>◌, if◌then◌else◌,
}
use friendlyrabbit.Error.{Error, Result, ok, err}
use friendlyrabbit.Config.{EncryptionConfig, ConsumerConfig, PublisherConfig}
use friendlyrabbit.Env.{Env}
use friendlyrabbit.Payload.Packages.{Packages}
use friendlyrabbit.Payload.Crypto.{get_hash_with_argon}
use friendlyrabbit.Message.Letter.{Table}
use friendlyrabbit.Pool.State.{Pool, call}
use friendlyrabbit.Pool.Connection.{millisecond}
use friendlyrabbit.Pool.Start.{Opened, ran, crashed, refused, new_connection_pool}
use friendlyrabbit.Publisher.State.{Publisher, new_publisher}
use friendlyrabbit.Publisher.Queue.{start_auto_publishing}
use friendlyrabbit.Consumer.State.{Incoming, Consumer, new_consumer}
use friendlyrabbit.Service.State.{RabbitSeasoning, Service, on_pool, put_publisher}

module _ (e : Env) (k : Packages) (i : Incoming e k) where
  -- The name of the host goes in front of the consumer's, if it is known.
  unfoldable pub named_after : Result String → Consumer e k i → Consumer e k i
  named_after (ok host) c = record c { consumer_name = host <> "-" <> c.consumer_name }
  named_after (err x) c = c

  unfoldable pub add_consumer :
      String → ConsumerConfig (Table k) → Result String → Action (Service e k i) (Unit {0})
  unfolding named_after insert
  add_consumer name c host s = done tt (record s {
    consumers = insert name (named_after host (new_consumer e k i c s.publisher.pool)) s.consumers;
  })

  -- NewConsumer panics on a nil pointer.
  unfoldable pub create_consumers :
      List (String × Option (ConsumerConfig (Table k))) → Action (Service e k i) (Unit {0})
  unfolding add_consumer
  create_consumers [] = pure tt
  create_consumers ((name, none) ∷ rest) = λ s. panic s
  create_consumers ((name, some c) ∷ rest) = do
    host ← on_pool e k i (call e i.hostname)
    add_consumer name c host
    create_consumers rest

  abbrev pub or_empty : Option (List ℕ) → List ℕ
  or_empty none = []
  or_empty (some key) = key

  unfoldable pub with_hashkey : List ℕ → List ℕ → EncryptionConfig → EncryptionConfig
  with_hashkey passphrase salt c = record c {
    hashkey = or_empty (
        get_hash_with_argon k passphrase salt c.time_consideration c.memory_multiplier c.threads
          32);
  }

  unfoldable pub configure_encryption :
      List ℕ → List ℕ → Option EncryptionConfig → Action (Service e k i) (Unit {0})
  unfolding with_hashkey
  configure_encryption passphrase salt none s = panic s
  configure_encryption passphrase salt (some c) s =
      if c.enabled && (ltb 0 (length passphrase) && ltb 0 (length salt))
      then done tt (record s {
        config = record (s.config) { encryption_config = some (with_hashkey passphrase salt c) };
        encryption_configured = true;
      })
      else done tt s

  unfoldable pub start_publisher : Action (Service e k i) (Unit {0})
  start_publisher s = done tt (put_publisher e k i (start_auto_publishing e k s.publisher).1 s)

  abbrev pub blank_service : Publisher e k → RabbitSeasoning k → Service e k i
  blank_service publisher config = record {
    config = config;
    publisher = publisher;
    encryption_configured = false;
    central_err = [];
    consumers = [];
    shutdown_signal = [];
    shutdown = false;
    monitor_sleep_interval = 200 * millisecond;
  }

  -- The service, or the panic on settings without those of the encryption.
  unfoldable pub new_rabbit_service_with_publisher :
      Publisher e k → RabbitSeasoning k → List ℕ → List ℕ → Run (Service e k i) (Unit {0})
  unfolding create_consumers configure_encryption start_publisher
  new_rabbit_service_with_publisher publisher config passphrase salt =
      (do
        create_consumers config.consumer_configs
        configure_encryption passphrase salt config.encryption_config
        start_publisher)
        (blank_service publisher config)

  -- NewPublisher may change the settings of the publisher, which the service has the pointer to.
  unfoldable pub with_new_publisher :
      Pool e
      → RabbitSeasoning k
      → List ℕ
      → List ℕ
      → PublisherConfig
      → Run (Service e k i) (Unit {0})
  unfolding new_rabbit_service_with_publisher
  with_new_publisher pool config passphrase salt c =
      let publisher = new_publisher e k c pool in
      new_rabbit_service_with_publisher publisher
        (record config { publisher_config = some publisher.config }) passphrase salt

  -- Nothing where it panics before there is a service, also in what follows.
  unfoldable pub new_rabbit_service_with_connection_pool :
      Pool e → RabbitSeasoning k → List ℕ → List ℕ → Option (Run (Service e k i) (Unit {0}))
  unfolding with_new_publisher
  new_rabbit_service_with_connection_pool pool config passphrase salt =
      elim config.publisher_config [
        | none ↦ none
        | some c ↦ some (with_new_publisher pool config passphrase salt c)
      ]

  -- What NewRabbitService comes to: an error, or a run on a new service.
  pub data Built : Type 0 where
    unbuilt : Error → Built
    built : Run (Service e k i) (Unit {0}) → Built

  unfoldable pub on_new_pool : RabbitSeasoning k → List ℕ → List ℕ → Opened e → Option Built
  unfolding new_rabbit_service_with_connection_pool
  on_new_pool config passphrase salt (refused x) = some (unbuilt x)
  on_new_pool config passphrase salt crashed = none
  on_new_pool config passphrase salt (ran (done (err x) pool)) = some (unbuilt x)
  on_new_pool config passphrase salt (ran (done (ok u) pool)) =
      elim (new_rabbit_service_with_connection_pool pool config passphrase salt) [
        | none ↦ none
        | some r ↦ some (built r)
      ]
  on_new_pool config passphrase salt (ran (panic pool)) = none
  on_new_pool config passphrase salt (ran stuck) = some (built stuck)

  unfoldable pub new_rabbit_service : ℕ → RabbitSeasoning k → List ℕ → List ℕ → e.Net → Option Built
  unfolding on_new_pool
  new_rabbit_service rounds config passphrase salt net = elim config.pool_config [
    | none ↦ none
    | some c ↦ on_new_pool config passphrase salt (new_connection_pool e rounds c none none net)
  ]
