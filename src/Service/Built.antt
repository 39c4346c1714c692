-- ===== src/Service/Built.antt =====
-- What the constructors make of the settings.
use friendlyrabbit.Base.{
  ℕ, ◌∙◌, String, ◌≡◌, refl, ap, Bool, true, false, Option, some, List, All, All-map, done, Returns,
  Returns-bind, ◌>>◌, if◌then◌else◌,
}
use friendlyrabbit.Config.{EncryptionConfig, ConsumerConfig}
use friendlyrabbit.Message.Letter.{Table}
use friendlyrabbit.Env.{Env}
use friendlyrabbit.Payload.Packages.{Packages}
use friendlyrabbit.Publisher.State.{Publisher}
use friendlyrabbit.Publisher.Queue.{start_auto_publishing}
use friendlyrabbit.Consumer.State.{Incoming}
use friendlyrabbit.Service.State.{RabbitSeasoning, Service}
use friendlyrabbit.Service.Setup.{
  create_consumers, with_hashkey, configure_encryption, start_publisher, blank_service,
  new_rabbit_service_with_publisher,
}
use friendlyrabbit.Service.Keyed.{has_key, keyed_config, with_hashkey_lem}
use friendlyrabbit.Service.Lookup.{
  Configs, pointers, IsDistinct, Stored, Created, IsFound, Stored-IsFound, create_consumers_lem,
}

module _ (e : Env) (k : Packages) (i : Incoming e k) where
  -- The settings, with the key that is made of the passphrase.
  abbrev pub keyed :
      Bool → RabbitSeasoning k → EncryptionConfig → List ℕ → List ℕ → RabbitSeasoning k
  keyed true s c passphrase salt = record s {
    encryption_config = some (keyed_config e k i c passphrase salt);
  }
  keyed false s c passphrase salt = s

  -- A service with these settings, all of whose consumers are stored.
  abbrev Configured : Bool → Configs e k i → RabbitSeasoning k → Service e k i → Type 0
  Configured on cs config' t =
      (t.encryption_configured ≡ on) × (t.config ≡ config') × All (Stored e k i t) cs

  configure_lem :
      (cs : Configs e k i) (config : RabbitSeasoning k) (c : EncryptionConfig)
      (passphrase salt : List ℕ) (s : Service e k i)
      → s.encryption_configured ≡ false
      → s.config ≡ config
      → All (Stored e k i s) cs
      → Returns
          (λ u t.
            Configured
              (has_key e k i c passphrase salt)
              cs
              (keyed (has_key e k i c passphrase salt) config c passphrase salt)
              t)
          (configure_encryption e k i passphrase salt (some c) s)
  unfolding configure_encryption
  configure_lem cs config c passphrase salt s off same stored =
      by (has_key e k i c passphrase salt) refl
    where
      by :
          (b : Bool)
          → has_key e k i c passphrase salt ≡ b
          → Returns
              (λ u t. Configured b cs (keyed b config c passphrase salt) t)
              (if b
                then done tt (record s {
                  config = record (s.config) {
                    encryption_config = some (with_hashkey e k i passphrase salt c);
                  };
                  encryption_configured = true;
                })
                else done tt s)
      by true on = (
        refl,
        ap
              (λ (r : RabbitSeasoning k). record r {
                encryption_config = some (with_hashkey e k i passphrase salt c);
              })
              same
            ∙ ap (λ d. record config { encryption_config = some d })
                (with_hashkey_lem e k i c passphrase salt on),
        stored,
      )
      by false on = (off, same, stored)

  started_lem :
      (p : Publisher e k) (b : Bool)
      → p.auto_started ≡ b
      → (if◌then◌else◌ {A = Bool × Publisher e k} b
          (false, p)
          (true, record p { auto_started = true })).1.auto_started
        ≡ true
  started_lem p true on = on
  started_lem p false off = refl

  -- What a service is that has been made of the settings.
  abbrev pub IsBuilt : Bool → Configs e k i → RabbitSeasoning k → Service e k i → Type 0
  IsBuilt on cs config' t =
      (t.encryption_configured ≡ on)
      × (t.config ≡ config')
      × (t.publisher.auto_started ≡ true)
      × All (IsFound e k i t) cs

  start_publisher_lem :
      (on : Bool) (cs : Configs e k i) (config' : RabbitSeasoning k) (s : Service e k i)
      → Configured on cs config' s
      → Returns (λ u t. IsBuilt on cs config' t) (start_publisher e k i s)
  unfolding start_publisher start_auto_publishing
  start_publisher_lem on cs config' s (flag, same, stored) = (
    flag,
    same,
    started_lem s.publisher s.publisher.auto_started refl,
    All-map (Stored e k i s) (IsFound e k i _) cs (λ p h. Stored-IsFound e k i _ p h) stored,
  )

  last_steps :
      (cs : Configs e k i) (config : RabbitSeasoning k) (c : EncryptionConfig)
      (passphrase salt : List ℕ) (o : Option EncryptionConfig) (s : Service e k i)
      → o ≡ some c
      → s.config ≡ config
      → s.encryption_configured ≡ false
      → All (Stored e k i s) cs
      → Returns
          (λ u t.
            IsBuilt
              (has_key e k i c passphrase salt)
              cs
              (keyed (has_key e k i c passphrase salt) config c passphrase salt)
              t)
          ((configure_encryption e k i passphrase salt o >> start_publisher e k i) s)
  unfolding ◌>>◌
  last_steps cs config c passphrase salt o s there same off stored =
      let on = has_key e k i c passphrase salt in
      let after = keyed on config c passphrase salt in
      rw there (
        Returns-bind (λ u t. Configured on cs after t) (λ u t. IsBuilt on cs after t)
          (configure_encryption e k i passphrase salt (some c)) _ s
          (configure_lem cs config c passphrase salt s off same stored)
          (λ u t h. start_publisher_lem on cs after t h))

  created_lem :
      (cs : Configs e k i) (ps : List (String × Option (ConsumerConfig (Table k))))
      (s : Service e k i)
      → ps ≡ pointers e k i cs
      → IsDistinct e k i cs
      → Returns (λ u t. Created e k i cs s t) (create_consumers e k i ps s)
  created_lem cs ps s given distinct = rw given (create_consumers_lem e k i cs s distinct)

  -- NewRabbitServiceWithPublisher, of settings that have those of the encryption, and whose entries
  -- for consumers have different names and no nil pointer, returns, also with no such entry. The
  -- auto-publisher is started then; under each name GetConsumerConfig finds the settings and
  -- GetConsumer a new consumer with these settings, on the pool of the publisher, its name after that
  -- of the host and a dash, if the system has answered with that; and the settings are as given, but
  -- that exactly if encryption is on and there are a passphrase and a salt they have the key that
  -- argon2 makes of these, and the service is marked as configured for encryption.
  pub new_rabbit_service_with_publisher-Returns :
      (publisher : Publisher e k) (config : RabbitSeasoning k) (c : EncryptionConfig)
      (cs : Configs e k i) (passphrase salt : List ℕ)
      → config.encryption_config ≡ some c
      → config.consumer_configs ≡ pointers e k i cs
      → IsDistinct e k i cs
      → Returns
          (λ u t.
            IsBuilt
              (has_key e k i c passphrase salt)
              cs
              (keyed (has_key e k i c passphrase salt) config c passphrase salt)
              t)
          (new_rabbit_service_with_publisher e k i publisher config passphrase salt)
  unfolding new_rabbit_service_with_publisher ◌>>◌
  new_rabbit_service_with_publisher-Returns publisher config c cs passphrase salt there given
        distinct =
      let Q : Unit {0} → Service e k i → Type 0 = λ u t.
        IsBuilt (has_key e k i c passphrase salt) cs
          (keyed (has_key e k i c passphrase salt) config c passphrase salt) t in
      Returns-bind (λ u t. Created e k i cs (blank_service e k i publisher config) t) Q
        (create_consumers e k i config.consumer_configs) _ (blank_service e k i publisher config)
        (created_lem cs config.consumer_configs (blank_service e k i publisher config) given
          distinct)
        λ u s (kept, same, off, stored).
          last_steps cs config c passphrase salt config.encryption_config s there same off stored
