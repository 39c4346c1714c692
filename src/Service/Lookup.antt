-- ===== src/Service/Lookup.antt =====
-- The consumers that a new service has, by their names.
use text.Mathlib.TextEquality.{eq_iff}
use friendlyrabbit.Base.{
  str_eq, map, Option, ◌<>◌, ◌*◌, ◌≡◌, refl, ap, ◌∙◌, String, true, false, some, List, [], ◌∷◌, All,
  All-map, lookup, lookup-insert, pure, ◌>>=◌, ◌>>◌, inside, Returns, Returns-mono, if◌then◌else◌,
}
use friendlyrabbit.Error.{Result, ok, err}
use friendlyrabbit.Config.{ConsumerConfig}
use friendlyrabbit.Env.{Env}
use friendlyrabbit.Payload.Packages.{Packages}
use friendlyrabbit.Message.Letter.{Table}
use friendlyrabbit.Pool.State.{Pool, call}
use friendlyrabbit.Publisher.State as PublisherState
use friendlyrabbit.Consumer.State.{Incoming, Consumer, new_consumer}
use friendlyrabbit.Pool.Connection.{millisecond}
use friendlyrabbit.Service.State.{Service, on_publisher, on_pool, get_consumer, get_consumer_config}
use friendlyrabbit.Service.Setup.{named_after, add_consumer, create_consumers}

module _ (e : Env) (k : Packages) (i : Incoming e k) where
  abbrev pub Configs : Type 0
  Configs = List (String × ConsumerConfig (Table k))

  -- The map of the settings, none of whose pointers is nil.
  abbrev pub pointers : Configs → List (String × Option (ConsumerConfig (Table k)))
  pointers cs = map (λ p. (p.0, some p.1)) cs

  -- No entry has the name.
  abbrev pub IsFree : String → Configs → Type 0
  IsFree name cs = All (λ p. str_eq p.0 name ≡ false) cs

  -- The names of the map are different.
  abbrev pub IsDistinct : Configs → Type 0
  IsDistinct [] = Unit {0}
  IsDistinct ((name, c) ∷ rest) = IsFree name rest × IsDistinct rest

  abbrev pub Stored : Service e k i → String × ConsumerConfig (Table k) → Type 0
  Stored t p =
      (h : Result String) × (w : Pool e) × ((n : e.Net) × ((i.hostname n).0 ≡ h))
      × (lookup p.0 t.consumers ≡ some (named_after e k i h (new_consumer e k i p.1 w)))

  same_text : (x : String) → str_eq x x ≡ true
  same_text x = (eq_iff x x).1 refl

  -- The names that are not in the settings keep what they had.
  abbrev pub Created : Configs → Service e k i → Service e k i → Type 0
  Created cs s t =
      ((name : String) → IsFree name cs → lookup name t.consumers ≡ lookup name s.consumers)
      × (t.config ≡ s.config)
      × (t.encryption_configured ≡ s.encryption_configured)
      × All (Stored t) cs

  pub create_consumers_lem :
      (cs : Configs) (s : Service e k i)
      → IsDistinct cs
      → Returns (λ u t. Created cs s t) (create_consumers e k i (pointers cs) s)
  unfolding create_consumers pure add_consumer on_pool on_publisher PublisherState.on_pool inside
      call ◌>>=◌ ◌>>◌
  create_consumers_lem [] s distinct = (λ name free. refl, refl, refl, tt)
  create_consumers_lem ((name, c) ∷ rest) s (free, distinct) =
      let w = s.publisher.pool.net in
      let h = (i.hostname w).0 in
      let pool = record (s.publisher.pool) { net = (i.hostname w).1 } in
      let made = named_after e k i h (new_consumer e k i c pool) in
      Returns-mono _ (λ u t. Created ((name, c) ∷ rest) s t) _
        (λ u t (kept, same, same_flag, stored). (
          λ other (differs, free').
              kept other free'
              ∙ lookup-insert name other made s.consumers
              ∙ ap (λ b. if b then some made else lookup other s.consumers) differs,
          same,
          same_flag,
          (
            (
              h,
              pool,
              (w, refl),
              kept name free
                  ∙ lookup-insert name name made s.consumers
                  ∙ ap (λ b. if b then some made else lookup name s.consumers) (same_text name),
            ),
            stored,
          ),
        ))
        (create_consumers_lem rest _ distinct)

  -- The name of the consumer, after the answer to the question for that of the host.
  abbrev pub full_name : Result String → String → String
  full_name (ok host) name = host <> "-" <> name
  full_name (err x) name = name

  -- A new consumer with these settings.
  abbrev pub consumer_for : Result String → ConsumerConfig (Table k) → Pool e → Consumer e k i
  consumer_for h c p = record {
    pool = p;
    config = c;
    queue_name = c.queue_name;
    consumer_name = full_name h c.consumer_name;
    errors = [];
    sleep_on_error = c.sleep_on_error_interval * millisecond;
    received_messages = [];
    consume_stop = [];
    started = false;
    auto_ack = c.auto_ack;
    exclusive = c.exclusive;
    no_wait = c.no_wait;
    args = c.args;
    qos_count_override = c.qos_count_override;
  }

  placed :
      (h : Result String) (c : ConsumerConfig (Table k)) (w p : Pool e)
      → record (named_after e k i h (new_consumer e k i c w)) { pool = p } ≡ consumer_for h c p
  unfolding named_after new_consumer
  placed (ok name) c w p = refl
  placed (err x) c w p = refl

  its_config :
      (h : Result String) (c : ConsumerConfig (Table k)) (w : Pool e)
      → (named_after e k i h (new_consumer e k i c w)).config ≡ c
  unfolding named_after new_consumer
  its_config (ok name) c w = refl
  its_config (err x) c w = refl

  -- What GetConsumerConfig and GetConsumer give for an entry of the settings.
  abbrev pub IsFound : Service e k i → String × ConsumerConfig (Table k) → Type 0
  IsFound t p =
      (get_consumer_config e k i p.0 t ≡ ok p.1)
      × ((h : Result String) × ((n : e.Net) × ((i.hostname n).0 ≡ h))
          × (get_consumer e k i p.0 t ≡ ok (consumer_for h p.1 t.publisher.pool)))

  pub Stored-IsFound :
      (t : Service e k i) (p : String × ConsumerConfig (Table k)) → Stored t p → IsFound t p
  unfolding get_consumer get_consumer_config
  Stored-IsFound t (name, c) (h, w, named, same) = (
    rw (get_consumer_config, same) (ap ok (its_config h c w)),
    (h, named, rw (get_consumer, same) (ap ok (placed h c w t.publisher.pool))),
  )

  -- createConsumers with settings whose names are different returns. For each of the entries
  -- GetConsumerConfig gives its settings then, and GetConsumer a new consumer with these settings on
  -- the pool of the service, its name after that of the host where the host's name is known.
  pub create_consumers-IsFound :
      (cs : Configs) (s : Service e k i)
      → IsDistinct cs
      → Returns (λ u t. All (IsFound t) cs) (create_consumers e k i (pointers cs) s)
  create_consumers-IsFound cs s distinct =
      Returns-mono _ (λ u t. All (IsFound t) cs) _
        (λ u t h. All-map (Stored t) (IsFound t) cs (Stored-IsFound t) h.3)
        (create_consumers_lem cs s distinct)
