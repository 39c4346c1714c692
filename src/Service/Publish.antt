-- ===== src/Service/Publish.antt =====
-- The publishing calls of the service. The id of a letter that is made is what `uuid.New()` returns.
use friendlyrabbit.Base.{
  ℕ, ◌*◌, String, Bool, true, ◌&&◌, Option, none, some, List, [], ◌∷◌, Action, pure, choose, str_eq,
  ◌>>=◌, if◌then◌else◌,
}
use friendlyrabbit.Error.{
  Error, service_shut, queue_shut, nil_body, nil_input, letter_not_queued, Result, ok, err,
}
use friendlyrabbit.Env.{Env}
use friendlyrabbit.Payload.Packages.{Packages}
use friendlyrabbit.Payload.Convert.{Input, bytes}
use friendlyrabbit.Message.Letter.{Letter, LetterOptsFun, Table, new_letter}
use friendlyrabbit.Pool.Connection.{millisecond}
use friendlyrabbit.Publisher.State.{Broker, Publisher}
use friendlyrabbit.Publisher.Publish as PublisherCalls
use friendlyrabbit.Publisher.Queue as PublisherQueue
use friendlyrabbit.Consumer.State.{Incoming}
use friendlyrabbit.Service.State.{RabbitSeasoning, Service, on_publisher}

-- `exchangeName == "" && routingKey == ""`
abbrev pub is_nowhere : String → String → Bool
is_nowhere exchange routing_key = str_eq exchange "" && str_eq routing_key ""

module _ (e : Env) (k : Packages) (b : Broker e k) (i : Incoming e k) where
  -- The settings of the letters that the service makes.
  unfoldable pub service_opts : k.Context → RabbitSeasoning k → LetterOptsFun k
  service_opts ctx c o = record o {
    ctx = ctx;
    e_conf = c.encryption_config;
    c_conf = c.compression_config;
  }

  unfoldable pub data_opts : Table k → k.Context → RabbitSeasoning k → LetterOptsFun k
  unfolding service_opts
  data_opts headers ctx c o = service_opts ctx c (record o { headers = headers })

  unfoldable pub after_letter :
      (Letter k → Action (Publisher e k) (Option Error))
      → Result (Letter k)
      → Action (Service e k i) (Option Error)
  after_letter send (err x) = pure (some x)
  after_letter send (ok l) = on_publisher e k i (send l)

  -- A letter is made of the input, unless there is none or it would go nowhere.
  unfoldable pub send_input :
      Error
      → (Letter k → Action (Publisher e k) (Option Error))
      → k.Uuid
      → LetterOptsFun k
      → Option (Input k)
      → String
      → String
      → Action (Service e k i) (Option Error)
  unfolding after_letter
  send_input refusal send id opts none exchange routing_key = pure (some refusal)
  send_input refusal send id opts (some input) exchange routing_key =
      choose (is_nowhere exchange routing_key) (pure (some refusal))
        (after_letter send (new_letter k id exchange routing_key input (opts ∷ [])))

  -- The metadata and the headers are not used.
  unfoldable pub publish_with_confirmation :
      ℕ
      → ℕ
      → k.Uuid
      → k.Context
      → Option (Input k)
      → String
      → String
      → String
      → Table k
      → Action (Service e k i) (Option Error)
  unfolding send_input service_opts
  publish_with_confirmation rounds tries id ctx input exchange routing_key metadata headers s =
      choose s.shutdown (pure (some service_shut))
        (send_input nil_body
          (λ l.
            PublisherCalls.publish_with_confirmation_transient e k b rounds tries l
              (300 * millisecond))
          id (service_opts ctx s.config) input exchange routing_key)
        s

  unfoldable pub publish :
      ℕ
      → k.Uuid
      → k.Context
      → Option (Input k)
      → String
      → String
      → String
      → Table k
      → Action (Service e k i) (Option Error)
  unfolding send_input service_opts
  publish rounds id ctx input exchange routing_key metadata headers s =
      choose s.shutdown (pure (some service_shut))
        (send_input nil_input (λ l. PublisherCalls.publish e k b rounds l true) id
          (service_opts ctx s.config) input exchange routing_key)
        s

  -- A slice of bytes, which may be nil, as the input of a letter.
  abbrev pub input_of : Option (List ℕ) → Option (Input k)
  input_of none = none
  input_of (some text) = some (bytes text)

  unfoldable pub publish_data :
      ℕ
      → k.Uuid
      → k.Context
      → Option (List ℕ)
      → String
      → String
      → Table k
      → Action (Service e k i) (Option Error)
  unfolding send_input data_opts
  publish_data rounds id ctx text exchange routing_key headers s =
      choose s.shutdown (pure (some service_shut))
        (send_input nil_input (λ l. PublisherCalls.publish e k b rounds l true) id
          (data_opts headers ctx s.config) (input_of text) exchange routing_key)
        s

  -- `letter.LetterID = uuid.New()` where its text is empty
  unfoldable pub identified : k.Uuid → Letter k → Letter k
  identified id l = if str_eq (k.uuid_string l.letter_id) "" then record l { letter_id = id } else l

  unfoldable pub publish_letter : ℕ → k.Uuid → Letter k → Action (Service e k i) (Option Error)
  unfolding identified
  publish_letter rounds id l s =
      choose s.shutdown (pure (some service_shut))
        (on_publisher e k i (PublisherCalls.publish e k b rounds (identified id l) true)) s

  unfoldable pub queue_letter : k.Uuid → Letter k → Action (Service e k i) (Option Error)
  unfolding identified
  queue_letter id l s =
      choose s.shutdown (pure (some queue_shut))
        (do
          sent ← on_publisher e k i (PublisherQueue.queue_letter e k (identified id l))
          choose sent (pure none) (pure (some letter_not_queued)))
        s
