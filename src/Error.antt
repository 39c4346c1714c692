-- ===== src/Error.antt =====
-- Go's `error` values: one constructor for each error that the source makes, whose arguments are
-- what its text is formatted from, and those that come out of an imported package.
use friendlyrabbit.Base.{ℕ, String, Option, none, some}

-- `amqp.Error`, as far as the source reads it.
pub record AmqpError : Type 0 where
  pub code : ℕ
  pub reason : String

pub data Error : Type 0 where
  -- An error of an imported package.
  external : ℕ → Error
  -- A `*amqp.Error` used as an `error`: nil when the channel it was read from is closed.
  notice : Option AmqpError → Error
  -- connectionpool.go
  zero_interval zero_connections not_initialized invalid_struct_type : Error
  -- connectionhost.go and channelhost.go
  unable_to_connect connection_closed : Error
  -- internal/utils/crypto/crypto.go
  zero_length seal_failed cipher_too_short : Error
  -- message.go: the refusals of Acknowledge, Nack and Reject
  not_ackable no_acknowledger : Error
  -- publisher.go: the letter's id, after the timeout in milliseconds
  confirmation_cancel : String → Error
  confirmation_timeout : ℕ → String → Error
  -- consumer.go: the reason and the code of the notice
  channel_closed : String → ℕ → Error
  -- rabbitservice.go: the refusals, and the reports on a letter, with its id and its retry count
  service_shut queue_shut nil_body nil_input letter_not_queued : Error
  retrying : String → ℕ → Error
  publisher_shut retries_exhausted no_letter : String → Error
  consumer_not_found : String → Error
  -- topologer.go
  no_queues : Error

-- A Go result `(value, error)` of which one half is nil.
pub data Result (A : Type 0) : Type 0 where
  ok : A → Result A
  err : Error → Result A

-- A receive in a `select` with a `default` branch. A closed Go channel is always ready.
pub data Poll (A : Type 0) : Type 0 where
  received : A → Poll A
  closed : Poll A
  idle : Poll A

-- `if err != nil { return err }`
infixl 5 ◌>>=?◌
abbrev pub ◌>>=?◌ : {A B : Type 0} → Result A → (A → Result B) → Result B
ok a >>=? g = g a
err x >>=? g = err x

abbrev pub fail_if : Option Error → Result (Unit {0})
fail_if none = ok tt
fail_if (some x) = err x
