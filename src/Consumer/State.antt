-- ===== src/Consumer/State.antt =====
-- The Consumer, the package amqp as far as it delivers, and the state that its code runs on. A Go
-- channel is the list of what it holds.
use friendlyrabbit.Base.{
  ℕ, ◌*◌, ℤ, String, Bool, true, false, Option, none, some, List, [], Action, inside, pure, ◌>>=◌,
  ◌>>◌, if◌then◌else◌,
}
use friendlyrabbit.Error.{Error, Result, ok, err, Poll}
use friendlyrabbit.Config.{ConsumerConfig}
use friendlyrabbit.Env.{Env}
use friendlyrabbit.Payload.Packages.{Packages}
use friendlyrabbit.Message.Letter.{Table}
use friendlyrabbit.Message.Received.{Delivery, ReceivedMessage}
use friendlyrabbit.Pool.State.{ChannelHost, Pool, call, the}
use friendlyrabbit.Pool.Connection.{millisecond}
use friendlyrabbit.Pool.Channel.{close}
use friendlyrabbit.Pool.Lease.{get_transient_channel}

-- The arguments of `Channel.Consume`; `args` may be nil.
pub record Consumption (k : Packages) : Type 0 where
  pub queue_name : String
  pub consumer_name : String
  pub auto_ack : Bool
  pub exclusive : Bool
  pub no_local : Bool
  pub no_wait : Bool
  pub args : Option (Table k)

pub record Incoming (e : Env) (k : Packages) : Type 1 where
  pub Time : Type 0
  pub format : Time → String
  -- `amqp.Delivery{}`, which a closed channel yields
  pub zero_delivery : Delivery e.Net Time
  -- `<-chan amqp.Delivery`, which the client package sends on
  pub Deliveries : Type 0
  pub poll_deliveries : Deliveries → e.Net → Poll (Delivery e.Net Time) × e.Net
  -- count, size, global
  pub qos : e.Channel → ℤ → ℕ → Bool → e.Net → Option Error × e.Net
  pub consume : e.Channel → Consumption k → e.Net → Result Deliveries × e.Net
  -- queue, autoAck
  pub get : e.Channel → String → Bool → e.Net → (Delivery e.Net Time × Bool × Option Error) × e.Net
  -- package os, and the formatting of an id
  pub hostname : e.Net → Result String × e.Net

module _ (e : Env) (k : Packages) (i : Incoming e k) where
  abbrev pub Message : Type 0
  Message = ReceivedMessage e.Net i.Time

  pub record Consumer : Type 0 where
    pub pool : Pool e
    pub config : ConsumerConfig (Table k)
    pub queue_name : String
    pub consumer_name : String
    pub errors : List Error
    pub sleep_on_error : ℕ  -- nanoseconds
    pub received_messages : List Message
    pub consume_stop : List Bool
    pub started : Bool
    pub auto_ack : Bool
    pub exclusive : Bool
    pub no_wait : Bool
    pub args : Table k
    pub qos_count_override : ℤ

  unfoldable pub new_consumer : ConsumerConfig (Table k) → Pool e → Consumer
  new_consumer c pool = record {
    pool = pool;
    config = c;
    queue_name = c.queue_name;
    consumer_name = c.consumer_name;
    errors = [];
    sleep_on_error = c.sleep_on_error_interval * millisecond;
    received_messages = [];
    consume_stop = [];
    started = false;
    auto_ack = c.auto_ack;
    exclusive = c.exclusive;
    no_wait = c.no_wait;
    args = c.args;
    qos_count_override = c.qos_count_override;
  }

  abbrev pub put_pool : Pool e → Consumer → Consumer
  put_pool p s = record s { pool = p }

  -- An action on the pool, or on the outside world.
  unfoldable pub on_pool : {A : Type 0} → Action (Pool e) A → Action Consumer A
  unfolding inside
  on_pool m = inside (λ s. s.pool) put_pool m

  unfoldable pub get_on :
      String → ChannelHost e → Action (Pool e) (Delivery e.Net i.Time × Bool × Option Error)
  get_on queue ch = do c ← the ch.channel; call e (i.get c queue true)

  -- The delivery, if there is one, or the error.
  unfoldable pub got :
      Delivery e.Net i.Time × Bool × Option Error → Result (Option (Delivery e.Net i.Time))
  got (d, there, some x) = err x
  got (d, there, none) = ok (if there then some d else none)

  unfoldable pub get : ℕ → String → Action Consumer (Result (Option (Delivery e.Net i.Time)))
  unfolding get_on got
  get rounds queue = do
    ch ← on_pool (get_transient_channel e rounds false)
    r ← on_pool (get_on queue ch)
    on_pool (close e ch)
    pure (got r)
