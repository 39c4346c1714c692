-- ===== src/Publisher/State.antt =====
-- The Publisher, the package amqp as far as it publishes, and the state that its code runs on. A Go
-- channel is the list of what it holds; sends on one that a goroutine makes are taken to have
-- happened, in the order in which they were begun, whatever the capacity.
use friendlyrabbit.Base.{
  ℕ, ◌*◌, String, Bool, Option, List, [], Action, inside, false, ◌==◌, if◌then◌else◌,
}
use friendlyrabbit.Error.{Error, Result}
use friendlyrabbit.Config.{PublisherConfig}
use friendlyrabbit.Env.{Env}
use friendlyrabbit.Payload.Packages.{Packages}
use friendlyrabbit.Message.Letter.{Letter, Table, PublishReceipt}
use friendlyrabbit.Pool.State.{Pool}
use friendlyrabbit.Pool.Connection.{millisecond}

-- The `select` of waitPublishConfirmation: which of its three channels was ready.
pub data Wake : Type 0 where
  cancelled timed_out settled : Wake

-- `amqp.Publishing`, with the other arguments of a publish; the time is the outside world's.
pub record Publishing (k : Packages) : Type 0 where
  pub ctx : k.Context
  pub exchange : String
  pub routing_key : String
  pub mandatory : Bool
  pub immediate : Bool
  pub content_type : String
  pub body : List ℕ
  pub headers : Table k
  pub delivery_mode : ℕ
  pub priority : ℕ
  pub message_id : String
  pub correlation_id : String
  pub kind : String
  pub app_id : String

pub record Broker (e : Env) (k : Packages) : Type 1 where
  pub Confirmation : Type 0
  pub publish : e.Channel → Publishing k → e.Net → Option Error × e.Net
  -- On a channel that is not in confirm mode there is no confirmation, but nil.
  pub publish_deferred : e.Channel → Publishing k → e.Net → Result (Option Confirmation) × e.Net
  -- letter.Done(), time.After(timeout) in nanoseconds, and the confirmation's Done()
  pub wait : k.Context → ℕ → Confirmation → e.Net → Wake × e.Net
  pub acked : Confirmation → e.Net → Bool × e.Net

module _ (e : Env) (k : Packages) where
  pub record Publisher : Type 0 where
    pub pool : Pool e
    pub config : PublisherConfig
    pub letters : List (Letter k)
    pub letters_closed : Bool
    pub auto_stop : List Bool
    pub publish_receipts : List (PublishReceipt k)
    pub auto_started : Bool
    pub sleep_on_idle : ℕ  -- nanoseconds
    pub sleep_on_error : ℕ  -- nanoseconds
    pub publish_timeout : ℕ  -- nanoseconds

  abbrev pub put_pool : Pool e → Publisher → Publisher
  put_pool p s = record s { pool = p }

  -- An action on the pool, or on the outside world.
  unfoldable pub on_pool : {A : Type 0} → Action (Pool e) A → Action Publisher A
  unfolding inside
  on_pool m = inside (λ s. s.pool) put_pool m

  -- The pointer to the settings is shared, and a retry limit of 0 is replaced in them.
  unfoldable pub with_defaults : PublisherConfig → PublisherConfig
  with_defaults c = if c.max_retry_count == 0 then record c { max_retry_count = 5 } else c

  unfoldable pub new_publisher : PublisherConfig → Pool e → Publisher
  unfolding with_defaults
  new_publisher c pool = record {
    pool = pool;
    config = with_defaults c;
    letters = [];
    letters_closed = false;
    auto_stop = [];
    publish_receipts = [];
    auto_started = false;
    sleep_on_idle = c.sleep_on_idle_interval * millisecond;
    sleep_on_error = c.sleep_on_error_interval * millisecond;
    publish_timeout = c.publish_time_out_interval * millisecond;
  }

  -- The arguments that every publish makes of a letter.
  unfoldable pub publishing_of : String → Letter k → Publishing k
  publishing_of application_name l = record {
    ctx = l.opts.ctx;
    exchange = l.opts.exchange;
    routing_key = l.opts.routing_key;
    mandatory = l.opts.mandatory;
    immediate = l.opts.immediate;
    content_type = l.opts.content_type;
    body = l.body;
    headers = l.opts.headers;
    delivery_mode = l.opts.delivery_mode;
    priority = l.opts.priority;
    message_id = k.uuid_string l.letter_id;
    correlation_id = l.opts.correlation_id;
    kind = l.opts.message_type;
    app_id = application_name;
  }
