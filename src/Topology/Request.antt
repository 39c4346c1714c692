-- ===== src/Topology/Request.antt =====
-- The structs of topologer.go, and the calls on an AMQP channel that its methods make.
use friendlyrabbit.Base.{
  ℕ, String, Bool, true, false, Option, none, some, List, [], ◌∷◌, str_eq, if◌then◌else◌,
}
use friendlyrabbit.Error.{Error}
use friendlyrabbit.Env.{Env}
use friendlyrabbit.Payload.Packages.{Packages}
use friendlyrabbit.Message.Letter.{Table}

abbrev pub queue_type_quorum : String
queue_type_quorum = "quorum"

module _ (k : Packages) where
  -- An `amqp.Table`, which may be nil.
  abbrev pub Args : Type 0
  Args = Option (Table k)

  pub record Exchange : Type 0 where
    pub name : String
    pub kind : String  -- the field Type
    pub passive_declare : Bool
    pub durable : Bool
    pub auto_delete : Bool
    pub internal_only : Bool
    pub no_wait : Bool
    pub args : Args

  pub record Queue : Type 0 where
    pub name : String
    pub passive_declare : Bool
    pub durable : Bool
    pub auto_delete : Bool
    pub exclusive : Bool
    pub no_wait : Bool
    pub kind : String  -- the field Type
    pub args : Args

  pub record QueueBinding : Type 0 where
    pub queue_name : String
    pub exchange_name : String
    pub routing_key : String
    pub no_wait : Bool
    pub args : Args

  pub record ExchangeBinding : Type 0 where
    pub exchange_name : String
    pub parent_exchange_name : String
    pub routing_key : String
    pub no_wait : Bool
    pub args : Args

  pub record TopologyConfig : Type 0 where
    pub exchanges : List Exchange
    pub queues : List Queue
    pub queue_bindings : List QueueBinding
    pub exchange_bindings : List ExchangeBinding

  -- The calls, with the arguments in the order of the client package.
  pub data Request : Type 0 where
    -- name, kind, durable, auto-delete, internal, no-wait, args
    exchange_declare exchange_declare_passive :
        String → String → Bool → Bool → Bool → Bool → Args → Request
    -- destination, key, source, no-wait, args
    exchange_bind exchange_unbind : String → String → String → Bool → Args → Request
    -- name, if-unused, no-wait
    exchange_delete : String → Bool → Bool → Request
    -- name, durable, auto-delete, exclusive, no-wait, args
    queue_declare queue_declare_passive : String → Bool → Bool → Bool → Bool → Args → Request
    -- queue, key, exchange, no-wait, args
    queue_bind : String → String → String → Bool → Args → Request
    -- queue, key, exchange, args
    queue_unbind : String → String → String → Args → Request

  -- The calls that also return how many messages they removed.
  pub data Removal : Type 0 where
    -- name, if-unused, if-empty, no-wait
    queue_delete : String → Bool → Bool → Bool → Removal
    -- name, no-wait
    queue_purge : String → Bool → Removal

pub record Declarer (e : Env) (k : Packages) : Type 0 where
  pub declare : e.Channel → Request k → e.Net → Option Error × e.Net
  pub remove : e.Channel → Removal k → e.Net → (ℕ × Option Error) × e.Net

module _ (k : Packages) where
  unfoldable pub exchange_request : Exchange k → Request k
  exchange_request x =
      if x.passive_declare
      then exchange_declare_passive x.name x.kind x.durable x.auto_delete x.internal_only x.no_wait
          x.args
      else exchange_declare x.name x.kind x.durable x.auto_delete x.internal_only x.no_wait x.args

  abbrev pub or_queue_type : Args k → String → Args k
  or_queue_type none kind = some (("x-queue-type", k.text_value kind) ∷ [])
  or_queue_type (some t) kind = some t

  -- The settings of a quorum queue, which are changed in the caller's struct.
  unfoldable pub quorum_defaults : Queue k → Queue k
  quorum_defaults q =
      if str_eq q.kind queue_type_quorum
      then record q {
        exclusive = false;
        durable = true;
        no_wait = false;
        auto_delete = false;
        args = or_queue_type q.args q.kind;
      }
      else q

  unfoldable pub queue_request : Queue k → Request k
  queue_request q =
      if q.passive_declare
      then queue_declare_passive q.name q.durable q.auto_delete q.exclusive q.no_wait q.args
      else queue_declare q.name q.durable q.auto_delete q.exclusive q.no_wait q.args
