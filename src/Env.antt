-- ===== src/Env.antt =====
-- What the library calls and does not implement: the AMQP client package, the queue package, the
-- clock, and the functions that its user hands in. Every call takes the state of the outside world
-- and returns a new one, in which anything outside may have changed meanwhile.
pub mod Fifo
use friendlyrabbit.Base.{ℕ, String, Bool, Option, List}
use friendlyrabbit.Error.{Error, AmqpError, Result, Poll}

-- What `connections` holds: `*ConnectionHost` pointers, or a value of another type.
pub data Item : Type 0 where
  host : ℕ → Item
  other : Item

-- The end of `queue.Get(n)`: items and the queue without them, an error, or no return while the
-- queue is empty.
pub data Got (Q : Type 0) : Type 0 where
  items : List Item → Q → Got Q
  failed : Error → Got Q
  blocks : Got Q

-- The `amqp.Config` of a dial; the TLS configuration is absent on a plain connection.
pub record DialConfig (Tls : Type 0) : Type 0 where
  pub heartbeat : ℕ
  pub timeout : ℕ
  pub connection_name : String
  pub tls : Option Tls

pub record Env : Type 1 where
  pub Net : Type 0
  -- package amqp
  pub Connection : Type 0
  pub Channel : Type 0
  -- `chan *amqp.Error` and `chan amqp.Blocking`, which the client package sends on
  pub Notices : Type 0
  pub Blockers : Type 0
  pub make_notices : ℕ → Net → Notices × Net
  pub make_blockers : ℕ → Net → Blockers × Net
  pub poll_notices : Notices → Net → Poll AmqpError × Net
  pub poll_blockers : Blockers → Net → Poll Bool × Net
  pub is_closed : Connection → Net → Bool × Net
  pub close_connection : Connection → Net → Unit {0} × Net
  pub notify_close : Connection → Notices → Net → Unit {0} × Net
  pub notify_blocked : Connection → Blockers → Net → Unit {0} × Net
  pub open_channel : Connection → Net → Result Channel × Net
  pub confirm : Channel → Bool → Net → Option Error × Net
  pub notify_channel_close : Channel → Notices → Net → Unit {0} × Net
  pub close_channel : Channel → Net → Unit {0} × Net
  -- crypto/tls, crypto/x509, os
  pub Tls : Type 0
  pub Certificate : Type 0
  pub new_tls : Tls
  pub read_file : String → Net → Result (List ℕ) × Net
  pub append_certs : List ℕ → Tls → Tls
  pub load_key_pair : String → String → Net → Result Certificate × Net
  pub add_certificate : Certificate → Tls → Tls
  pub dial : String → DialConfig Tls → Net → Result Connection × Net
  -- time
  pub sleep : ℕ → Net → Unit {0} × Net
  -- strconv
  pub format_uint : ℕ → String
  -- package queue; `new_queue` panics where it returns nothing
  pub Queue : Type 0
  pub new_queue : ℕ → Option Queue
  pub put : Item → Queue → Option Error × Queue
  pub get : ℕ → Queue → Got Queue
  pub len : Queue → ℕ
  pub is_empty : Queue → Bool
