-- ===== src/Consumer/Control.antt =====
-- Starting and stopping the consumer, which hold its lock for as long as they run, and emptying its
-- Go channels, which takes no lock of its own.
use friendlyrabbit.Base.{
  ℕ, Bool, true, List, [], ◌∷◌, ◌++◌, Action, done, stuck, pure, choose, length, leb, ◌>>◌,
  if◌then◌else◌,
}
use friendlyrabbit.Env.{Env}
use friendlyrabbit.Payload.Packages.{Packages}
use friendlyrabbit.Consumer.State.{Incoming, Consumer}

-- Receives until the channel is empty.
abbrev pub drained : {A : Type 0} → List A → List A
drained [] = []
drained (x ∷ xs) = drained xs

-- make(chan bool, 1)
abbrev pub stop_capacity : ℕ
stop_capacity = 1

module _ (e : Env) (k : Packages) (i : Incoming e k) where
  unfoldable pub flush_stop : Action (Consumer e k i) (Unit {0})
  flush_stop s = done tt (record s { consume_stop = drained s.consume_stop })

  unfoldable pub flush_errors : Action (Consumer e k i) (Unit {0})
  flush_errors s = done tt (record s { errors = drained s.errors })

  unfoldable pub flush_messages : Action (Consumer e k i) (Unit {0})
  flush_messages s = done tt (record s { received_messages = drained s.received_messages })

  unfoldable pub set_started : Bool → Action (Consumer e k i) (Unit {0})
  set_started b s = done tt (record s { started = b })

  -- The goroutine of the loop is started by the caller.
  unfoldable pub start_consuming : Action (Consumer e k i) (Unit {0})
  unfolding flush_errors flush_stop set_started
  start_consuming = do flush_errors; flush_stop; set_started true

  -- `con.consumeStop <- true`
  unfoldable pub send_stop : Action (Consumer e k i) (Unit {0})
  send_stop s =
      if leb stop_capacity (length s.consume_stop)
      then stuck
      else done tt (record s { consume_stop = s.consume_stop ++ (true ∷ []) })

  unfoldable pub stop_consuming : Bool → Action (Consumer e k i) (Unit {0})
  unfolding send_stop flush_messages
  stop_consuming flush s =
      choose s.started (do send_stop; choose flush flush_messages (pure tt)) (pure tt) s
