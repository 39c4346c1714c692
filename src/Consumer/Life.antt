-- ===== src/Consumer/Life.antt =====
-- Several loops of one consumer, the callers of StartConsuming, StopConsuming and FlushStop, and the
-- lock that the first two and the end of a loop take, interleaved in any order.
use friendlyrabbit.Base.{◌≡◌, Bool, true, false, List, [], ◌∷◌, done, stuck, Replace}
use friendlyrabbit.Env.{Env}
use friendlyrabbit.Payload.Packages.{Packages}
use friendlyrabbit.Consumer.State.{Incoming, Consumer}
use friendlyrabbit.Consumer.Control.{start_consuming, stop_consuming, flush_stop}
use friendlyrabbit.Consumer.Promises.{messages_after}

-- A loop runs, has left ConsumeLoop and waits for the lock, or has ended.
pub data Phase : Type 0 where
  running leaving over : Phase

module _ (e : Env) (k : Packages) (i : Incoming e k) where
  -- `waiting`: a StopConsuming holds the lock and waits for room for its signal.
  pub record System : Type 0 where
    pub consumer : Consumer e k i
    pub loops : List Phase
    pub waiting : Bool

  pub data Step (s : System) : System → Type 0 where
    start :
        {c : Consumer e k i}
        → s.waiting ≡ false
        → start_consuming e k i s.consumer ≡ done tt c
        → Step s (record s { consumer = c; loops = running ∷ s.loops })
    stop :
        {c : Consumer e k i} (flush : Bool)
        → s.waiting ≡ false
        → stop_consuming e k i flush s.consumer ≡ done tt c
        → Step s (record s { consumer = c })
    stop_waits :
        (flush : Bool)
        → s.waiting ≡ false
        → stop_consuming e k i flush s.consumer ≡ stuck
        → Step s (record s { waiting = true })
    -- Its send goes on, and it flushes the messages, returns and gives the lock back.
    stop_goes :
        (flush : Bool)
        → s.waiting ≡ true
        → s.consumer.consume_stop ≡ []
        → Step s (record s {
          consumer = record (s.consumer) {
            consume_stop = true ∷ [];
            received_messages = messages_after e k i flush s.consumer.received_messages;
          };
          waiting = false;
        })
    -- A loop sees a stop signal.
    break_loop :
        {rest : List Bool} {ls : List Phase}
        → Replace running leaving s.loops ls
        → s.consumer.consume_stop ≡ true ∷ rest
        → Step s (record s { consumer = record (s.consumer) { consume_stop = rest }; loops = ls })
    -- It takes the lock and resets `started`.
    leave :
        {ls : List Phase}
        → Replace leaving over s.loops ls
        → s.waiting ≡ false
        → Step s (record s { consumer = record (s.consumer) { started = false }; loops = ls })
    -- FlushStop, which takes no lock.
    flush_direct :
        {c : Consumer e k i}
        → flush_stop e k i s.consumer ≡ done tt c
        → Step s (record s { consumer = c })
    -- The loops' work, and the readers of the Go channels: all but the stop and `started`.
    outside :
        (c : Consumer e k i)
        → c.consume_stop ≡ s.consumer.consume_stop
        → c.started ≡ s.consumer.started
        → Step s (record s { consumer = c })

  abbrev pub system_of : Consumer e k i → System
  system_of c = record { consumer = c; loops = []; waiting = false }

  pub data Reach (s : System) : System → Type 0 where
    begin : Reach s s
    later : {t u : System} → Reach s t → Step t u → Reach s u
