-- ===== src/Sample/Consuming.antt =====
-- A consumer on the sample world, whose broker has two messages for it.
use friendlyrabbit.Base.{
  ℕ, zero, suc, ◌+◌, ◌≡◌, ◌⊎◌, refl, true, false, none, some, List, [], ◌∷◌, done, Ensures, Returns,
  arith, pos, ◌>>◌,
}
use friendlyrabbit.Error.{ok, Poll, received, idle}
use friendlyrabbit.Config.{ConsumerConfig}
use friendlyrabbit.Env.{host}
use friendlyrabbit.Message.Letter.{Table}
use friendlyrabbit.Message.Received.{Delivery}
use friendlyrabbit.Pool.Promises.{Leaves}
use friendlyrabbit.Consumer.State.{Incoming, Consumer, new_consumer, get}
use friendlyrabbit.Consumer.Control.{start_consuming, stop_consuming}
use friendlyrabbit.Consumer.Loop.{start_consume_loop}
use friendlyrabbit.Consumer.Life.{
  running, leaving, over, System, Reach, begin, later, outside, system_of,
}
use friendlyrabbit.Consumer.Races.{
  IsDeadlocked, Flushes, Reach-IsDeadlocked, stop-IsDeadlocked, start-orphans,
}
use friendlyrabbit.Consumer.Kept.{Full}
use friendlyrabbit.Consumer.Promises.{start_consume_loop-keeps, start_consuming-stop_consuming}
use friendlyrabbit.Consumer.Serving.{IsServing, alone}
use friendlyrabbit.Consumer.Single.{get-Returns}
use friendlyrabbit.Consumer.Delivered.{run, message, process_deliveries-in_order}
use friendlyrabbit.Sample.{env, packages, pool, open_channel}
use friendlyrabbit.Sample.Laws.{fifo, opening, sound}

abbrev delivery : ℕ → Delivery ℕ ℕ
delivery n = record {
  acknowledger = none;
  delivery_tag = n;
  body = n ∷ [];
  message_id = "id";
  app_id = "app";
  timestamp = 0;
}

-- How many have been read is the state of the outside world.
abbrev unread : ℕ → List (Delivery ℕ ℕ)
unread zero = delivery 1 ∷ (delivery 2 ∷ [])
unread (suc zero) = delivery 2 ∷ []
unread (suc (suc w)) = []

abbrev next_delivery : ℕ → Poll (Delivery ℕ ℕ) × ℕ
next_delivery zero = (received (delivery 1), 1)
next_delivery (suc zero) = (received (delivery 2), 2)
next_delivery (suc (suc w)) = (idle, suc (suc w))

abbrev pub incoming : Incoming env packages
incoming = record {
  Time = ℕ;
  format = λ t. "now";
  zero_delivery = delivery 0;
  Deliveries = Unit {0};
  poll_deliveries = λ c w. next_delivery w;
  qos = λ c n size all w. (none, w);
  consume = λ c q w. (ok tt, w);
  get = λ c q ack w. ((delivery 1, true, none), w);
  hostname = λ w. (ok "here", w);
}

delivers_lem :
    (w : ℕ) (d : Delivery ℕ ℕ) (ds : List (Delivery ℕ ℕ))
    → unread w ≡ d ∷ ds
    → ((next_delivery w).0 ≡ received d) × (unread (next_delivery w).1 ≡ ds)
delivers_lem zero d ds same = (cc, cc)
delivers_lem (suc zero) d ds same = (cc, cc)
delivers_lem (suc (suc w)) d ds same = absurd cc

rests_lem :
    (w : ℕ) → unread w ≡ [] → ((next_delivery w).0 ≡ idle) × (unread (next_delivery w).1 ≡ [])
rests_lem zero same = absurd cc
rests_lem (suc zero) same = absurd cc
rests_lem (suc (suc w)) same = (refl, refl)

abbrev serving : IsServing env packages incoming
serving = record {
  waiting = λ c w. unread w;
  no_notice = λ n w. refl;
  notices_apart = λ n c w. refl;
  delivers = λ c w d ds same. delivers_lem w d ds same;
  rests = λ c w same. rests_lem w same;
}

abbrev pub consumer_config : ConsumerConfig (Table packages)
consumer_config = record {
  queue_name = "jobs";
  consumer_name = "worker";
  auto_ack = false;
  exclusive = false;
  no_wait = false;
  args = [];
  qos_count_override = pos 1;
  sleep_on_error_interval = 0;
}

abbrev pub consumer : Consumer env packages incoming
consumer = new_consumer env packages incoming consumer_config pool

start_consume_loop-keeps_example :
    Ensures
      (λ u t.
        (t.started ≡ false)
        × Full env packages incoming (alone env packages incoming) fifo pool (host 0 ∷ []) 1 t.pool)
      (start_consume_loop env packages incoming (alone env packages incoming) 3 3 none consumer)
unfolding new_consumer
start_consume_loop-keeps_example =
    start_consume_loop-keeps env packages incoming (alone env packages incoming) fifo 3 3 none
      consumer sound (record { steady = λ chs s v. v })
      (
        record {
          present = tt;
          is_ackable = refl;
          confirms = (0, refl, (0, refl));
          cached = refl;
          on_host = omega arith;
        },
        tt,
      )

start_consuming-stop_consuming_example :
    (start_consuming env packages incoming >> stop_consuming env packages incoming true) consumer
    ≡ done tt (record consumer {
      errors = [];
      consume_stop = true ∷ [];
      started = true;
      received_messages = [];
    })
start_consuming-stop_consuming_example =
    start_consuming-stop_consuming env packages incoming true consumer

-- One of the two deliveries, with rounds left.
process_deliveries-in_order_example :
    (w : ℕ) × (unread w ≡ delivery 2 ∷ [])
    × (run env packages incoming serving tt open_channel 1 (1 + 4) consumer
        ≡ run env packages incoming serving tt open_channel 1 4 (record consumer {
          pool = record pool { net = w };
          received_messages =
              message env packages incoming serving tt open_channel 1 consumer (delivery 1) ∷ [];
        }))
unfolding new_consumer
process_deliveries-in_order_example =
    process_deliveries-in_order env packages incoming serving tt open_channel 1 4 (delivery 1 ∷ [])
      (delivery 2 ∷ []) consumer (omega arith) refl refl

-- The cache is empty, since the channel has been taken.
abbrev asked_to_stop : Consumer env packages incoming
asked_to_stop = record consumer { pool = record pool { channels = [] }; consume_stop = true ∷ [] }

get-Returns_example :
    Returns
      (λ a t. (a ≡ ok (some (delivery 1))) × Leaves env fifo 0 pool sound (host 0 ∷ []) t.pool)
      (get env packages incoming 1 "jobs" consumer)
unfolding new_consumer
get-Returns_example =
    get-Returns env packages incoming fifo 0 consumer sound "jobs" 0 [] (delivery 1) true none
      opening (λ c w. refl) refl

stop-IsDeadlocked_example :
    (s : System env packages incoming) × Reach env packages incoming
      (system_of env packages incoming consumer)
      s
    × IsDeadlocked env packages incoming s
    × (s.loops ≡ leaving ∷ [])
    × (s.consumer.started ≡ true)
stop-IsDeadlocked_example = stop-IsDeadlocked env packages incoming consumer

start-orphans_example :
    (s : System env packages incoming) × Reach env packages incoming
      (system_of env packages incoming consumer)
      s
    × (s.loops ≡ running ∷ (over ∷ []))
    × (s.consumer.started ≡ false)
    × (stop_consuming env packages incoming true s.consumer ≡ done tt s.consumer)
start-orphans_example = start-orphans env packages incoming consumer true

abbrev deadlocked : System env packages incoming
deadlocked = record {
  consumer = record consumer { started = true; consume_stop = true ∷ [] };
  loops = leaving ∷ (over ∷ []);
  waiting = true;
}

-- A message has come meanwhile.
abbrev still_deadlocked : System env packages incoming
still_deadlocked = record deadlocked {
  consumer = record consumer {
    started = true;
    consume_stop = true ∷ [];
    received_messages =
        message env packages incoming serving tt open_channel 1 consumer (delivery 1) ∷ [];
  };
}

Reach-IsDeadlocked_example :
    (IsDeadlocked env packages incoming still_deadlocked
      × (leaving ∷ (over ∷ []) ≡ leaving ∷ (over ∷ [])))
    ⊎ Flushes env packages incoming deadlocked still_deadlocked
Reach-IsDeadlocked_example =
    Reach-IsDeadlocked env packages incoming deadlocked still_deadlocked
      (refl, refl, (tt, (tt, tt))) (later begin (outside still_deadlocked.consumer refl refl))
