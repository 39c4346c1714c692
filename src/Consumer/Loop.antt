-- ===== src/Consumer/Loop.antt =====
-- startConsumeLoop and processDeliveries. A loop takes the number of rounds that it may make.
-- `others` is what the other goroutines, among them the callers of StopConsuming and the readers of
-- the consumer's Go channels, have done until the loop next looks at what they share.
use friendlyrabbit.Base.{
  ℕ, zero, suc, is_positive, not, Bool, true, false, Option, none, some, List, [], ◌∷◌, ◌++◌,
  Action, done, stuck, pure, waits, choose, length, leb, ltb, ◌>>=◌, ◌>>◌, if◌then◌else◌,
}
use friendlyrabbit.Error.{
  Error, AmqpError, channel_closed, Result, ok, err, Poll, received, closed, idle,
}
use friendlyrabbit.Env.{Env}
use friendlyrabbit.Payload.Packages.{Packages}
use friendlyrabbit.Message.Received.{Delivery, new_received_message}
use friendlyrabbit.Pool.State.{ChannelHost, Pool, call, the}
use friendlyrabbit.Pool.Lease.{get_channel_from_pool, return_channel}
use friendlyrabbit.Consumer.State.{Incoming, Consumption, Consumer, Message, on_pool}
use friendlyrabbit.Consumer.Control.{set_started}

-- make(chan error, 1000) and make(chan *ReceivedMessage, 1000)
abbrev pub buffer_capacity : ℕ
buffer_capacity = 1000

module _ (e : Env) (k : Packages) (i : Incoming e k)
    (others : Consumer e k i → Consumer e k i) where
  -- The function that the user hands to StartConsuming, which may be nil.
  abbrev pub Handling : Type 0
  Handling = Option (Message e k i → e.Net → Unit {0} × e.Net)

  unfoldable pub meanwhile : Action (Consumer e k i) (Unit {0})
  meanwhile s = done tt (others s)

  unfoldable pub receive_stop : List Bool → Action (Consumer e k i) Bool
  receive_stop [] s = done false s
  receive_stop (b ∷ rest) s = done b (record s { consume_stop = rest })

  -- The `select` on consumeStop.
  unfoldable pub poll_stop : Action (Consumer e k i) Bool
  unfolding receive_stop
  poll_stop s = receive_stop s.consume_stop s

  unfoldable pub send_error : Error → Action (Consumer e k i) (Unit {0})
  send_error x s =
      if leb buffer_capacity (length s.errors)
      then stuck
      else done tt (record s { errors = s.errors ++ (x ∷ []) })

  unfoldable pub send_message : Message e k i → Action (Consumer e k i) (Unit {0})
  send_message m s =
      if leb buffer_capacity (length s.received_messages)
      then stuck
      else done tt (record s { received_messages = s.received_messages ++ (m ∷ []) })

  unfoldable pub pause_after_error : Action (Consumer e k i) (Unit {0})
  pause_after_error s =
      choose (ltb 0 s.sleep_on_error) (on_pool e k i (call e (e.sleep s.sleep_on_error))) (pure tt)
        s

  -- errFunc
  unfoldable pub give_back : ℕ → ChannelHost e → Action (Consumer e k i) (Unit {0})
  unfolding pause_after_error
  give_back rounds ch = do on_pool e k i (return_channel e rounds ch true); pause_after_error

  -- The receive from `chanHost.Errors`, which is never ready while it is nil.
  unfoldable pub poll_errors : ChannelHost e → Action (Pool e) (Poll AmqpError)
  poll_errors ch = elim ch.errors [ none ↦ pure idle | some n ↦ call e (e.poll_notices n) ]

  unfoldable pub handle : Handling → Message e k i → Action (Consumer e k i) (Unit {0})
  unfolding meanwhile send_message
  handle none m = do meanwhile; send_message m
  handle (some f) m = on_pool e k i (call e (f m))

  unfoldable pub take_delivery :
      Handling → Delivery e.Net i.Time → Action (Consumer e k i) (Unit {0})
  unfolding handle
  take_delivery action d s =
      handle action (new_received_message e.Net i.Time i.format (not s.auto_ack) d) s

  -- A closed channel of deliveries is always ready, with the zero delivery.
  unfoldable pub read_message :
      Handling → Poll (Delivery e.Net i.Time) → Action (Consumer e k i) (Unit {0})
  unfolding take_delivery
  read_message action (received d) = take_delivery action d
  read_message action closed = take_delivery action i.zero_delivery
  read_message action idle = pure tt

  unfoldable pub stop_or :
      Action (Consumer e k i) Bool → ℕ → ChannelHost e → Bool → Action (Consumer e k i) Bool
  stop_or again rounds ch true = do on_pool e k i (return_channel e rounds ch false); pure true
  stop_or again rounds ch false = again

  -- The second and the third `select` of processDeliveries.
  unfoldable pub deliver_round :
      Action (Consumer e k i) Bool
      → ℕ
      → i.Deliveries
      → ChannelHost e
      → Handling
      → Action (Consumer e k i) Bool
  unfolding read_message meanwhile poll_stop stop_or
  deliver_round again rounds c ch action = do
    d ← on_pool e k i (call e (i.poll_deliveries c))
    read_message action d
    meanwhile
    stop ← poll_stop
    stop_or again rounds ch stop

  unfoldable pub after_notice :
      Action (Consumer e k i) Bool
      → ℕ
      → ChannelHost e
      → Poll AmqpError
      → Action (Consumer e k i) Bool
  unfolding meanwhile send_error pause_after_error
  after_notice go_on rounds ch (received x) = do
    on_pool e k i (return_channel e rounds ch true)
    meanwhile
    send_error (channel_closed x.reason x.code)
    pause_after_error
    pure false
  after_notice go_on rounds ch closed = go_on
  after_notice go_on rounds ch idle = go_on

  unfoldable pub process_deliveries :
      ℕ → ℕ → i.Deliveries → ChannelHost e → Handling → Action (Consumer e k i) Bool
  unfolding poll_errors after_notice deliver_round
  process_deliveries rounds zero c ch action = waits
  process_deliveries rounds (suc tries) c ch action =
      let again = process_deliveries rounds tries c ch action in
      do
        x ← on_pool e k i (poll_errors ch)
        after_notice (deliver_round again rounds c ch action) rounds ch x

  unfoldable pub after_consume :
      Action (Consumer e k i) (Unit {0})
      → ℕ
      → ChannelHost e
      → Handling
      → Result i.Deliveries
      → Action (Consumer e k i) (Unit {0})
  unfolding give_back process_deliveries
  after_consume again rounds ch action (err x) = do give_back rounds ch; again
  after_consume again rounds ch action (ok c) = do
    stop ← process_deliveries rounds rounds c ch action
    choose stop (pure tt) again

  -- The arguments of the consumer are not passed on.
  abbrev pub consumption_of : Consumer e k i → Consumption k
  consumption_of s = record {
    queue_name = s.queue_name;
    consumer_name = s.consumer_name;
    auto_ack = s.auto_ack;
    exclusive = s.exclusive;
    no_local = false;
    no_wait = s.no_wait;
    args = none;
  }

  unfoldable pub start_deliveries : ChannelHost e → Action (Consumer e k i) (Result i.Deliveries)
  start_deliveries ch s =
      on_pool e k i (do c ← the ch.channel; call e (i.consume c (consumption_of s))) s

  unfoldable pub set_qos : ChannelHost e → Action (Consumer e k i) (Option Error)
  set_qos ch s =
      choose (is_positive s.qos_count_override)
        (on_pool e k i (do c ← the ch.channel; call e (i.qos c s.qos_count_override 0 false)))
        (pure none) s

  unfoldable pub after_qos :
      Action (Consumer e k i) (Unit {0})
      → ℕ
      → ChannelHost e
      → Handling
      → Option Error
      → Action (Consumer e k i) (Unit {0})
  unfolding give_back start_deliveries after_consume
  after_qos again rounds ch action (some x) = do give_back rounds ch; again
  after_qos again rounds ch action none = do
    r ← start_deliveries ch
    after_consume again rounds ch action r

  unfoldable pub consume_on :
      Action (Consumer e k i) (Unit {0})
      → ℕ
      → Handling
      → ChannelHost e
      → Action (Consumer e k i) (Unit {0})
  unfolding set_qos after_qos
  consume_on again rounds action ch = do x ← set_qos ch; after_qos again rounds ch action x

  unfoldable pub consume_loop : ℕ → ℕ → Handling → Action (Consumer e k i) (Unit {0})
  unfolding meanwhile poll_stop consume_on
  consume_loop rounds zero action = waits
  consume_loop rounds (suc tries) action =
      let again = consume_loop rounds tries action in
      do
        meanwhile
        stop ← poll_stop
        choose stop (pure tt)
            (do ch ← on_pool e k i (get_channel_from_pool e); consume_on again rounds action ch)

  unfoldable pub start_consume_loop : ℕ → ℕ → Handling → Action (Consumer e k i) (Unit {0})
  unfolding consume_loop
  start_consume_loop rounds tries action = do
    consume_loop rounds tries action
    meanwhile
    set_started e k i false
