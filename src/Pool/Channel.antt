-- ===== src/Pool/Channel.antt =====
-- channelhost.go. A `ChannelHost` is a value here: a method that changes it returns the new one.
use friendlyrabbit.Base.{ℕ, Bool, false, Option, none, some, Action, pure, ◌>>=◌, ◌>>◌, choose}
use friendlyrabbit.Error.{Error, connection_closed, Result, ok, err}
use friendlyrabbit.Env.{Env}
use friendlyrabbit.Pool.State.{ConnectionHost, ChannelHost, Pool, call, load, the}
use friendlyrabbit.Pool.Connection.{pause_on_flow_control}

module _ (e : Env) where
  -- The channel after a step that may fail, and the error.
  abbrev pub Made : Type 0
  Made = ChannelHost e × Option Error

  unfoldable pub close : ChannelHost e → Action (Pool e) (Unit {0})
  close ch = do c ← the ch.channel; call e (e.close_channel c)

  unfoldable pub watch_errors : ChannelHost e → e.Channel → Action (Pool e) Made
  watch_errors ch c = do
    errors ← call e (e.make_notices 100)
    call e (e.notify_channel_close c errors)
    pure (record ch { errors = some errors }, none)

  unfoldable pub after_confirm : ChannelHost e → e.Channel → Option Error → Action (Pool e) Made
  unfolding watch_errors
  after_confirm ch c none = watch_errors ch c
  after_confirm ch c (some x) = pure (ch, some x)

  unfoldable pub confirm_mode : ChannelHost e → e.Channel → Action (Pool e) Made
  unfolding after_confirm
  confirm_mode ch c = do x ← call e (e.confirm c false); after_confirm ch c x

  unfoldable pub opened : ChannelHost e → e.Channel → Action (Pool e) Made
  unfolding confirm_mode watch_errors
  opened ch c = choose ch.ackable (confirm_mode ch c) (watch_errors ch c)

  -- A failed open leaves no channel behind.
  unfoldable pub after_open : ChannelHost e → Result e.Channel → Action (Pool e) Made
  unfolding opened
  after_open ch (err x) = pure (record ch { channel = none }, some x)
  after_open ch (ok c) = opened (record ch { channel = some c }) c

  unfoldable pub open_on : ChannelHost e → ConnectionHost e → Action (Pool e) Made
  unfolding after_open
  open_on ch h = do conn ← the h.connection; r ← call e (e.open_channel conn); after_open ch r

  unfoldable pub make_channel : ChannelHost e → Action (Pool e) Made
  unfolding open_on
  make_channel ch = do h ← load e ch.conn_host; open_on ch h

  unfoldable pub made_host : Made → Action (Pool e) (Result (ChannelHost e))
  made_host (ch, none) = pure (ok ch)
  made_host (ch, some x) = pure (err x)

  abbrev pub blank_channel : ℕ → ℕ → ℕ → Bool → Bool → ChannelHost e
  blank_channel p id connection_id ackable transient = record {
    channel = none;
    id = id;
    connection_id = connection_id;
    ackable = ackable;
    transient = transient;
    errors = none;
    conn_host = p;
  }

  unfoldable pub make_new : ChannelHost e → Action (Pool e) (Result (ChannelHost e))
  unfolding make_channel made_host
  make_new ch = do made ← make_channel ch; made_host made

  unfoldable pub new_on :
      ConnectionHost e → ChannelHost e → Action (Pool e) (Result (ChannelHost e))
  unfolding make_new
  new_on h ch = do
    conn ← the h.connection
    is_shut ← call e (e.is_closed conn)
    choose is_shut (pure (err connection_closed)) (make_new ch)

  unfoldable pub new_channel_host :
      ℕ → ℕ → ℕ → Bool → Bool → Action (Pool e) (Result (ChannelHost e))
  unfolding new_on
  new_channel_host p id connection_id ackable transient = do
    h ← load e p
    new_on h (blank_channel p id connection_id ackable transient)

  unfoldable pub pause_for_flow_control : ℕ → ChannelHost e → Action (Pool e) (Unit {0})
  unfolding pause_on_flow_control
  pause_for_flow_control rounds ch = pause_on_flow_control e rounds ch.conn_host
