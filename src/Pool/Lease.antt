-- ===== src/Pool/Lease.antt =====
-- Connections and channels as connectionpool.go hands them out and takes them back.
use friendlyrabbit.Base.{
  ℕ, zero, suc, Bool, true, false, none, some, List, [], ◌∷◌, ◌++◌, Action, recovered, done, panic,
  stuck, pure, waits, length, leb, ◌>>=◌, ◌>>◌, if◌then◌else◌, choose,
}
use friendlyrabbit.Error.{invalid_struct_type, Result, ok, err}
use friendlyrabbit.Env.{Env, host, other, Got, items, failed, blocks}
use friendlyrabbit.Pool.State.{ChannelHost, Pool, load}
use friendlyrabbit.Pool.Connection.{on_result}
use friendlyrabbit.Pool.Channel.{Made, close, make_channel, new_channel_host}
use friendlyrabbit.Pool.Recovery.{handle_error, flag_connection, verify_healthy_connection}

module _ (e : Env) where
  -- `structs[0].(*ConnectionHost)`
  unfoldable pub taken : Got e.Queue → Action (Pool e) (Result ℕ)
  taken (items [] q) s = panic s
  taken (items (host p ∷ _) q) s = done (ok p) (record s { connections = q })
  taken (items (other ∷ _) q) s = done (err invalid_struct_type) (record s { connections = q })
  taken (failed x) s = done (err x) s
  taken blocks s = stuck

  unfoldable pub get_connection_from_pool : Action (Pool e) (Result ℕ)
  unfolding taken
  get_connection_from_pool s = taken (e.get 1 s.connections) s

  unfoldable pub get_connection : ℕ → Action (Pool e) (Result ℕ)
  unfolding get_connection_from_pool
  get_connection rounds = do
    r ← get_connection_from_pool
    on_result (λ x. do handle_error e x; pure (err x))
        (λ p. do verify_healthy_connection e rounds p; pure (ok p)) r

  unfoldable pub active_connections : Pool e → ℕ
  active_connections s = e.len s.connections

  -- The error of `Put` is dropped.
  unfoldable pub put_connection : ℕ → Action (Pool e) (Unit {0})
  put_connection p s = done tt (record s { connections = (e.put (host p) s.connections).1 })

  unfoldable pub return_connection : ℕ → Bool → Action (Pool e) (Unit {0})
  unfolding put_connection
  return_connection p true = do h ← load e p; flag_connection e h.connection_id; put_connection p
  return_connection p false = put_connection p

  -- `<-cp.channels`
  unfoldable pub receive_channel : List (ChannelHost e) → Action (Pool e) (ChannelHost e)
  receive_channel [] s = stuck
  receive_channel (ch ∷ rest) s = done ch (record s { channels = rest })

  unfoldable pub get_channel_from_pool : Action (Pool e) (ChannelHost e)
  unfolding receive_channel
  get_channel_from_pool s = receive_channel s.channels s

  -- `cp.channels <- chanHost`, which waits while the buffer is full.
  unfoldable pub send_channel : ChannelHost e → Action (Pool e) (Unit {0})
  send_channel ch s =
      if leb s.config.max_cache_channel_count (length s.channels)
      then stuck
      else done tt (record s { channels = s.channels ++ (ch ∷ []) })

  unfoldable pub remade :
      (ChannelHost e → Action (Pool e) (ChannelHost e)) → Made e → Action (Pool e) (ChannelHost e)
  remade again (ch, none) = pure ch
  remade again (ch, some x) = do handle_error e x; again ch

  unfoldable pub reconnect_channel : ℕ → ℕ → ChannelHost e → Action (Pool e) (ChannelHost e)
  unfolding remade
  reconnect_channel rounds zero ch = waits
  reconnect_channel rounds (suc tries) ch =
      let again = reconnect_channel rounds tries in
      do
        verify_healthy_connection e rounds ch.conn_host
        made ← make_channel e ch
        remade again made

  -- The field `transient` is set on the channels of the cache. A channel without it is closed, in a
  -- goroutine that survives a panic.
  unfoldable pub close_quietly : ChannelHost e → Action (Pool e) (Unit {0})
  close_quietly ch = recovered (close e ch)

  unfoldable pub return_channel : ℕ → ChannelHost e → Bool → Action (Pool e) (Unit {0})
  unfolding close_quietly send_channel
  return_channel rounds ch erred =
      choose ch.transient
        (choose erred (do fresh ← reconnect_channel rounds rounds ch; send_channel fresh)
          (send_channel ch))
        (close_quietly ch)

  unfoldable pub created :
      Action (Pool e) (ChannelHost e) → ℕ → Result (ChannelHost e) → Action (Pool e) (ChannelHost e)
  unfolding return_connection
  created again p (ok ch) = do return_connection p false; pure ch
  created again p (err x) = do handle_error e x; return_connection p true; again

  unfoldable pub create_on :
      Action (Pool e) (ChannelHost e) → ℕ → Bool → ℕ → Action (Pool e) (ChannelHost e)
  unfolding created
  create_on again id cacheble p = do
    h ← load e p
    r ← new_channel_host e p id h.connection_id true cacheble
    created again p r

  unfoldable pub create_cache_channel : ℕ → ℕ → ℕ → Bool → Action (Pool e) (ChannelHost e)
  unfolding create_on
  create_cache_channel rounds zero id cacheble = waits
  create_cache_channel rounds (suc tries) id cacheble =
      let again = create_cache_channel rounds tries id cacheble in
      do
        r ← get_connection rounds
        on_result (λ x. do handle_error e x; again) (create_on again id cacheble) r

  -- The argument is not used.
  unfoldable pub get_transient_channel : ℕ → Bool → Action (Pool e) (ChannelHost e)
  get_transient_channel rounds ackable = create_cache_channel rounds rounds 0 false
