-- ===== src/Topology/Build.antt =====
-- The methods of the Topologer. Each takes a new channel, makes one call on it, and closes it.
use friendlyrabbit.Base.{
  ℕ, ◌+◌, String, Bool, false, not, Option, none, some, List, [], ◌∷◌, Action, pure, choose,
  if◌then◌else◌, ◌>>=◌, ◌>>◌,
}
use friendlyrabbit.Error.{Error, no_queues}
use friendlyrabbit.Env.{Env}
use friendlyrabbit.Payload.Packages.{Packages}
use friendlyrabbit.Pool.State.{Pool, call, the}
use friendlyrabbit.Pool.Channel.{close}
use friendlyrabbit.Pool.Lease.{get_transient_channel}
use friendlyrabbit.Topology.Request.{
  Args, Exchange, Queue, QueueBinding, ExchangeBinding, TopologyConfig, Request, exchange_declare,
  exchange_declare_passive, exchange_bind, exchange_unbind, exchange_delete, queue_declare,
  queue_declare_passive, queue_bind, queue_unbind, queue_delete, queue_purge, Declarer,
  exchange_request, quorum_defaults, queue_request,
}

module _ (e : Env) (k : Packages) (d : Declarer e k) (rounds : ℕ) where
  -- A call on a new channel, and the deferred close.
  unfoldable pub with_channel : {A : Type 0} → (e.Channel → e.Net → A × e.Net) → Action (Pool e) A
  with_channel f = do
    ch ← get_transient_channel e rounds false
    c ← the ch.channel
    r ← call e (f c)
    close e ch
    pure r

  unfoldable pub ask : Request k → Action (Pool e) (Option Error)
  unfolding with_channel
  ask q = with_channel (λ c. d.declare c q)

  unfoldable pub create_exchange :
      String → String → Bool → Bool → Bool → Bool → Bool → Args k → Action (Pool e) (Option Error)
  create_exchange name kind passive durable auto_delete internal no_wait args = ask (
      if passive
      then exchange_declare_passive name kind durable auto_delete internal no_wait args
      else exchange_declare name kind durable auto_delete internal no_wait args)

  unfoldable pub create_exchange_from_config : Exchange k → Action (Pool e) (Option Error)
  create_exchange_from_config x = ask (exchange_request k x)

  unfoldable pub bind_exchange : ExchangeBinding k → Action (Pool e) (Option Error)
  bind_exchange b =
      ask (exchange_bind b.exchange_name b.routing_key b.parent_exchange_name b.no_wait b.args)

  unfoldable pub delete_exchange : String → Bool → Bool → Action (Pool e) (Option Error)
  delete_exchange name if_unused no_wait = ask (exchange_delete name if_unused no_wait)

  unfoldable pub unbind_exchange :
      String → String → String → Bool → Args k → Action (Pool e) (Option Error)
  unbind_exchange name key parent no_wait args = ask (exchange_unbind name key parent no_wait args)

  unfoldable pub create_queue :
      String → Bool → Bool → Bool → Bool → Bool → Args k → Action (Pool e) (Option Error)
  create_queue name passive durable auto_delete exclusive no_wait args = ask (
      if passive
      then queue_declare_passive name durable auto_delete exclusive no_wait args
      else queue_declare name durable auto_delete exclusive no_wait args)

  -- The error, and the caller's struct after the call.
  unfoldable pub create_queue_from_config : Queue k → Action (Pool e) (Option Error × Queue k)
  create_queue_from_config q = do
    x ← ask (queue_request k (quorum_defaults k q))
    pure (x, quorum_defaults k q)

  unfoldable pub bind_queue : QueueBinding k → Action (Pool e) (Option Error)
  bind_queue b = ask (queue_bind b.queue_name b.routing_key b.exchange_name b.no_wait b.args)

  unfoldable pub unbind_queue : String → String → String → Args k → Action (Pool e) (Option Error)
  unbind_queue name key exchange args = ask (queue_unbind name key exchange args)

  unfoldable pub delete_queue : String → Bool → Bool → Bool → Action (Pool e) (ℕ × Option Error)
  delete_queue name if_unused if_empty no_wait =
      with_channel (λ c. d.remove c (queue_delete name if_unused if_empty no_wait))

  unfoldable pub purge_queue : String → Bool → Action (Pool e) (ℕ × Option Error)
  purge_queue name no_wait = with_channel (λ c. d.remove c (queue_purge name no_wait))

  unfoldable pub after_purge :
      (ℕ → Action (Pool e) (ℕ × Option Error))
      → ℕ
      → ℕ × Option Error
      → Action (Pool e) (ℕ × Option Error)
  after_purge next total (count, none) = next (total + count)
  after_purge next total (count, some x) = pure (total, some x)

  unfoldable pub purge_loop : List String → Bool → ℕ → Action (Pool e) (ℕ × Option Error)
  unfolding after_purge purge_queue
  purge_loop [] no_wait total = pure (total, none)
  purge_loop (name ∷ names) no_wait total =
      let next = purge_loop names no_wait in
      do r ← purge_queue name no_wait; after_purge next total r

  unfoldable pub purge_queues : List String → Bool → Action (Pool e) (ℕ × Option Error)
  unfolding purge_loop
  purge_queues [] no_wait = pure (0, some no_queues)
  purge_queues (name ∷ names) no_wait = purge_loop (name ∷ names) no_wait 0

  -- `err != nil && !ignoreErrors`
  abbrev pub stops : Bool → Option Error → Bool
  stops ignore none = false
  stops ignore (some x) = not ignore

  -- The loop of BuildExchanges, BindQueues and BindExchanges over their items.
  unfoldable pub each :
      {A : Type 0}
      → (A → Action (Pool e) (Option Error))
      → Bool
      → List A
      → Action (Pool e) (Option Error)
  each f ignore [] = pure none
  each f ignore (a ∷ as_left) =
      let rest = each f ignore as_left in do x ← f a; choose (stops ignore x) (pure x) rest

  unfoldable pub build_exchanges : List (Exchange k) → Bool → Action (Pool e) (Option Error)
  unfolding each create_exchange_from_config
  build_exchanges xs ignore = each create_exchange_from_config ignore xs

  unfoldable pub bind_queues : List (QueueBinding k) → Bool → Action (Pool e) (Option Error)
  unfolding each bind_queue
  bind_queues bs ignore = each bind_queue ignore bs

  unfoldable pub bind_exchanges : List (ExchangeBinding k) → Bool → Action (Pool e) (Option Error)
  unfolding each bind_exchange
  bind_exchanges bs ignore = each bind_exchange ignore bs

  -- The error, and the caller's structs after the call.
  unfoldable pub build_queues :
      List (Queue k) → Bool → Action (Pool e) (Option Error × List (Queue k))
  unfolding create_queue_from_config
  build_queues [] ignore = pure (none, [])
  build_queues (q ∷ qs) ignore =
      let rest = build_queues qs ignore in
      do
        r ← create_queue_from_config q
        choose (stops ignore r.0) (pure (r.0, r.1 ∷ qs)) (do s ← rest; pure (s.0, r.1 ∷ s.1))

  -- The four parts in their order, each stopping the rest by its error.
  unfoldable pub build_topology :
      TopologyConfig k → Bool → Action (Pool e) (Option Error × List (Queue k))
  unfolding build_exchanges build_queues bind_queues bind_exchanges
  build_topology c ignore = do
    x ← build_exchanges c.exchanges ignore
    choose (stops ignore x) (pure (x, c.queues)) (do
      r ← build_queues c.queues ignore
      choose (stops ignore r.0) (pure r) (do
        y ← bind_queues c.queue_bindings ignore
        choose (stops ignore y) (pure (y, r.1)) (do
          z ← bind_exchanges c.exchange_bindings ignore
          pure (if stops ignore z then z else none, r.1))))
