-- ===== src/Topology/Order.antt =====
-- BuildTopology makes its calls one after the other, and stops at the first error that counts.
use mathlib.Core.Path.{fun_ext}
use friendlyrabbit.Base.{
  ◌≡◌, refl, ◌∙◌, sym, ap, Bool, true, Option, none, List, [], ◌∷◌, ◌++◌, map, Action, ℕ, pure,
  choose, ◌>>=◌, >>=-assoc, pure->>=, choose->>=, choose-true, choose-false, if◌then◌else◌,
  Bool-cases, inl, inr,
}
use friendlyrabbit.Error.{Error}
use friendlyrabbit.Env.{Env}
use friendlyrabbit.Payload.Packages.{Packages}
use friendlyrabbit.Pool.State.{Pool}
use friendlyrabbit.Topology.Request.{
  Exchange, Queue, QueueBinding, ExchangeBinding, TopologyConfig, Request, exchange_bind,
  queue_bind, Declarer, exchange_request, quorum_defaults, queue_request,
}
use friendlyrabbit.Topology.Build.{
  ask, stops, each, create_exchange_from_config, create_queue_from_config, bind_queue,
  bind_exchange, build_exchanges, build_queues, bind_queues, bind_exchanges, build_topology,
}

module _ (k : Packages) where
  abbrev pub queue_binding_request : QueueBinding k → Request k
  queue_binding_request b = queue_bind b.queue_name b.routing_key b.exchange_name b.no_wait b.args

  abbrev pub exchange_binding_request : ExchangeBinding k → Request k
  exchange_binding_request b =
      exchange_bind b.exchange_name b.routing_key b.parent_exchange_name b.no_wait b.args

  -- The calls that a topology stands for, in order.
  abbrev pub requests_of : TopologyConfig k → List (Request k)
  requests_of c =
      map (exchange_request k) c.exchanges
      ++ (map (λ q. queue_request k (quorum_defaults k q)) c.queues
          ++ (map queue_binding_request c.queue_bindings
              ++ map exchange_binding_request c.exchange_bindings))

module _ (e : Env) (k : Packages) (d : Declarer e k) (rounds : ℕ) (ignore : Bool) where
  -- Makes the calls until one fails in a way that counts.
  run_all : List (Request k) → Action (Pool e) (Option Error)
  run_all qs = each e k d rounds (ask e k d rounds) ignore qs

  -- What comes after a part whose error was `x`.
  go_on : Action (Pool e) (Option Error) → Option Error → Action (Pool e) (Option Error)
  go_on rest x = choose (stops e k d rounds ignore x) (pure x) rest

  each-map :
      {A : Type 0} (g : A → Request k) (xs : List A)
      → each e k d rounds (λ a. ask e k d rounds (g a)) ignore xs ≡ run_all (map g xs)
  unfolding each run_all
  each-map g [] = refl
  each-map g (x ∷ xs) =
      ap
        (λ rest. ask e k d rounds (g x) >>= λ y. choose (stops e k d rounds ignore y) (pure y) rest)
        (each-map g xs)

  -- After an error that counts nothing more is done.
  go_on-go_on :
      (rest more : Action (Pool e) (Option Error)) (y : Option Error)
      → go_on (rest >>= go_on more) y ≡ (go_on rest y >>= go_on more)
  unfolding go_on
  go_on-go_on rest more y = elim (Bool-cases (stops e k d rounds ignore y)) [
    | inl halt ↦
        choose-true _ _ _ halt
        ∙ sym (rw (choose-true _ (pure y) rest halt) (pure->>= y _ ∙ choose-true _ _ _ halt))
    | inr on ↦ choose-false _ _ _ on ∙ sym (rw (choose-false _ (pure y) rest on) refl)
  ]

  run_all-append :
      (xs ys : List (Request k)) → run_all (xs ++ ys) ≡ (run_all xs >>= go_on (run_all ys))
  unfolding run_all each go_on choose
  run_all-append [] ys = sym (pure->>= _ _)
  run_all-append (x ∷ xs) ys =
      ap (λ rest. ask e k d rounds x >>= go_on rest) (run_all-append xs ys)
      ∙ ap (◌>>=◌ (ask e k d rounds x)) (fun_ext (go_on-go_on (run_all xs) (run_all ys)))
      ∙ sym (>>=-assoc _ _ _)

  -- The error that is left when one that does not count is forgotten.
  counted : Option Error → Option Error
  counted z = if stops e k d rounds ignore z then z else none

  counted_lem : (z : Option Error) → stops e k d rounds ignore z ≡ true → counted z ≡ z
  unfolding counted
  counted_lem z halt = rw halt refl

  go_on-counted :
      (rest : Action (Pool e) (Option Error)) (y : Option Error)
      → (rest >>= λ z. pure (counted z)) ≡ rest
      → (go_on rest y >>= λ z. pure (counted z)) ≡ go_on rest y
  unfolding go_on
  go_on-counted rest y same = elim (Bool-cases (stops e k d rounds ignore y)) [
    | inl halt ↦ rw (choose-true _ (pure y) rest halt) (pure->>= _ _ ∙ ap pure (counted_lem y halt))
    | inr on ↦ rw (choose-false _ (pure y) rest on) same
  ]

  -- The result is an error only if it is one that counts.
  run_all-counted : (xs : List (Request k)) → (run_all xs >>= λ z. pure (counted z)) ≡ run_all xs
  unfolding run_all each counted go_on
  run_all-counted [] = pure->>= _ _
  run_all-counted (x ∷ xs) =
      >>=-assoc _ _ _
      ∙ ap (◌>>=◌ (ask e k d rounds x))
          (fun_ext (λ y. go_on-counted (run_all xs) y (run_all-counted xs)))

  build_queues_lem :
      (qs : List (Queue k))
      → (build_queues e k d rounds qs ignore >>= λ r. pure r.0)
        ≡ run_all (map (λ q. queue_request k (quorum_defaults k q)) qs)
  unfolding build_queues create_queue_from_config run_all each
  build_queues_lem [] = pure->>= _ _
  build_queues_lem (q ∷ qs) =
      simp (>>=-assoc, pure->>=, choose->>=)
        (ap
          (λ rest. ask e k d rounds (queue_request k (quorum_defaults k q)) >>= λ x.
            choose (stops e k d rounds ignore x) (pure x) rest)
          (build_queues_lem qs))

  -- What uses only the first part of a result.
  >>=-first :
      {A : Type 0} {B : Type 0} {C : Type 0} (m : Action (Pool e) (A × B))
      (f : A → Action (Pool e) C)
      → (m >>= λ r. f r.0) ≡ ((m >>= λ r. pure r.0) >>= f)
  >>=-first m f = sym (simp (>>=-assoc, pure->>=) refl)

  bind_exchanges-counted :
      (bs : List (ExchangeBinding k))
      → (bind_exchanges e k d rounds bs ignore >>= λ z. pure (counted z))
        ≡ run_all (map (exchange_binding_request k) bs)
  unfolding bind_exchanges bind_exchange
  bind_exchanges-counted bs =
      ap (λ m. m >>= λ z. pure (counted z)) (each-map (exchange_binding_request k) bs)
      ∙ run_all-counted (map (exchange_binding_request k) bs)

  bind_queues-then :
      (bs : List (QueueBinding k)) {rest : Action (Pool e) (Option Error)} (more : List (Request k))
      → rest ≡ run_all more
      → (bind_queues e k d rounds bs ignore >>= go_on rest)
        ≡ run_all (map (queue_binding_request k) bs ++ more)
  unfolding bind_queues bind_queue
  bind_queues-then bs {rest = rest} more same =
      ap (λ m. m >>= go_on rest) (each-map (queue_binding_request k) bs)
      ∙ ap (λ r. run_all (map (queue_binding_request k) bs) >>= go_on r) same
      ∙ sym (run_all-append (map (queue_binding_request k) bs) more)

  build_queues-then :
      (qs : List (Queue k)) {rest : Action (Pool e) (Option Error)} (more : List (Request k))
      → rest ≡ run_all more
      → (build_queues e k d rounds qs ignore >>= λ r. go_on rest r.0)
        ≡ run_all (map (λ q. queue_request k (quorum_defaults k q)) qs ++ more)
  build_queues-then qs {rest = rest} more same =
      >>=-first (build_queues e k d rounds qs ignore) (go_on rest)
      ∙ ap (λ m. m >>= go_on rest) (build_queues_lem qs)
      ∙ ap (λ r. run_all (map (λ q. queue_request k (quorum_defaults k q)) qs) >>= go_on r) same
      ∙ sym (run_all-append (map (λ q. queue_request k (quorum_defaults k q)) qs) more)

  build_exchanges-then :
      (xs : List (Exchange k)) {rest : Action (Pool e) (Option Error)} (more : List (Request k))
      → rest ≡ run_all more
      → (build_exchanges e k d rounds xs ignore >>= go_on rest)
        ≡ run_all (map (exchange_request k) xs ++ more)
  unfolding build_exchanges create_exchange_from_config
  build_exchanges-then xs {rest = rest} more same =
      ap (λ m. m >>= go_on rest) (each-map (exchange_request k) xs)
      ∙ ap (λ r. run_all (map (exchange_request k) xs) >>= go_on r) same
      ∙ sym (run_all-append (map (exchange_request k) xs) more)

  -- BuildTopology gives the error that making the calls of the topology one by one gives, on a new
  -- channel each: exchanges, queues, queue bindings and exchange bindings in this order, until the
  -- first error when errors count, and all of them when they do not. It leaves the same pool and
  -- the same calls behind.
  pub build_topology-order :
      (c : TopologyConfig k)
      → (build_topology e k d rounds c ignore >>= λ r. pure r.0)
        ≡ each e k d rounds (ask e k d rounds) ignore (requests_of k c)
  unfolding build_topology run_all go_on counted
  build_topology-order c =
      simp (>>=-assoc, pure->>=, choose->>=)
        (build_exchanges-then c.exchanges _ (
          build_queues-then c.queues _
            (bind_queues-then c.queue_bindings _ (bind_exchanges-counted c.exchange_bindings))))
