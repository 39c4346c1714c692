-- ===== src/Topology/Quorum.antt =====
-- Quorum queues: what CreateQueueFromConfig makes of the caller's struct, and what it declares.
use friendlyrabbit.Base.{
  ◌≡◌, refl, ◌∙◌, sym, Bool, true, false, none, some, [], ◌∷◌, str_eq, if◌then◌else◌, String, ap,
}
use friendlyrabbit.Payload.Packages.{Packages}
use friendlyrabbit.Topology.Request.{
  Queue, Request, queue_declare, queue_declare_passive, quorum_defaults, queue_request,
  queue_type_quorum, Args, or_queue_type,
}

module _ (k : Packages) where
  -- The declaration of a queue, passive or not.
  abbrev declares : Bool → String → Bool → Bool → Bool → Bool → Args k → Request k
  declares true = queue_declare_passive
  declares false = queue_declare

  request_lem :
      (q : Queue k)
      → queue_request k q
        ≡ declares q.passive_declare q.name q.durable q.auto_delete q.exclusive q.no_wait q.args
  unfolding queue_request
  request_lem q = either q.passive_declare
    where
      either :
          (p : Bool)
          → (if p
              then queue_declare_passive q.name q.durable q.auto_delete q.exclusive q.no_wait q.args
              else queue_declare q.name q.durable q.auto_delete q.exclusive q.no_wait q.args)
            ≡ declares p q.name q.durable q.auto_delete q.exclusive q.no_wait q.args
      either true = refl
      either false = refl

  -- The struct of a quorum queue with the given arguments.
  abbrev quorum_struct : Queue k → Args k → Queue k
  quorum_struct q args = record q {
    exclusive = false;
    durable = true;
    no_wait = false;
    auto_delete = false;
    args = args;
  }

  defaults_lem :
      (q : Queue k)
      → str_eq q.kind queue_type_quorum ≡ true
      → quorum_defaults k q ≡ quorum_struct q (or_queue_type k q.args q.kind)
  unfolding quorum_defaults
  defaults_lem q quorum = either (str_eq q.kind queue_type_quorum) quorum
    where
      either :
          (b : Bool)
          → b ≡ true
          → (if b then quorum_struct q (or_queue_type k q.args q.kind) else q)
            ≡ quorum_struct q (or_queue_type k q.args q.kind)
      either true h = refl
      either false h = absurd cc

  -- Its arguments, by what the caller gave.
  with_args :
      (q : Queue k) (args : Args k)
      → str_eq q.kind queue_type_quorum ≡ true
      → or_queue_type k q.args q.kind ≡ args
      → quorum_defaults k q ≡ quorum_struct q args
  with_args q args quorum same = defaults_lem q quorum ∙ ap (quorum_struct q) same

  -- A quorum queue without arguments is declared durable, not deleted automatically, not exclusive,
  -- with an answer awaited, and with its type in the arguments, whatever else the caller set; and a
  -- second use of the struct, changed by the first, declares the same.
  pub quorum_queue-declared :
      (q : Queue k)
      → str_eq q.kind queue_type_quorum ≡ true
      → q.args ≡ none
      → (queue_request k (quorum_defaults k q)
          ≡ declares q.passive_declare q.name true false false false
              (some (("x-queue-type", k.text_value q.kind) ∷ [])))
        × (queue_request k (quorum_defaults k (quorum_defaults k q))
            ≡ queue_request k (quorum_defaults k q))
  quorum_queue-declared q quorum bare =
      let typed = some (("x-queue-type", k.text_value q.kind) ∷ []) in
      let first : quorum_defaults k q ≡ quorum_struct q typed =
        with_args q typed quorum (ap (λ a. or_queue_type k a q.kind) bare) in
      (
        ap (queue_request k) first ∙ request_lem (quorum_struct q typed),
        ap (queue_request k) (
            ap (quorum_defaults k) first
            ∙ with_args (quorum_struct q typed) typed quorum refl
            ∙ sym first),
      )
