-- ===== src/Service/Collect.antt =====
-- collectConsumerErrors: the errors of the consumers go to the service's Go channel of errors. A
-- consumer is named by its place in the list.
use friendlyrabbit.Base.{
  ℕ, zero, suc, String, Bool, true, false, Option, none, some, List, [], ◌∷◌, Action, done, pure,
  waits, choose, length, ◌>>=◌, ◌>>◌,
}
use friendlyrabbit.Error.{Error}
use friendlyrabbit.Env.{Env}
use friendlyrabbit.Payload.Packages.{Packages}
use friendlyrabbit.Consumer.State.{Incoming, Consumer}
use friendlyrabbit.Service.State.{Service, Consumers, send_central}
use friendlyrabbit.Service.Stop.{meanwhile}
use friendlyrabbit.Service.Monitor.{rest_and}

module _ (e : Env) (k : Packages) (i : Incoming e k) (others : Service e k i → Service e k i) where
  abbrev pub received_from :
      String → Consumer e k i → List Error → Option Error × (String × Consumer e k i)
  received_from name c [] = (none, (name, c))
  received_from name c (x ∷ rest) = (some x, (name, record c { errors = rest }))

  -- The receive from the errors of the consumer at a place.
  unfoldable pub take_error : ℕ → Consumers e k i → Option Error × Consumers e k i
  take_error p [] = (none, [])
  take_error zero ((name, c) ∷ rest) =
      let (x, entry) = received_from name c c.errors in (x, entry ∷ rest)
  take_error (suc p) (entry ∷ rest) = let (x, rest') = take_error p rest in (x, entry ∷ rest')

  unfoldable pub poll_consumer : ℕ → Action (Service e k i) (Option Error)
  unfolding take_error
  poll_consumer p s =
      let (x, consumers) = take_error p s.consumers in done x (record s { consumers = consumers })

  unfoldable pub pass_on : Action (Service e k i) Bool → Option Error → Action (Service e k i) Bool
  pass_on again none = pure false
  pass_on again (some x) = do send_central e k i x; again

  -- IndividualConsumerLoop; whether the service has been shut down.
  unfoldable pub collect_consumer : ℕ → ℕ → Action (Service e k i) Bool
  unfolding poll_consumer pass_on
  collect_consumer zero p = waits
  collect_consumer (suc tries) p =
      let again = collect_consumer tries p in
      do
        meanwhile e k i others
        λ s. choose s.shutdown (pure true) (do x ← poll_consumer p; pass_on again x) s

  -- The consumers from a place on, as many as are given.
  unfoldable pub collect_each : ℕ → ℕ → ℕ → Action (Service e k i) Bool
  unfolding collect_consumer
  collect_each tries zero p = pure false
  collect_each tries (suc n) p =
      let next = collect_each tries n (suc p) in
      do shut ← collect_consumer tries p; choose shut (pure true) next

  unfoldable pub collect_consumer_errors : ℕ → ℕ → Action (Service e k i) (Unit {0})
  unfolding collect_each rest_and
  collect_consumer_errors tries zero = waits
  collect_consumer_errors tries (suc rounds) =
      let again = collect_consumer_errors tries rounds in
      do
        shut ← λ s. collect_each tries (length s.consumers) 0 s
        choose shut (pure tt) (rest_and e k i others again)
