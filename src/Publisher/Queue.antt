-- ===== src/Publisher/Queue.antt =====
-- Queueing letters, and starting and stopping the auto-publisher, of publisher.go.
pub mod Ends
use friendlyrabbit.Base.{
  ℕ, Bool, true, false, List, [], ◌∷◌, ◌++◌, Action, done, stuck, pure, choose, length, leb, ◌>>=◌,
  ◌>>◌, if◌then◌else◌,
}
use friendlyrabbit.Env.{Env}
use friendlyrabbit.Payload.Packages.{Packages}
use friendlyrabbit.Message.Letter.{Letter}
use friendlyrabbit.Pool.Start.{shutdown}
use friendlyrabbit.Publisher.State.{Publisher, on_pool}

-- make(chan *Letter, 1000)
abbrev pub letters_capacity : ℕ
letters_capacity = 1000

module _ (e : Env) (k : Packages) where
  -- A send on the closed channel panics, which is recovered; one on a full channel waits.
  unfoldable pub safe_send : Letter k → Action (Publisher e k) Bool
  safe_send l s =
      if s.letters_closed
      then done false s
      else if leb letters_capacity (length s.letters)
      then stuck
      else done true (record s { letters = s.letters ++ (l ∷ []) })

  unfoldable pub queue_letter : Letter k → Action (Publisher e k) Bool
  unfolding safe_send
  queue_letter l = safe_send l

  unfoldable pub queue_letters : List (Letter k) → Action (Publisher e k) Bool
  unfolding safe_send
  queue_letters [] = pure true
  queue_letters (l ∷ ls) =
      let rest = queue_letters ls in do sent ← safe_send l; choose sent rest (pure false)

  -- Whether the goroutine of the loop is started.
  unfoldable pub start_auto_publishing : Publisher e k → Bool × Publisher e k
  start_auto_publishing s =
      if s.auto_started then (false, s) else (true, record s { auto_started = true })

  -- Whether a goroutine is started that sends the signal.
  unfoldable pub stop_auto_publish : Publisher e k → Bool
  stop_auto_publish s = s.auto_started

  -- The goroutine of the signal is the result's; it sends on its own.
  unfoldable pub shutdown_publisher : ℕ → Bool → Action (Publisher e k) Bool
  unfolding stop_auto_publish
  shutdown_publisher rounds shutdown_pools s =
      choose shutdown_pools (do on_pool e k (shutdown e rounds); pure (stop_auto_publish s))
        (pure (stop_auto_publish s)) s
