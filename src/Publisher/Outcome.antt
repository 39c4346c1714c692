-- ===== src/Publisher/Outcome.antt =====
-- What the package amqp documents of confirmations, and what a result of PublishWithConfirmation rests
-- on.
use friendlyrabbit.Base.{ℕ, ◌/◌, ◌≡◌, ◌⊎◌, String, Bool, true, false, Option, none, some}
use friendlyrabbit.Error.{Error, confirmation_cancel, confirmation_timeout, ok}
use friendlyrabbit.Env.{Env}
use friendlyrabbit.Payload.Packages.{Packages}
use friendlyrabbit.Message.Letter.{Letter}
use friendlyrabbit.Pool.Connection.{millisecond}
use friendlyrabbit.Pool.Steady.{IsPresent}
use friendlyrabbit.Publisher.State.{cancelled, timed_out, Broker, Publishing, publishing_of}

module _ (e : Env) (k : Packages) (b : Broker e k) where
  -- The package amqp gives a confirmation of what is published on a channel in confirm mode, if the
  -- publish has no error.
  pub record IsConfirming : Type 0 where
    pub gives :
        (c : e.Channel) (p : Publishing k) (n m : e.Net) (o : Option b.Confirmation)
        → (e.confirm c false n).0 ≡ none
        → (b.publish_deferred c p m).0 ≡ ok o
        → IsPresent o

  -- The confirmation is of a publish of the letter.
  abbrev pub IsOf : String → Letter k → b.Confirmation → Type 0
  IsOf app l d =
      (c : e.Channel) × (n : e.Net) × ((b.publish_deferred c (publishing_of e k app l) n).0
        ≡ ok (some d))

  -- What a result rests on, of a letter and a timeout: success on an acknowledgement by the broker of
  -- a publish of the letter; an error on the end of the wait for a confirmation of one.
  abbrev pub IsOutcome : String → Letter k → ℕ → Option Error → Type 0
  IsOutcome app l timeout none =
      (d : b.Confirmation) × IsOf app l d × (n : e.Net) × ((b.acked d n).0 ≡ true)
  IsOutcome app l timeout (some x) =
      (d : b.Confirmation) × IsOf app l d
      × (n : e.Net) × ((((b.wait l.opts.ctx timeout d n).0 ≡ cancelled)
            × (x ≡ confirmation_cancel (k.uuid_string l.letter_id)))
          ⊎ (((b.wait l.opts.ctx timeout d n).0 ≡ timed_out)
              × (x ≡ confirmation_timeout (timeout / millisecond) (k.uuid_string l.letter_id))))

  -- The same, of what the wait for a confirmation gives; a nack gives no result.
  abbrev pub IsWoken : String → Letter k → ℕ → Bool × Option Error → Type 0
  IsWoken app l timeout (false, none) = Unit {0}
  IsWoken app l timeout (true, none) = IsOutcome app l timeout none
  IsWoken app l timeout (acked, some x) = IsOutcome app l timeout (some x)
