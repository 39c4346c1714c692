-- ===== src/Sample/Queueing.antt =====
-- The auto-publisher on the sample world.
use friendlyrabbit.Base.{
  here, ◌≡◌, ◌≤◌, refl, true, false, none, [], ◌∷◌, ◌++◌, All, countp, total, length, ◌+◌, arith,
}
use friendlyrabbit.Message.Letter.{Letter, receipt_of}
use friendlyrabbit.Publisher.State.{new_publisher}
use friendlyrabbit.Publisher.Queue.{safe_send, start_auto_publishing}
use friendlyrabbit.Publisher.Auto.{
  receiving, IsFresh, System, Reach, begin, later, start, queue, move, deliver, receive, acquire,
  finish, system_of, refuse, failing, receive_nil,
}
use friendlyrabbit.Publisher.Auto.Order.{Reach-order}
use friendlyrabbit.Publisher.Auto.Loops.{active, carried, Reach-balanced, Reach-single, Reach-slots}
use friendlyrabbit.Publisher.Auto.Stopping.{Reach-closed, stop-strands}
use friendlyrabbit.Sample.{env, packages, pool, publisher, letter}

fresh : IsFresh env packages publisher
unfolding new_publisher
fresh = record { no_letters = refl; is_open = refl; no_stop = refl; not_started = refl }

abbrev second : Letter packages
second = record letter { letter_id = 2 }

-- The loop is started, two letters are queued and received, and the first is published.
abbrev busy : System env packages
unfolding new_publisher
busy = record {
  publisher = record publisher {
    auto_started = true;
    publish_receipts = receipt_of packages letter none ∷ [];
  };
  runners = record { pc = receiving; workers = second ∷ [] } ∷ [];
  signals = 0;
  accepted = letter ∷ (second ∷ []);
  received = letter ∷ (second ∷ []);
  finished = letter ∷ [];
}

busy_lem : Reach env packages (system_of env packages publisher) busy
unfolding new_publisher safe_send start_auto_publishing
busy_lem =
    later
      (later
        (later
          (later
            (later
              (later
                (later (later (later begin (start refl)) (queue letter refl)) (queue second refl))
                (move here (deliver refl)))
              (move here (receive refl)))
            (move here (acquire (omega arith))))
          (move here (receive refl)))
        (move here (finish [] [] none pool refl refl refl)))
      (move here (acquire (omega arith)))

Reach-order_example : letter ∷ (second ∷ []) ≡ (letter ∷ (second ∷ [])) ++ []
unfolding new_publisher
Reach-order_example = Reach-order env packages publisher busy fresh busy_lem

Reach-balanced_example :
    countp (λ l. true) busy.received
    ≡ total (carried env packages (λ l. true)) busy.runners + countp (λ l. true) busy.finished
Reach-balanced_example = Reach-balanced env packages (λ l. true) publisher busy busy_lem

Reach-single_example : total (λ r. active env packages r.pc) busy.runners ≡ 1
unfolding busy
Reach-single_example = Reach-single env packages publisher busy fresh busy_lem

Reach-slots_example : All (λ r. length r.workers ≤ 2) busy.runners
unfolding new_publisher
Reach-slots_example = Reach-slots env packages publisher busy busy_lem

-- A publisher whose loop has been stopped, and which is started again.
abbrev shut : System env packages
shut = record (system_of env packages (record publisher { letters_closed = true })) {
  accepted = letter ∷ [];
  received = letter ∷ [];
}

abbrev restarted : System env packages
restarted = record shut {
  publisher = record publisher { letters_closed = true; auto_started = true };
  runners = record { pc = failing; workers = [] } ∷ [];
}

restarted_lem : Reach env packages shut restarted
unfolding new_publisher safe_send start_auto_publishing
restarted_lem =
    later (later (later (later begin (start refl)) (refuse second refl)) (move here (deliver refl)))
      (move here (receive_nil refl refl))

Reach-closed_example : (true ≡ true) × (letter ∷ [] ≡ letter ∷ [])
Reach-closed_example = Reach-closed env packages shut restarted refl restarted_lem

stop-strands_example :
    (s : System env packages) × Reach env packages (system_of env packages publisher) s
    × (s.accepted ≡ letter ∷ [])
    × (s.received ≡ [])
    × (s.publisher.letters ≡ letter ∷ [])
    × (s.publisher.letters_closed ≡ true)
    × (s.publisher.auto_started ≡ false)
stop-strands_example = stop-strands env packages publisher letter fresh
