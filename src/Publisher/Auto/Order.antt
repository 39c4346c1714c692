-- ===== src/Publisher/Auto/Order.antt =====
-- The order of the letters, from QueueLetter to the loops of the auto-publisher.
use friendlyrabbit.Base.{◌≡◌, refl, sym, ap, ◌∙◌, [], ◌∷◌, ◌++◌}
use mathlib.Core.List.{append_assoc}
use friendlyrabbit.Env.{Env}
use friendlyrabbit.Payload.Packages.{Packages}
use friendlyrabbit.Publisher.State.{Publisher}
use friendlyrabbit.Publisher.Queue.Ends.{safe_send-true, safe_send-false, start_lem}
use friendlyrabbit.Publisher.Auto.{
  Runner, Event, received_by, Move, break_outer, deliver, receive, receive_nil, idle, acquire, stop,
  go_on, leave, finish, System, Step, queue, refuse, start, ask_stop, signal, move, outside,
  IsFresh, system_of, Reach, begin, later,
}

module _ (e : Env) (k : Packages) where
  Move-letters :
      {p p' : Publisher e k} {r r' : Runner e k} {ev : Event e k}
      → Move e k p r p' r' ev
      → p.letters ≡ received_by e k ev ++ p'.letters
  Move-letters (break_outer h) = refl
  Move-letters (deliver h) = refl
  Move-letters (receive h) = h
  Move-letters (receive_nil h c) = refl
  Move-letters (idle h c) = refl
  Move-letters (acquire h) = refl
  Move-letters (stop h) = refl
  Move-letters (go_on h) = refl
  Move-letters leave = refl
  Move-letters (finish before after x pool a b c) = refl

  -- The letters received by a loop, in this order, and then those in the channel.
  InOrder : System e k → Type 0
  InOrder s = s.accepted ≡ s.received ++ s.publisher.letters

  Step-InOrder : {s t : System e k} → Step e k s t → InOrder s → InOrder t
  unfolding InOrder
  Step-InOrder {s = s} (queue {p = p} l h) inv =
      let (_, same) = safe_send-true e k l s.publisher p h in
      ap (λ ls. ls ++ (l ∷ [])) inv
      ∙ append_assoc s.received s.publisher.letters (l ∷ [])
      ∙ sym (ap (λ (q : Publisher e k). s.received ++ q.letters) same)
  Step-InOrder {s = s} (refuse {p = p} l h) inv =
      let (_, same) = safe_send-false e k l s.publisher p h in
      inv ∙ sym (ap (λ (q : Publisher e k). s.received ++ q.letters) same)
  Step-InOrder {s = s} (start {p = p} h) inv =
      let (_, same) = start_lem e k s.publisher p h in
      inv ∙ sym (ap (λ (q : Publisher e k). s.received ++ q.letters) same)
  Step-InOrder (ask_stop h) inv = inv
  Step-InOrder (signal h i) inv = inv
  Step-InOrder {s = s} (move {p = p} {ev = ev} at m) inv =
      inv
      ∙ ap (◌++◌ s.received) (Move-letters m)
      ∙ sym (append_assoc s.received (received_by e k ev) p.letters)
  Step-InOrder (outside pool receipts h) inv = inv

  -- From a new publisher, after any steps: the letters for which QueueLetter has returned true are
  -- those that the loops have received and those in the channel, in the order in which they were
  -- queued, none lost and none doubled.
  pub Reach-order :
      (p : Publisher e k) (s : System e k)
      → IsFresh e k p
      → Reach e k (system_of e k p) s
      → s.accepted ≡ s.received ++ s.publisher.letters
  unfolding InOrder
  Reach-order p s fresh begin = sym fresh.no_letters
  Reach-order p s fresh (later r st) = Step-InOrder st (Reach-order p _ fresh r)
