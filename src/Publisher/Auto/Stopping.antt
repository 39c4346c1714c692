-- ===== src/Publisher/Auto/Stopping.antt =====
-- What happens to the letters when the auto-publisher is stopped.
use mathlib.Core.List.{append-nil}
use friendlyrabbit.Base.{
  Replace-All, Replace-first, here, ◌≡◌, refl, ap, ◌∙◌, true, false, List, [], ◌∷◌, ◌++◌, leb,
  length, All,
}
use friendlyrabbit.Env.{Env}
use friendlyrabbit.Payload.Packages.{Packages}
use friendlyrabbit.Message.Letter.{Letter}
use friendlyrabbit.Publisher.State.{Publisher}
use friendlyrabbit.Publisher.Queue.{stop_auto_publish}
use friendlyrabbit.Publisher.Queue.Ends.{
  start_off, safe_send_open, safe_send-true, safe_send-false, start_lem,
}
use friendlyrabbit.Publisher.Auto.{
  Pc, holding, checking, ended, Runner, Event, received_by, Move, break_outer, deliver, receive,
  receive_nil, idle, acquire, stop, go_on, leave, finish, System, Step, queue, refuse, start,
  ask_stop, signal, move, outside, IsFresh, system_of, Reach, begin, later,
}

module _ (e : Env) (k : Packages) where
  abbrev Closed : Publisher e k → Type 0
  Closed p = p.letters_closed ≡ true

  Move-Closed :
      {p p' : Publisher e k} {r r' : Runner e k} {ev : Event e k}
      → Move e k p r p' r' ev
      → Closed p
      → Closed p'
  Move-Closed (break_outer h) c = c
  Move-Closed (deliver h) c = c
  Move-Closed (receive h) c = c
  Move-Closed (receive_nil h d) c = c
  Move-Closed (idle h d) c = c
  Move-Closed (acquire h) c = c
  Move-Closed (stop h) c = refl
  Move-Closed (go_on h) c = c
  Move-Closed leave c = c
  Move-Closed (finish before after x pool a b d) c = c

  -- A step from a state in which the channel of letters is closed.
  Shut : System e k → System e k → Type 0
  Shut s u = Closed u.publisher × (u.accepted ≡ s.accepted)

  Step-Shut : {s u : System e k} → Step e k s u → Closed s.publisher → Shut s u
  unfolding Shut
  Step-Shut {s = s} (queue {p = p} l h) c = absurd (both (safe_send-true e k l s.publisher p h).0)
    where
      both : s.publisher.letters_closed ≡ false → ⊥
      both d = cc
  Step-Shut {s = s} (refuse {p = p} l h) c = (
    ap (λ (q : Publisher e k). q.letters_closed) (safe_send-false e k l s.publisher p h).1 ∙ c,
    refl,
  )
  Step-Shut {s = s} (start {p = p} h) c =
      (ap (λ (q : Publisher e k). q.letters_closed) (start_lem e k s.publisher p h).1 ∙ c, refl)
  Step-Shut (ask_stop h) c = (c, refl)
  Step-Shut (signal h i) c = (c, refl)
  Step-Shut (move at m) c = (Move-Closed m c, refl)
  Step-Shut (outside pool receipts h) c = (c, refl)

  -- Once a loop has closed the channel of letters, it stays closed and QueueLetter accepts no letter
  -- again, whatever else happens, a new start of the auto-publisher included.
  pub Reach-closed :
      (s u : System e k)
      → s.publisher.letters_closed ≡ true
      → Reach e k s u
      → (u.publisher.letters_closed ≡ true) × (u.accepted ≡ s.accepted)
  unfolding Shut
  Reach-closed s u c begin = (c, refl)
  Reach-closed s u c (later {t = t} r st) =
      let (d, same) = Reach-closed s t c r in let (d', same') = Step-Shut st d in (d', same' ∙ same)

  -- A loop that holds no letter and is not between two rounds of deliverLetters.
  abbrev pub AtReceive : Pc e k → Type 0
  AtReceive (holding l) = ⊥
  AtReceive checking = ⊥
  AtReceive _ = Unit {0}

  -- The channel of letters is closed and empty, and no loop is past its first `select`.
  abbrev pub Exhausted : System e k → Type 0
  Exhausted s =
      (s.publisher.letters_closed ≡ true)
      × (s.publisher.letters ≡ [])
      × All (λ r. AtReceive r.pc) s.runners

  Move-Exhausted :
      {p p' : Publisher e k} {r r' : Runner e k} {ev : Event e k}
      → Move e k p r p' r' ev
      → p.letters_closed ≡ true
      → p.letters ≡ []
      → AtReceive r.pc
      → (p'.letters ≡ []) × AtReceive r'.pc × (received_by e k ev ≡ [])
  Move-Exhausted (break_outer h) c n at = (n, tt, refl)
  Move-Exhausted (deliver h) c n at = (n, tt, refl)
  Move-Exhausted (receive h) c n at = absurd cc
  Move-Exhausted (receive_nil h d) c n at = (n, tt, refl)
  Move-Exhausted (idle h d) c n at = absurd cc
  Move-Exhausted (acquire h) c n at = absurd at
  Move-Exhausted (stop h) c n at = absurd at
  Move-Exhausted (go_on h) c n at = absurd at
  Move-Exhausted leave c n at = (n, tt, refl)
  Move-Exhausted (finish before after x pool a b d) c n at = (n, at, refl)

  Step-Exhausted :
      {s u : System e k} → Step e k s u → Exhausted s → Exhausted u × (u.received ≡ s.received)
  Step-Exhausted {s = s} (queue {p = p} l h) (c, n, at) =
      absurd (both (safe_send-true e k l s.publisher p h).0)
    where
      both : s.publisher.letters_closed ≡ false → ⊥
      both d = cc
  Step-Exhausted {s = s} (refuse {p = p} l h) (c, n, at) =
      let (_, same) = safe_send-false e k l s.publisher p h in
      (
        (
          ap (λ (q : Publisher e k). q.letters_closed) same ∙ c,
          ap (λ (q : Publisher e k). q.letters) same ∙ n,
          at,
        ),
        refl,
      )
  Step-Exhausted {s = s} (start {p = p} h) (c, n, at) =
      let (_, same) = start_lem e k s.publisher p h in
      (
        (
          ap (λ (q : Publisher e k). q.letters_closed) same ∙ c,
          ap (λ (q : Publisher e k). q.letters) same ∙ n,
          (tt, at),
        ),
        refl,
      )
  Step-Exhausted (ask_stop h) inv = (inv, refl)
  Step-Exhausted (signal h i) inv = (inv, refl)
  Step-Exhausted {s = s} (move {p = p} place m) (c, n, at) =
      let (n', at', no_more) =
        Move-Exhausted m c n (Replace-first (λ r. AtReceive r.pc) place at) in
      (
        (Move-Closed m c, n', Replace-All (λ r. AtReceive r.pc) place (λ _. at') at),
        ap (λ ls. s.received ++ ls) no_more ∙ append-nil s.received,
      )
  Step-Exhausted (outside pool receipts h) inv = (inv, refl)

  -- When the channel of letters has been closed and emptied, and no loop is past its first
  -- `select`, no letter is ever received again, whatever is done: also a loop that is started anew
  -- receives nothing but nil.
  pub Reach-Exhausted :
      (s u : System e k) → Exhausted s → Reach e k s u → Exhausted u × (u.received ≡ s.received)
  Reach-Exhausted s u x begin = (x, refl)
  Reach-Exhausted s u x (later {t = t} r st) =
      let (y, same) = Reach-Exhausted s t x r in
      let (z, same') = Step-Exhausted st y in (z, same' ∙ same)

  -- The publisher after the run below.
  abbrev stranded : Publisher e k → Letter k → Publisher e k
  stranded p l = record p {
    letters = p.letters ++ (l ∷ []);
    letters_closed = true;
    auto_stop = [];
    auto_started = false;
  }

  -- There is a run in which a letter that QueueLetter has accepted is left behind: it is queued
  -- while the loop sleeps, and the stop is seen before the next receive. The channel is closed then
  -- with the letter in it, no loop is left, and the letter has not been received.
  pub stop-strands :
      (p : Publisher e k) (l : Letter k)
      → IsFresh e k p
      → (s : System e k) × Reach e k (system_of e k p) s
        × (s.accepted ≡ l ∷ [])
        × (s.received ≡ [])
        × (s.publisher.letters ≡ l ∷ [])
        × (s.publisher.letters_closed ≡ true)
        × (s.publisher.auto_started ≡ false)
  stop-strands p l fresh = (
    record {
      publisher = stranded p l;
      runners = record { pc = ended; workers = [] } ∷ [];
      signals = 0;
      accepted = l ∷ [];
      received = [];
      finished = [];
    },
    later
        (later
          (later
            (later
              (later
                (later
                  (later (later begin (start (start_off e k p fresh.not_started)))
                    (move here (deliver fresh.no_stop)))
                  (move here (idle fresh.no_letters fresh.is_open)))
                (ask_stop asked))
              (signal refl fresh.no_stop))
            (queue l (safe_send_open e k l _ fresh.is_open room)))
          (move here (stop refl)))
        (move here leave),
    refl,
    refl,
    ap (λ ls. ls ++ (l ∷ [])) fresh.no_letters,
    refl,
    refl,
  )
    where
      room : leb 1000 (length p.letters) ≡ false
      room = ap (λ (ls : List (Letter k)). leb 1000 (length ls)) fresh.no_letters

      asked : stop_auto_publish e k (record p { auto_started = true }) ≡ true
      asked = unfold stop_auto_publish in refl
