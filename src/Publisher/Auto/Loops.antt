-- ===== src/Publisher/Auto/Loops.antt =====
-- The loops of the auto-publisher: how many run, how many goroutines they have, and the letters that
-- they hold.
use friendlyrabbit.Base.{
  Replace-total, Replace-All, ℕ, ◌+◌, ◌/◌, ◌≤◌, ◌≡◌, refl, sym, ap, ◌∙◌, ◌⊎◌, inl, inr, Bool, false,
  List, [], ◌∷◌, length, length-append, countp, countp-append, total, arith, All, if◌then◌else◌,
}
use friendlyrabbit.Config.{PoolConfig}
use friendlyrabbit.Env.{Env}
use friendlyrabbit.Payload.Packages.{Packages}
use friendlyrabbit.Message.Letter.{Letter}
use friendlyrabbit.Publisher.State.{Publisher}
use friendlyrabbit.Publisher.Queue.Ends.{safe_send-true, safe_send-false, start_lem}
use friendlyrabbit.Publisher.Auto.{
  Pc, holding, ended, Runner, slots, Event, received_by, finished_by, Move, break_outer, deliver,
  receive, receive_nil, idle, acquire, stop, go_on, leave, finish, System, Step, queue, refuse,
  start, ask_stop, signal, move, outside, IsFresh, system_of, Reach, begin, later,
}

module _ (e : Env) (k : Packages) where
  module _ (t : Letter k → Bool) where
    abbrev pub in_hand : Pc e k → List (Letter k)
    in_hand (holding l) = l ∷ []
    in_hand _ = []

    -- The letters that a loop and its goroutines have.
    abbrev pub carried : Runner e k → ℕ
    carried r = countp t (in_hand r.pc) + countp t r.workers

    Move-carried :
        {p p' : Publisher e k} {r r' : Runner e k} {ev : Event e k}
        → Move e k p r p' r' ev
        → carried r + countp t (received_by e k ev) ≡ carried r' + countp t (finished_by e k ev)
    Move-carried (break_outer h) = omega arith
    Move-carried (deliver h) = omega arith
    Move-carried (receive h) = omega arith
    Move-carried (receive_nil h c) = omega arith
    Move-carried (idle h c) = omega arith
    Move-carried (acquire h) = omega arith
    Move-carried (stop h) = omega arith
    Move-carried (go_on h) = omega arith
    Move-carried leave = omega arith
    Move-carried (finish {l = l} before after x pool a b c) = omega (
      arith,
      ap (countp t) a,
      ap (countp t) b,
      countp-append t before (l ∷ after),
      countp-append t before after,
    )

    Balanced : System e k → Type 0
    Balanced s = countp t s.received ≡ total carried s.runners + countp t s.finished

    Step-Balanced : {s u : System e k} → Step e k s u → Balanced s → Balanced u
    unfolding Balanced
    Step-Balanced (queue l h) inv = inv
    Step-Balanced (refuse l h) inv = inv
    Step-Balanced (start h) inv = omega arith
    Step-Balanced (ask_stop h) inv = inv
    Step-Balanced (signal h i) inv = inv
    Step-Balanced {s = s} (move {ev = ev} at m) inv = omega (
      arith,
      Replace-total carried at,
      Move-carried m,
      countp-append t s.received (received_by e k ev),
      countp-append t s.finished (finished_by e k ev),
    )
    Step-Balanced (outside pool receipts h) inv = inv

    -- From a new publisher, after any steps, for any test on letters: as many letters that pass it
    -- have been received by the loops as are in their hands or with their goroutines, or have had
    -- their publishing ended. So none is lost, and none is published twice.
    pub Reach-balanced :
        (p : Publisher e k) (s : System e k)
        → Reach e k (system_of e k p) s
        → countp t s.received ≡ total carried s.runners + countp t s.finished
    unfolding Balanced
    Reach-balanced p s begin = refl
    Reach-balanced p s (later r st) = Step-Balanced st (Reach-balanced p _ r)

  abbrev pub active : Pc e k → ℕ
  active ended = 0
  active _ = 1

  abbrev started : Publisher e k → ℕ
  started p = if p.auto_started then 1 else 0

  Move-active :
      {p p' : Publisher e k} {r r' : Runner e k} {ev : Event e k}
      → Move e k p r p' r' ev
      → ((active r'.pc ≡ active r.pc) × (p'.auto_started ≡ p.auto_started))
        ⊎ ((active r.pc ≡ 1) × (active r'.pc ≡ 0) × (p'.auto_started ≡ false))
  Move-active (break_outer h) = inl (refl, refl)
  Move-active (deliver h) = inl (refl, refl)
  Move-active (receive h) = inl (refl, refl)
  Move-active (receive_nil h c) = inl (refl, refl)
  Move-active (idle h c) = inl (refl, refl)
  Move-active (acquire h) = inl (refl, refl)
  Move-active (stop h) = inl (refl, refl)
  Move-active (go_on h) = inl (refl, refl)
  Move-active leave = inr (refl, refl, refl)
  Move-active (finish before after x pool a b c) = inl (refl, refl)

  running : System e k → ℕ
  running s = total (λ r. active r.pc) s.runners

  Single : System e k → Type 0
  Single s = running s ≡ started s.publisher

  Step-Single : {s u : System e k} → Step e k s u → Single s → Single u
  unfolding Single running
  Step-Single {s = s} (queue {p = p} l h) inv =
      let (_, same) = safe_send-true e k l s.publisher p h in inv ∙ sym (ap started same)
  Step-Single {s = s} (refuse {p = p} l h) inv =
      let (_, same) = safe_send-false e k l s.publisher p h in inv ∙ sym (ap started same)
  Step-Single {s = s} (start {p = p} h) inv =
      let (off, same) = start_lem e k s.publisher p h in ground (arith, ap started same)
  Step-Single (ask_stop h) inv = inv
  Step-Single (signal h i) inv = inv
  Step-Single (move at m) inv = ground (arith, Replace-total (λ r. active r.pc) at, Move-active m)
  Step-Single (outside pool receipts h) inv = inv

  -- From a new publisher, after any steps: one loop that has not ended if `autoStarted` is set, and
  -- none if it is not. So two loops never run at once, however often they are started and stopped.
  pub Reach-single :
      (p : Publisher e k) (s : System e k)
      → IsFresh e k p
      → Reach e k (system_of e k p) s
      → total (λ r. active r.pc) s.runners ≡ (if s.publisher.auto_started then 1 else 0)
  unfolding Single running
  Reach-single p s fresh begin = sym (ap (λ b. if b then 1 else 0) fresh.not_started)
  Reach-single p s fresh (later r st) = Step-Single st (Reach-single p _ fresh r)

  -- The goroutines of a loop fit its semaphore.
  abbrev Fits : ℕ → Runner e k → Type 0
  Fits n r = length r.workers ≤ n

  Move-slots :
      {p p' : Publisher e k} {r r' : Runner e k} {ev : Event e k}
      → Move e k p r p' r' ev
      → slots e k p' ≡ slots e k p
  Move-slots (break_outer h) = refl
  Move-slots (deliver h) = refl
  Move-slots (receive h) = refl
  Move-slots (receive_nil h c) = refl
  Move-slots (idle h c) = refl
  Move-slots (acquire h) = refl
  Move-slots (stop h) = refl
  Move-slots (go_on h) = refl
  Move-slots leave = refl
  Move-slots (finish before after x pool a b c) =
      ap (λ (g : PoolConfig). g.max_cache_channel_count / 2 + 1) c

  Move-Fits :
      {p p' : Publisher e k} {r r' : Runner e k} {ev : Event e k} {n : ℕ}
      → Move e k p r p' r' ev
      → slots e k p ≡ n
      → Fits n r
      → Fits n r'
  Move-Fits (break_outer h) q f = f
  Move-Fits (deliver h) q f = f
  Move-Fits (receive h) q f = f
  Move-Fits (receive_nil h c) q f = f
  Move-Fits (idle h c) q f = f
  Move-Fits (acquire h) q f = omega arith
  Move-Fits (stop h) q f = f
  Move-Fits (go_on h) q f = f
  Move-Fits leave q f = f
  Move-Fits (finish {l = l} before after x pool a b c) q f = omega (
    arith,
    ap (length {0}) a,
    ap (length {0}) b,
    length-append before (l ∷ after),
    length-append before after,
  )

  Bounded : ℕ → System e k → Type 0
  Bounded n s = (slots e k s.publisher ≡ n) × All (Fits n) s.runners

  Step-Bounded : (n : ℕ) {s u : System e k} → Step e k s u → Bounded n s → Bounded n u
  unfolding Bounded
  Step-Bounded n {s = s} (queue {p = p} l h) (q, f) =
      (ap (slots e k) (safe_send-true e k l s.publisher p h).1 ∙ q, f)
  Step-Bounded n {s = s} (refuse {p = p} l h) (q, f) =
      (ap (slots e k) (safe_send-false e k l s.publisher p h).1 ∙ q, f)
  Step-Bounded n {s = s} (start {p = p} h) (q, f) =
      (ap (slots e k) (start_lem e k s.publisher p h).1 ∙ q, (omega arith, f))
  Step-Bounded n (ask_stop h) inv = inv
  Step-Bounded n (signal h i) inv = inv
  Step-Bounded n (move at m) (q, f) = (Move-slots m ∙ q, Replace-All (Fits n) at (Move-Fits m q) f)
  Step-Bounded n (outside pool receipts h) (q, f) =
      (ap (λ (g : PoolConfig). g.max_cache_channel_count / 2 + 1) h ∙ q, f)

  Reach-Bounded :
      (p : Publisher e k) {s : System e k} → Reach e k (system_of e k p) s → Bounded (slots e k p) s
  unfolding Bounded
  Reach-Bounded p begin = (refl, tt)
  Reach-Bounded p (later r st) = Step-Bounded _ st (Reach-Bounded p r)

  -- From a new publisher, after any steps: no loop has more than MaxCacheChannelCount/2+1 letters
  -- that are being published, of the settings of the pool at the start.
  pub Reach-slots :
      (p : Publisher e k) (s : System e k)
      → Reach e k (system_of e k p) s
      → All (λ r. length r.workers ≤ p.pool.config.max_cache_channel_count / 2 + 1) s.runners
  unfolding Bounded
  Reach-slots p s r = (Reach-Bounded p r).1
