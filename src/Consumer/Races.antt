-- ===== src/Consumer/Races.antt =====
-- The lock of the consumer and its field `started`, in runs of its loops and callers.
use friendlyrabbit.Base.{
  ◌≡◌, refl, ◌∙◌, ◌⊎◌, inl, inr, Bool, true, false, [], ◌∷◌, All, done, here, there, Replace-first,
}
use friendlyrabbit.Env.{Env}
use friendlyrabbit.Payload.Packages.{Packages}
use friendlyrabbit.Consumer.State.{Incoming, Consumer}
use friendlyrabbit.Consumer.Control.{stop_consuming, flush_stop}
use friendlyrabbit.Consumer.Promises.{start_consuming_lem, stop_consuming-outcome}
use friendlyrabbit.Consumer.Life.{
  Phase, running, leaving, over, System, Step, start, stop, stop_waits, stop_goes, break_loop,
  leave, flush_direct, outside, system_of, Reach, begin, later,
}

abbrev IsIdle : Phase → Type 0
IsIdle running = ⊥
IsIdle leaving = Unit {0}
IsIdle over = Unit {0}

module _ (e : Env) (k : Packages) (i : Incoming e k) where
  -- A StopConsuming holds the lock and waits for room in the channel of the stop, which holds a
  -- signal, and no loop is left to take it.
  abbrev pub IsDeadlocked : System e k i → Type 0
  IsDeadlocked s = (s.waiting ≡ true) × (s.consumer.consume_stop ≡ true ∷ []) × All IsIdle s.loops

  -- A call of FlushStop, which changes nothing but the channel of the stop.
  abbrev pub IsFlushed : System e k i → System e k i → Type 0
  IsFlushed s u =
      (flush_stop e k i s.consumer ≡ done tt u.consumer) × (u.loops ≡ s.loops) × (u.waiting ≡ true)

  Step-IsDeadlocked :
      {s u : System e k i}
      → Step e k i s u
      → IsDeadlocked s
      → (IsDeadlocked u × (u.loops ≡ s.loops)) ⊎ IsFlushed s u
  Step-IsDeadlocked (start h same) (w, full, idle) = absurd cc
  Step-IsDeadlocked (stop flush h same) (w, full, idle) = absurd cc
  Step-IsDeadlocked (stop_waits flush h same) (w, full, idle) = absurd cc
  Step-IsDeadlocked (stop_goes flush h empty) (w, full, idle) = absurd cc
  Step-IsDeadlocked (break_loop place h) (w, full, idle) = absurd (Replace-first IsIdle place idle)
  Step-IsDeadlocked (leave place h) (w, full, idle) = absurd cc
  Step-IsDeadlocked (flush_direct same) (w, full, idle) = inr (same, refl, w)
  Step-IsDeadlocked (outside c same_stop same_started) (w, full, idle) =
      inl ((w, same_stop ∙ full, idle), refl)

  -- A run from `s` to `u` calls FlushStop in a deadlock, until which nothing was changed.
  abbrev pub Flushes : System e k i → System e k i → Type 0
  Flushes s u =
      (t v : System e k i) × Reach e k i s t
      × IsDeadlocked t
      × (t.loops ≡ s.loops)
      × IsFlushed t v
      × Reach e k i v u

  -- Where a StopConsuming holds the lock and waits to send, with a signal already in the channel, and
  -- no loop is before its end, it stays so in every run, whatever is done, until somebody calls
  -- FlushStop: the lock is not given back, and no loop that waits for the lock ends.
  pub Reach-IsDeadlocked :
      (s u : System e k i)
      → IsDeadlocked s
      → Reach e k i s u
      → (IsDeadlocked u × (u.loops ≡ s.loops)) ⊎ Flushes s u
  Reach-IsDeadlocked s u d begin = inl (d, refl)
  Reach-IsDeadlocked s u d (later {t = t} r st) = elim (Reach-IsDeadlocked s t d r) [
    | inl (d', same) ↦ elim (Step-IsDeadlocked st d') [
      | inl (d'', same') ↦ inl (d'', same' ∙ same)
      | inr flushed ↦ inr (t, u, r, d', same, flushed, begin)
    ]
    | inr (t', v, before, d', same, flushed, after) ↦
        inr (t', v, before, d', same, flushed, later after st)
  ]

  abbrev begun : Consumer e k i → Consumer e k i
  begun c = record c { errors = []; consume_stop = []; started = true }

  abbrev asked : Consumer e k i → Consumer e k i
  asked c = record (begun c) { consume_stop = true ∷ [] }

  -- From any consumer such a state is reached, with the loop waiting for the lock, by one
  -- StartConsuming and three calls of StopConsuming, the last two of which come after the loop has
  -- taken the first signal and before it has taken the lock.
  pub stop-IsDeadlocked :
      (c : Consumer e k i)
      → (s : System e k i) × Reach e k i (system_of e k i c) s
        × IsDeadlocked s
        × (s.loops ≡ leaving ∷ [])
        × (s.consumer.started ≡ true)
  stop-IsDeadlocked c = (
    record { consumer = asked c; loops = leaving ∷ []; waiting = true },
    later
        (later
          (later
            (later (later begin (start refl (start_consuming_lem e k i c)))
              (stop false refl (stop_consuming-outcome e k i false (begun c))))
            (break_loop here refl))
          (stop false refl (stop_consuming-outcome e k i false (begun c))))
        (stop_waits false refl (stop_consuming-outcome e k i false (asked c))),
    (refl, refl, (tt, tt)),
    refl,
    refl,
  )

  -- From any consumer a state is reached, by two calls of StartConsuming and one of StopConsuming, in
  -- which a loop runs, the consumer is marked as not started, and StopConsuming does nothing.
  pub start-orphans :
      (c : Consumer e k i) (flush : Bool)
      → (s : System e k i) × Reach e k i (system_of e k i c) s
        × (s.loops ≡ running ∷ (over ∷ []))
        × (s.consumer.started ≡ false)
        × (stop_consuming e k i flush s.consumer ≡ done tt s.consumer)
  start-orphans c flush = (
    record {
      consumer = record (begun c) { started = false };
      loops = running ∷ (over ∷ []);
      waiting = false;
    },
    later
        (later
          (later
            (later (later begin (start refl (start_consuming_lem e k i c)))
              (start refl (start_consuming_lem e k i (begun c))))
            (stop false refl (stop_consuming-outcome e k i false (begun c))))
          (break_loop (there here) refl))
        (leave (there here) refl),
    refl,
    refl,
    stop_consuming-outcome e k i flush (record (begun c) { started = false }),
  )
