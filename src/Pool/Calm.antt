-- ===== src/Pool/Calm.antt =====
-- A calm world: nothing is wrong with any connection. The health check of a host returns then, after
-- one round of each of its loops.
pub mod Opening
pub mod Promises
use friendlyrabbit.Base.{
  ℕ, suc, ◌<◌, ◌≡◌, refl, Bool, true, false, not, Option, none, some, Any, Action, Total,
  Total-pure, Total-choose, Total-bind, Total-then, choose, choose-true, pure, ap, ltb, done, panic,
  Returns,
}
use friendlyrabbit.Error.{Error, AmqpError, Result, ok, err, Poll, idle}
use friendlyrabbit.Env.{Env}
use friendlyrabbit.Pool.State.{ConnectionHost, Handler, Pool, call, load, the}
use friendlyrabbit.Pool.Connection.{
  is_open, connect_host, connect_with_error_handler, after_poll, poll_then, pause_round,
  pause_on_flow_control, reconnect,
}
use friendlyrabbit.Pool.Recovery.{
  connect_until_up, try_connect, after_flush, flush_errors, trigger_connection_recovery, health,
  is_dead, check_health, recover_if, verify_healthy_connection, unflag_connection,
}
use friendlyrabbit.Pool.Steady.{Steady, Hosts, IsPresent, Keeps-call, IsConnected, id_of}
use friendlyrabbit.Pool.Steady.Recovery.{unflag_connection-Keeps}

module _ (e : Env) where
  -- No connection is closed, no notice has come, and the broker does not block.
  pub record IsCalm : Type 0 where
    pub is_up : (c : e.Connection) (n : e.Net) → (e.is_closed c n).0 ≡ false
    pub no_notices : (c : e.Notices) (n : e.Net) → (e.poll_notices c n).0 ≡ idle
    pub no_blocking : (c : e.Blockers) (n : e.Net) → (e.poll_blockers c n).0 ≡ idle

module _ (e : Env) (r : Pool e) where
  -- Returns, and keeps the pool steady.
  abbrev pub Answers : {A : Type 0} → (A → Type 0) → Action (Pool e) A → Type 0
  Answers Q m = Total (Steady e r) Q m

  pub Total-call :
      {A : Type 0} (Q : A → Type 0) (f : e.Net → A × e.Net)
      → ((n : e.Net) → Q (f n).0)
      → Answers Q (call e f)
  unfolding call
  Total-call Q f h = record { returns = λ s st. (h s.net, ((Keeps-call e r f).holds s st).1) }

  pub Total-load : (p : ℕ) → p < r.next_host → Answers (Hosts e r p) (load e p)
  unfolding load
  Total-load p lt = record { returns = λ s st. found s st (s.hosts p) (st.live p lt) (st.ids p lt) }
    where
      found :
          (s : Pool e)
          → Steady e r s
          → (o : Option (ConnectionHost e)) → IsConnected e o
          → id_of e o ≡ id_of e (r.hosts p)
          → Returns
              (λ h t. Hosts e r p h × Steady e r t)
              (elim o [ none ↦ panic s | some h ↦ done h s ])
      found s st none c i = absurd c
      found s st (some h) c i = ((c, i), st)

  pub Total-the : {A : Type 0} (o : Option A) → IsPresent o → Answers Any (the o)
  unfolding the
  Total-the none c = absurd c
  Total-the (some a) c = record { returns = λ s st. (tt, st) }

module _ (e : Env) (r : Pool e) (calm : IsCalm e) where
  is_open-up : (c : Option e.Connection) → IsPresent c → Answers e r (λ up. up ≡ true) (is_open e c)
  unfolding is_open
  is_open-up none present = absurd present
  is_open-up (some c) present =
      Total-bind (λ b. b ≡ false) _ _ _ (Total-call e r _ _ (calm.is_up c))
        (λ shut q. Total-pure _ (not shut) (ap not q))

  connect_host-up :
      (p : ℕ) (h : ConnectionHost e) (handler : Handler e)
      → IsPresent h.connection
      → Answers e r (λ up. up ≡ true) (connect_host e p h handler)
  unfolding connect_host
  connect_host-up p h handler present =
      Total-bind (λ up. up ≡ true) _ _ _ (is_open-up h.connection present)
        λ up q. rw (choose-true up _ _ q) (Total-pure _ true refl)

  try_connect-up : (p : ℕ) → p < r.next_host → Answers e r (λ up. up ≡ true) (try_connect e p)
  unfolding try_connect connect_with_error_handler
  try_connect-up p lt = record {
    returns = λ s st.
        (Total-bind (Hosts e r p) (λ up. up ≡ true) _ _ (Total-load e r p lt)
            (λ h known. connect_host-up p h s.unhealthy_handler known.0)).returns
          s st;
  }

  connect_until_up-Answers :
      (rounds p : ℕ) → p < r.next_host → Answers e r Any (connect_until_up e (suc rounds) p)
  unfolding connect_until_up
  connect_until_up-Answers rounds p lt =
      Total-bind (λ up. up ≡ true) _ _ _ (try_connect-up p lt)
        λ up q. rw (choose-true up _ _ q) (Total-pure Any tt tt)

  unflag-Answers : (id : ℕ) → Answers e r Any (unflag_connection e id)
  unfolding unflag_connection
  unflag-Answers id = record { returns = λ s st. (unflag_connection-Keeps e r id).holds s st }

  flush_errors-Answers :
      (rounds p : ℕ) → p < r.next_host → Answers e r Any (flush_errors e (suc rounds) p)
  unfolding flush_errors after_flush
  flush_errors-Answers rounds p lt =
      Total-bind (Hosts e r p) Any _ _ (Total-load e r p lt) λ h known.
        Total-bind (λ x. x ≡ idle) Any _ _ (Total-call e r _ _ (calm.no_notices h.errors))
          λ x q. rw q (unflag-Answers h.connection_id)

  pause_on_flow_control-Answers :
      (rounds p : ℕ) → p < r.next_host → Answers e r Any (pause_on_flow_control e (suc rounds) p)
  unfolding pause_on_flow_control pause_round poll_then after_poll
  pause_on_flow_control-Answers rounds p lt =
      Total-bind (Hosts e r p) Any _ _ (Total-load e r p lt) λ h known.
        Total-bind Any Any _ _ (Total-the e r h.connection known.0) λ c _.
          Total-bind Any Any _ _ (Total-call e r Any _ (λ n. tt)) λ shut _.
            Total-choose Any shut _ _ (Total-pure Any tt tt) (
              Total-bind (λ x. x ≡ idle) Any _ _ (Total-call e r _ _ (calm.no_blocking h.blockers))
                (λ x q. rw q (Total-pure Any tt tt)))

  is_dead-Answers :
      (h : ConnectionHost e) (flagged healthy : Bool)
      → IsPresent h.connection
      → Answers e r Any (is_dead e h flagged healthy)
  unfolding is_dead
  is_dead-Answers h true healthy present = Total-pure Any true tt
  is_dead-Answers h false false present = Total-pure Any true tt
  is_dead-Answers h false true present =
      Total-bind Any Any _ _ (Total-the e r h.connection present)
        (λ c _. Total-call e r Any _ (λ n. tt))

  check_health-Answers :
      (h : ConnectionHost e) → IsPresent h.connection → Answers e r Any (check_health e h)
  unfolding check_health health
  check_health-Answers h present =
      Total-bind (λ x. x ≡ idle) Any _ _ (Total-call e r _ _ (calm.no_notices h.errors))
        λ x q. rw q (
          Total-bind Any Any _ _ (record { returns = λ s st. (tt, st) })
            λ healthy _. record {
              returns = λ s st. (is_dead-Answers h _ healthy present).returns s st;
            })

  pub verify_healthy_connection-Answers :
      (rounds p : ℕ)
      → p < r.next_host
      → Answers e r Any (verify_healthy_connection e (suc rounds) p)
  unfolding verify_healthy_connection recover_if trigger_connection_recovery
  verify_healthy_connection-Answers rounds p lt =
      Total-bind (Hosts e r p) Any _ _ (Total-load e r p lt) λ h known.
        Total-bind Any Any _ _ (check_health-Answers h known.0) λ dead _.
          Total-then Any _ _
            (Total-choose Any dead _ _
              (Total-then Any _ _ (connect_until_up-Answers rounds p lt)
                (flush_errors-Answers rounds p lt))
              (Total-pure Any tt tt))
            (pause_on_flow_control-Answers rounds p lt)
