-- ===== src/Consumer/Rounds.antt =====
-- The rounds of the consume loop, and what they do to the cache of channels.
use friendlyrabbit.Base.{
  ℕ, zero, suc, ◌≡◌, refl, Bool, true, false, Option, none, some, List, [], ◌∷◌, Action, ◌>>=◌,
  Ensures, inside-bind, sym, All, length, is_positive, Safe-bind-Any,
}
use friendlyrabbit.Error.{Error, AmqpError, Result, ok, err, Poll, received, closed, idle}
use friendlyrabbit.Env.{Env, Item}
use friendlyrabbit.Env.Fifo.{IsFifo}
use friendlyrabbit.Payload.Packages.{Packages}
use friendlyrabbit.Pool.State.{ChannelHost, Pool, call, the}
use friendlyrabbit.Pool.Lease.{get_channel_from_pool}
use friendlyrabbit.Pool.Steady.{Keeps-call, Keeps-the}
use friendlyrabbit.Pool.View.{At}
use friendlyrabbit.Pool.View.Ready.{IsReady, get_channel_lem, empty_cache}
use friendlyrabbit.Consumer.State.{Incoming, Consumer, put_pool, on_pool}
use friendlyrabbit.Consumer.Loop.{
  Handling, give_back, stop_or, deliver_round, after_notice, process_deliveries, after_consume,
  start_deliveries, set_qos, after_qos, consume_on, consume_loop,
}
use friendlyrabbit.Consumer.Triple.{Goes, Goes-waits, Goes-pure, Goes-choose, Goes-bind, Goes-then}
use friendlyrabbit.Consumer.Kept.{
  Full, IsApart, keeping, meanwhile_lem, poll_stop_lem, send_error_lem, pause_lem, read_message_lem,
  poll_errors_lem, returned,
}

module _ (e : Env) (k : Packages) (i : Incoming e k) (others : Consumer e k i → Consumer e k i)
    (f : IsFifo e) (r : Pool e) (is : List Item) where
  abbrev Kept : ℕ → Pool e → Type 0
  Kept n p = Full e k i others f r is n p

  module _ (apart : IsApart e k i others f r is) (rounds n : ℕ) (ch : ChannelHost e)
      (ready : IsReady e r ch) where
    give_back_lem : Goes e k i (Kept n) (Kept (suc n)) (give_back e k i others rounds ch)
    unfolding give_back
    give_back_lem =
        Goes-then e k i (Kept (suc n)) _ _ (returned e k i others f r is n rounds ch true ready)
          (pause_lem e k i others f r is apart (suc n))

    stop_or_lem :
        (again : Action (Consumer e k i) Bool) (stop : Bool)
        → Goes e k i (Kept n) (Kept (suc n)) again
        → Goes e k i (Kept n) (Kept (suc n)) (stop_or e k i others again rounds ch stop)
    unfolding stop_or
    stop_or_lem again true ga =
        Goes-then e k i (Kept (suc n)) _ _ (returned e k i others f r is n rounds ch false ready)
          (Goes-pure e k i true (λ p x. x))
    stop_or_lem again false ga = ga

    deliver_round_lem :
        (again : Action (Consumer e k i) Bool) (c : i.Deliveries) (action : Handling e k i others)
        → Goes e k i (Kept n) (Kept (suc n)) again
        → Goes e k i (Kept n) (Kept (suc n)) (deliver_round e k i others again rounds c ch action)
    unfolding deliver_round
    deliver_round_lem again c action ga =
        Goes-bind e k i (Kept n) _ _ (keeping e k i others f r is apart n _ (λ p. Keeps-call e p _))
          λ d.
            Goes-then e k i (Kept n) _ _ (read_message_lem e k i others f r is apart n action d) (
              Goes-then e k i (Kept n) _ _ (meanwhile_lem e k i others f r is apart n) (
                Goes-bind e k i (Kept n) _ _ (poll_stop_lem e k i others f r is apart n)
                  λ stop. stop_or_lem again stop ga))

    after_notice_lem :
        (go_on : Action (Consumer e k i) Bool) (x : Poll AmqpError)
        → Goes e k i (Kept n) (Kept (suc n)) go_on
        → Goes e k i (Kept n) (Kept (suc n)) (after_notice e k i others go_on rounds ch x)
    unfolding after_notice
    after_notice_lem go_on (received x) gg =
        Goes-then e k i (Kept (suc n)) _ _ (returned e k i others f r is n rounds ch true ready) (
          Goes-then e k i (Kept (suc n)) _ _ (meanwhile_lem e k i others f r is apart (suc n)) (
            Goes-then e k i (Kept (suc n)) _ _ (send_error_lem e k i others f r is apart (suc n) _)
              (Goes-then e k i (Kept (suc n)) _ _ (pause_lem e k i others f r is apart (suc n))
                (Goes-pure e k i false (λ p x. x)))))
    after_notice_lem go_on closed gg = gg
    after_notice_lem go_on idle gg = gg

    process_deliveries_lem :
        (tries : ℕ) (c : i.Deliveries) (action : Handling e k i others)
        → Goes e k i
            (Kept n)
            (Kept (suc n))
            (process_deliveries e k i others rounds tries c ch action)
    unfolding process_deliveries
    process_deliveries_lem zero c action = Goes-waits e k i
    process_deliveries_lem (suc tries) c action =
        Goes-bind e k i (Kept n) _ _ (poll_errors_lem e k i others f r is apart n ch) λ x.
          after_notice_lem _ x
            (deliver_round_lem _ c action (process_deliveries_lem tries c action))

    after_consume_lem :
        (again : Action (Consumer e k i) (Unit {0})) (action : Handling e k i others)
        (x : Result i.Deliveries)
        → Goes e k i (Kept (suc n)) (Kept (suc n)) again
        → Goes e k i (Kept n) (Kept (suc n)) (after_consume e k i others again rounds ch action x)
    unfolding after_consume
    after_consume_lem again action (err x) ga = Goes-then e k i (Kept (suc n)) _ _ give_back_lem ga
    after_consume_lem again action (ok c) ga =
        Goes-bind e k i (Kept (suc n)) _ _ (process_deliveries_lem rounds c action)
          λ stop. Goes-choose e k i stop _ _ (Goes-pure e k i tt (λ p x. x)) ga

    -- A request on the channel.
    asks :
        {A : Type 0} (g : e.Channel → e.Net → A × e.Net)
        → Goes e k i (Kept n) (Kept n) (on_pool e k i (the ch.channel >>= λ c. call e (g c)))
    asks g =
        keeping e k i others f r is apart n _ λ p.
          Safe-bind-Any _ _ (Keeps-the e p ch.channel ready.present) (λ c. Keeps-call e p (g c))

    start_deliveries_lem : Goes e k i (Kept n) (Kept n) (start_deliveries e k i others ch)
    unfolding start_deliveries
    start_deliveries_lem = record { goes = λ s h. (asks _).goes s h }

    set_qos_lem : Goes e k i (Kept n) (Kept n) (set_qos e k i others ch)
    unfolding set_qos
    set_qos_lem = record {
      goes = λ s h.
          (Goes-choose e k i (is_positive s.qos_count_override) _ _ (asks _)
              (Goes-pure e k i none (λ p x. x))).goes
            s h;
    }

    after_qos_lem :
        (again : Action (Consumer e k i) (Unit {0})) (action : Handling e k i others)
        (x : Option Error)
        → Goes e k i (Kept (suc n)) (Kept (suc n)) again
        → Goes e k i (Kept n) (Kept (suc n)) (after_qos e k i others again rounds ch action x)
    unfolding after_qos
    after_qos_lem again action (some x) ga = Goes-then e k i (Kept (suc n)) _ _ give_back_lem ga
    after_qos_lem again action none ga =
        Goes-bind e k i (Kept n) _ _ start_deliveries_lem λ x. after_consume_lem again action x ga

    consume_on_lem :
        (again : Action (Consumer e k i) (Unit {0})) (action : Handling e k i others)
        → Goes e k i (Kept (suc n)) (Kept (suc n)) again
        → Goes e k i (Kept n) (Kept (suc n)) (consume_on e k i others again rounds action ch)
    unfolding consume_on
    consume_on_lem again action ga =
        Goes-bind e k i (Kept n) _ _ set_qos_lem λ x. after_qos_lem again action x ga

  -- A channel of the cache is taken.
  taken_lem :
      {B : Type 0} (n : ℕ) (g : ChannelHost e → Action (Consumer e k i) B)
      → ((m : ℕ) (ch : ChannelHost e)
          → suc m ≡ n
          → IsReady e r ch
          → Goes e k i (Kept m) (Kept n) (g ch))
      → Goes e k i (Kept n) (Kept n) (on_pool e k i (get_channel_from_pool e) >>= g)
  unfolding on_pool
  taken_lem n g next = record { goes = λ s h. taken s h.channels h.pool h.ready h.count }
    where
      taken :
          (s : Consumer e k i) (chs : List (ChannelHost e))
          → At e f r is chs s.pool
          → All (IsReady e r) chs
          → length chs ≡ n
          → Ensures (λ a t. Kept n t.pool) ((on_pool e k i (get_channel_from_pool e) >>= g) s)
      taken s [] v ready count =
          inside-bind (λ s. s.pool) (put_pool e k i) (λ c q. ⊥) _ _ g s
            (empty_cache e f r s.pool is v) (λ c q h. absurd h)
      taken s (ch ∷ rest) v (ready, others_ready) count =
          inside-bind (λ s. s.pool) (put_pool e k i) (λ c q. (c ≡ ch) × At e f r is rest q) _ _ g s
            (get_channel_lem e f r s.pool is ch rest v)
            λ c q h. rw (h.0) (
              (next (length rest) ch count ready).goes _
                (record { channels = rest; pool = h.1; ready = others_ready; count = refl }))

  pub consume_loop_lem :
      (apart : IsApart e k i others f r is) (rounds tries n : ℕ) (action : Handling e k i others)
      → Goes e k i (Kept n) (Kept n) (consume_loop e k i others rounds tries action)
  unfolding consume_loop
  consume_loop_lem apart rounds zero n action = Goes-waits e k i
  consume_loop_lem apart rounds (suc tries) n action =
      Goes-then e k i (Kept n) _ _ (meanwhile_lem e k i others f r is apart n) (
        Goes-bind e k i (Kept n) _ _ (poll_stop_lem e k i others f r is apart n) λ stop.
          Goes-choose e k i stop _ _ (Goes-pure e k i tt (λ p x. x)) (
            taken_lem n _ λ m ch same ready. rw (sym same) (
              consume_on_lem apart rounds m ch ready _ action
                (rw same (consume_loop_lem apart rounds tries n action)))))
