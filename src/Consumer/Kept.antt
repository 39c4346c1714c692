-- ===== src/Consumer/Kept.antt =====
-- The actions of the consume loop, and what each does to the cache of channels.
use friendlyrabbit.Base.{
  ℕ, suc, ◌≡◌, refl, Bool, Option, none, some, List, [], ◌∷◌, ◌++◌, Action, pure, Ensures,
  Ensures-mono, Any, All, All-append, length, length-append, ltb, arith,
}
use friendlyrabbit.Error.{Error, AmqpError, Poll, received, closed, idle}
use friendlyrabbit.Env.{Env, Item}
use friendlyrabbit.Env.Fifo.{IsFifo}
use friendlyrabbit.Payload.Packages.{Packages}
use friendlyrabbit.Message.Received.{Delivery}
use friendlyrabbit.Pool.State.{ChannelHost, Pool, call}
use friendlyrabbit.Pool.Lease.{return_channel}
use friendlyrabbit.Pool.Steady.{Keeps, Keeps-call}
use friendlyrabbit.Pool.View.{At, Ensures-Keeps}
use friendlyrabbit.Pool.View.Channels.{Returned, return_channel_lem}
use friendlyrabbit.Pool.View.Ready.{IsReady, GoesBack-IsReady}
use friendlyrabbit.Consumer.State.{Incoming, Consumer, Message, on_pool}
use friendlyrabbit.Consumer.Loop.{
  Handling, meanwhile, receive_stop, poll_stop, send_error, send_message, pause_after_error,
  poll_errors, handle, take_delivery, read_message,
}
use friendlyrabbit.Consumer.Triple.{Goes, Goes-pure, Goes-choose, Goes-on_pool, Goes-then}

module _ (e : Env) (k : Packages) (i : Incoming e k) (others : Consumer e k i → Consumer e k i)
    (f : IsFifo e) (r : Pool e) (is : List Item) where
  -- The cache holds `n` channels, all of which are ready.
  pub record Full (n : ℕ) (p : Pool e) : Type 0 where
    pub channels : List (ChannelHost e)
    pub pool : At e f r is channels p
    pub ready : All (IsReady e r) channels
    pub count : length channels ≡ n

  -- What the other goroutines do to the pool.
  pub record IsApart : Type 0 where
    pub steady :
        (chs : List (ChannelHost e)) (s : Consumer e k i)
        → At e f r is chs s.pool
        → At e f r is chs (others s).pool

  pub Full-Keeps :
      {A : Type 0} (n : ℕ) (m : Action (Pool e) A)
      → ((p : Pool e) → Keeps e p Any m)
      → (p : Pool e) → Full n p
      → Ensures (λ a q. Full n q) (m p)
  Full-Keeps n m keeps p h =
      Ensures-mono (λ a q. Any a × At e f r is h.channels q) _ _
        (λ a q x. record { channels = h.channels; pool = x.1; ready = h.ready; count = h.count })
        (Ensures-Keeps e f Any m r p is h.channels h.pool (keeps p))

  module _ (apart : IsApart) (n : ℕ) where
    pub same_pool :
        {A : Type 0} (m : Action (Consumer e k i) A)
        → ((s : Consumer e k i) → Ensures (λ a t. t.pool ≡ s.pool) (m s))
        → Goes e k i (Full n) (Full n) m
    same_pool m h = record {
      goes = λ s p. Ensures-mono (λ a t. t.pool ≡ s.pool) _ _ (λ a t same. rw same p) (h s);
    }

    pub keeping :
        {A : Type 0} (m : Action (Pool e) A)
        → ((p : Pool e) → Keeps e p Any m)
        → Goes e k i (Full n) (Full n) (on_pool e k i m)
    keeping m keeps = Goes-on_pool e k i m (Full-Keeps n m keeps)

    pub meanwhile_lem : Goes e k i (Full n) (Full n) (meanwhile e k i others)
    unfolding meanwhile
    meanwhile_lem = record {
      goes = λ s h. record {
        channels = h.channels;
        pool = apart.steady h.channels s h.pool;
        ready = h.ready;
        count = h.count;
      };
    }

    pub poll_stop_lem : Goes e k i (Full n) (Full n) (poll_stop e k i others)
    unfolding poll_stop receive_stop
    poll_stop_lem = same_pool _ (λ s. polled s s.consume_stop)
      where
        polled :
            (s : Consumer e k i) (bs : List Bool)
            → Ensures (λ a t. t.pool ≡ s.pool) (receive_stop e k i others bs s)
        polled s [] = refl
        polled s (b ∷ rest) = refl

    pub send_error_lem : (x : Error) → Goes e k i (Full n) (Full n) (send_error e k i others x)
    unfolding send_error
    send_error_lem x = same_pool _ (λ s. ground arith)

    pub send_message_lem :
        (m : Message e k i) → Goes e k i (Full n) (Full n) (send_message e k i others m)
    unfolding send_message
    send_message_lem x = same_pool _ (λ s. ground arith)

    pub pause_lem : Goes e k i (Full n) (Full n) (pause_after_error e k i others)
    unfolding pause_after_error
    pause_lem = record {
      goes = λ s h.
          (Goes-choose e k i (ltb 0 s.sleep_on_error) _ _
              (keeping _ (λ p. Keeps-call e p (e.sleep s.sleep_on_error)))
              (Goes-pure e k i tt (λ p x. x))).goes
            s h;
    }

    pub take_lem :
        (action : Handling e k i others) (d : Delivery e.Net i.Time)
        → Goes e k i (Full n) (Full n) (take_delivery e k i others action d)
    unfolding take_delivery handle
    take_lem none d = record {
      goes = λ s h. (Goes-then e k i (Full n) _ _ meanwhile_lem (send_message_lem _)).goes s h;
    }
    take_lem (some g) d = record { goes = λ s h. (keeping _ (λ p. Keeps-call e p _)).goes s h }

    pub read_message_lem :
        (action : Handling e k i others) (d : Poll (Delivery e.Net i.Time))
        → Goes e k i (Full n) (Full n) (read_message e k i others action d)
    unfolding read_message
    read_message_lem action (received d) = take_lem action d
    read_message_lem action closed = take_lem action i.zero_delivery
    read_message_lem action idle = Goes-pure e k i tt (λ p x. x)

    pub poll_errors_lem :
        (ch : ChannelHost e)
        → Goes e k i (Full n) (Full n) (on_pool e k i (poll_errors e k i others ch))
    unfolding poll_errors pure
    poll_errors_lem ch = keeping _ (λ p. polled p ch.errors)
      where
        polled :
            (p : Pool e) (o : Option e.Notices)
            → Keeps e p {A = Poll AmqpError} Any
                (elim o [ none ↦ pure idle | some c ↦ call e (e.poll_notices c) ])
        polled p none = record { holds = λ s h. (tt, h) }
        polled p (some c) = Keeps-call e p _

  -- The channel is one more in the cache, whether or not it had an error.
  pub returned :
      (n rounds : ℕ) (ch : ChannelHost e) (erred : Bool)
      → IsReady e r ch
      → Goes e k i (Full n) (Full (suc n)) (on_pool e k i (return_channel e rounds ch erred))
  returned n rounds ch erred ready = Goes-on_pool e k i _ λ p h.
      Ensures-mono (λ u q. Returned e f r is h.channels erred ch q) (λ u q. Full (suc n) q) _
        (λ u q back. record {
          channels = h.channels ++ (back.0 ∷ []);
          pool = back.2;
          ready =
              All-append _ h.channels _ h.ready
                (GoesBack-IsReady e f r is h.channels erred ch back.0 back.1 ready, tt);
          count = omega (arith, h.count, length-append h.channels (back.0 ∷ []));
        })
        (return_channel_lem e f r is h.channels rounds p ch erred ready.on_host ready.cached h.pool)
