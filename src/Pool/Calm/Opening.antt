-- ===== src/Pool/Calm/Opening.antt =====
-- A calm world in which channels open: a new channel is made at the first attempt.
use friendlyrabbit.Base.{
  ℕ, ◌<◌, ◌≡◌, refl, Bool, false, none, Any, Total-pure, Total-choose, Total-bind, Total-then,
  choose-false,
}
use friendlyrabbit.Error.{Result, ok, err}
use friendlyrabbit.Env.{Env}
use friendlyrabbit.Pool.State.{ChannelHost, Pool}
use friendlyrabbit.Pool.Channel.{
  Made, watch_errors, after_confirm, confirm_mode, opened, after_open, open_on, make_channel,
  made_host, blank_channel, make_new, new_on, new_channel_host,
}
use friendlyrabbit.Pool.Steady.{Hosts}
use friendlyrabbit.Pool.Calm.{IsCalm, Answers, Total-call, Total-load, Total-the}

module _ (e : Env) where
  pub record IsOpening : Type 0 where
    pub calm : IsCalm e
    pub opens : (c : e.Connection) (n : e.Net) → (ch : e.Channel) × ((e.open_channel c n).0 ≡ ok ch)
    pub confirms : (c : e.Channel) (no_wait : Bool) (n : e.Net) → (e.confirm c no_wait n).0 ≡ none

  -- A step that had no error, and a result that is a channel.
  abbrev IsFine : Made e → Type 0
  IsFine m = m.1 ≡ none

  abbrev pub IsOk : Result (ChannelHost e) → Type 0
  IsOk (ok ch) = Unit {0}
  IsOk (err x) = ⊥

module _ (e : Env) (r : Pool e) (o : IsOpening e) where
  watch_errors-IsFine :
      (ch : ChannelHost e) (c : e.Channel) → Answers e r (IsFine e) (watch_errors e ch c)
  unfolding watch_errors
  watch_errors-IsFine ch c =
      Total-bind Any _ _ _ (Total-call e r Any _ (λ n. tt))
        λ errors _. Total-then _ _ _ (Total-call e r Any _ (λ n. tt)) (Total-pure (IsFine e) _ refl)

  opened-IsFine : (ch : ChannelHost e) (c : e.Channel) → Answers e r (IsFine e) (opened e ch c)
  unfolding opened confirm_mode after_confirm
  opened-IsFine ch c =
      Total-choose _ ch.ackable _ _
        (Total-bind (λ x. x ≡ none) _ _ _ (Total-call e r _ _ (o.confirms c false))
          (λ x q. rw q (watch_errors-IsFine ch c)))
        (watch_errors-IsFine ch c)

  make_channel-IsFine :
      (ch : ChannelHost e) → ch.conn_host < r.next_host → Answers e r (IsFine e) (make_channel e ch)
  unfolding make_channel open_on after_open
  make_channel-IsFine ch lt =
      Total-bind (Hosts e r ch.conn_host) _ _ _ (Total-load e r ch.conn_host lt) λ h known.
        Total-bind Any _ _ _ (Total-the e r h.connection known.0) λ conn _.
          Total-bind (λ x. (c : e.Channel) × (x ≡ ok c)) _ _ _ (Total-call e r _ _ (o.opens conn))
            λ x got. rw (got.1) (opened-IsFine _ got.0)

  made_host-IsOk : (m : Made e) → IsFine e m → Answers e r (IsOk e) (made_host e m)
  unfolding made_host
  made_host-IsOk (ch, x) fine = rw fine (Total-pure (IsOk e) (ok ch) tt)

  pub new_channel_host-IsOk :
      (p id connection_id : ℕ) (ackable transient : Bool)
      → p < r.next_host
      → Answers e r (IsOk e) (new_channel_host e p id connection_id ackable transient)
  unfolding new_channel_host new_on make_new
  new_channel_host-IsOk p id connection_id ackable transient lt =
      Total-bind (Hosts e r p) _ _ _ (Total-load e r p lt) λ h known.
        Total-bind Any _ _ _ (Total-the e r h.connection known.0) λ conn _.
          Total-bind (λ b. b ≡ false) _ _ _ (Total-call e r _ _ (o.calm.is_up conn))
            λ shut q. rw (choose-false shut _ _ q) (
              Total-bind (IsFine e) _ _ _
                (make_channel-IsFine (blank_channel e p id connection_id ackable transient) lt)
                made_host-IsOk)
