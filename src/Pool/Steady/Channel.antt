-- ===== src/Pool/Steady/Channel.antt =====
-- The channel host's methods keep the pool steady and never panic, and what they make of a host.
use friendlyrabbit.Base.{
  ℕ, ◌<◌, ◌≡◌, refl, ◌∙◌, Bool, Option, none, some, Safe-choose, Safe-bind, Safe-pure, true, false,
  choose, Safe-bind-Any, Safe-then, Safe-mono,
}
use friendlyrabbit.Error.{Error, Result, ok, err}
use friendlyrabbit.Env.{Env}
use friendlyrabbit.Pool.State.{ChannelHost, Pool}
use friendlyrabbit.Pool.Channel.{
  Made, watch_errors, after_confirm, confirm_mode, opened, after_open, open_on, make_channel,
  made_host, blank_channel, make_new, new_on, new_channel_host,
}
use friendlyrabbit.Pool.Steady.{
  Keeps, Keeps-call, Keeps-call_result, Keeps-load_bind, Keeps-the, IsPresent,
}

module _ (e : Env) where
  -- The channel host is the given one but for its channel and its notices.
  pub record IsSame (ch ch' : ChannelHost e) : Type 0 where
    pub id : ch'.id ≡ ch.id
    pub connection_id : ch'.connection_id ≡ ch.connection_id
    pub ackable : ch'.ackable ≡ ch.ackable
    pub transient : ch'.transient ≡ ch.transient
    pub conn_host : ch'.conn_host ≡ ch.conn_host

  -- The channel came out of an open on a connection.
  abbrev pub IsOpen : e.Channel → Type 0
  IsOpen c = (conn : e.Connection) × (n : e.Net) × ((e.open_channel conn n).0 ≡ ok c)

  -- Put in confirm mode, if that is asked for.
  abbrev pub Confirms : Bool → e.Channel → Type 0
  Confirms true c = (n : e.Net) × ((e.confirm c false n).0 ≡ none)
  Confirms false c = Unit {0}

  -- A channel that was opened anew, put in confirm mode if it is ackable, with its notices.
  abbrev pub IsUsable : ChannelHost e → Type 0
  IsUsable ch =
      IsPresent ch.channel
      × IsPresent ch.errors
      × ((c : e.Channel) × (ch.channel ≡ some c) × IsOpen c × Confirms ch.ackable c)

  Confirms-confirm :
      (b : Bool) (c : e.Channel) (n : e.Net) → (e.confirm c false n).0 ≡ none → Confirms b c
  Confirms-confirm true c n same = (n, same)
  Confirms-confirm false c n same = tt

  -- The result of MakeChannel: the same host, and usable if there is no error.
  abbrev pub UsableIf : Option Error → ChannelHost e → Type 0
  UsableIf none ch = IsUsable ch
  UsableIf (some x) ch = Unit {0}

  abbrev pub IsMade : ChannelHost e → Made e → Type 0
  IsMade ch m = IsSame ch m.0 × UsableIf m.1 m.0

  abbrev pub IsNew : ChannelHost e → Result (ChannelHost e) → Type 0
  IsNew ch (ok ch') = IsSame ch ch' × IsUsable ch'
  IsNew ch (err x) = Unit {0}

  pub IsSame-refl : (ch : ChannelHost e) → IsSame ch ch
  IsSame-refl ch = record {
    id = refl;
    connection_id = refl;
    ackable = refl;
    transient = refl;
    conn_host = refl;
  }

  IsSame-channel :
      (ch : ChannelHost e) (c : Option e.Channel) → IsSame ch (record ch { channel = c })
  IsSame-channel ch c = record {
    id = refl;
    connection_id = refl;
    ackable = refl;
    transient = refl;
    conn_host = refl;
  }

  pub IsSame-trans : (a b c : ChannelHost e) → IsSame a b → IsSame b c → IsSame a c
  IsSame-trans a b c h k = record {
    id = k.id ∙ h.id;
    connection_id = k.connection_id ∙ h.connection_id;
    ackable = k.ackable ∙ h.ackable;
    transient = k.transient ∙ h.transient;
    conn_host = k.conn_host ∙ h.conn_host;
  }

  IsSame-of_channel :
      (ch : ChannelHost e) (c : Option e.Channel) (ch' : ChannelHost e)
      → IsSame (record ch { channel = c }) ch'
      → IsSame ch ch'
  IsSame-of_channel ch c ch' h = record {
    id = h.id;
    connection_id = h.connection_id;
    ackable = h.ackable;
    transient = h.transient;
    conn_host = h.conn_host;
  }

module _ (e : Env) (r : Pool e) where
  -- `ch` comes with the channel `c` already set on it.
  watch_errors-Keeps :
      (ch : ChannelHost e) (c : e.Channel)
      → IsPresent ch.channel
      → ch.channel ≡ some c
      → IsOpen e c
      → Confirms e ch.ackable c
      → Keeps e r (IsMade e ch) (watch_errors e ch c)
  unfolding watch_errors
  watch_errors-Keeps ch c present is_c is_open confirms = Safe-bind-Any _ _ (Keeps-call e r _) λ n.
      Safe-then _ _ (Keeps-call e r _)
        (Safe-pure _ (same n, (present, tt, (c, is_c, is_open, confirms))))
    where
      same : (n : e.Notices) → IsSame e ch (record ch { errors = some n })
      same n = record {
        id = refl;
        connection_id = refl;
        ackable = refl;
        transient = refl;
        conn_host = refl;
      }

  after_confirm-Keeps :
      (ch : ChannelHost e) (c : e.Channel) (n : e.Net) (x : Option Error)
      → IsPresent ch.channel
      → ch.channel ≡ some c
      → IsOpen e c
      → (e.confirm c false n).0 ≡ x
      → Keeps e r (IsMade e ch) (after_confirm e ch c x)
  unfolding after_confirm
  after_confirm-Keeps ch c n none present is_c is_open same =
      watch_errors-Keeps ch c present is_c is_open (Confirms-confirm e ch.ackable c n same)
  after_confirm-Keeps ch c n (some x) present is_c is_open same = Safe-pure _ (IsSame-refl e ch, tt)

  opened-Keeps :
      (ch : ChannelHost e) (c : e.Channel)
      → IsPresent ch.channel
      → ch.channel ≡ some c
      → IsOpen e c
      → Keeps e r (IsMade e ch) (opened e ch c)
  unfolding opened confirm_mode choose
  opened-Keeps ch c present is_c is_open = either ch.ackable refl
    where
      either :
          (b : Bool)
          → ch.ackable ≡ b
          → Keeps e r (IsMade e ch) (choose b (confirm_mode e ch c) (watch_errors e ch c))
      either true same =
          Safe-bind (λ x. (n : e.Net) × ((e.confirm c false n).0 ≡ x)) _ _ (Keeps-call_result e r _)
            (λ x h. after_confirm-Keeps ch c h.0 x present is_c is_open h.1)
      either false same = watch_errors-Keeps ch c present is_c is_open (rw same tt)

  after_open-Keeps :
      (ch : ChannelHost e) (conn : e.Connection) (n : e.Net) (x : Result e.Channel)
      → (e.open_channel conn n).0 ≡ x
      → Keeps e r (IsMade e ch) (after_open e ch x)
  unfolding after_open
  after_open-Keeps ch conn n (err x) same = Safe-pure _ (IsSame-channel e ch none, tt)
  after_open-Keeps ch conn n (ok c) same =
      Safe-mono _ _ (λ m h. (IsSame-of_channel e ch _ m.0 h.0, h.1))
        (opened-Keeps _ c tt refl (conn, n, same))

  -- MakeChannel, on a host of the pool.
  pub make_channel-Keeps :
      (ch : ChannelHost e)
      → ch.conn_host < r.next_host
      → Keeps e r (IsMade e ch) (make_channel e ch)
  unfolding make_channel open_on
  make_channel-Keeps ch lt = Keeps-load_bind e r _ _ lt λ h known.
      Safe-bind-Any _ _ (Keeps-the e r h.connection known.0) λ conn.
        Safe-bind (λ x. (n : e.Net) × ((e.open_channel conn n).0 ≡ x)) _ _ (Keeps-call_result e r _)
          (λ x h'. after_open-Keeps ch conn h'.0 x h'.1)

  made_host-Keeps :
      (ch : ChannelHost e) (m : Made e) → IsMade e ch m → Keeps e r (IsNew e ch) (made_host e m)
  unfolding made_host
  made_host-Keeps ch (ch', none) m = Safe-pure _ m
  made_host-Keeps ch (ch', some x) m = Safe-pure _ tt

  -- NewChannelHost, on a host of the pool.
  pub new_channel_host-Keeps :
      (p id connection_id : ℕ) (ackable transient : Bool)
      → p < r.next_host
      → Keeps e r
          (IsNew e (blank_channel e p id connection_id ackable transient))
          (new_channel_host e p id connection_id ackable transient)
  unfolding new_channel_host new_on make_new
  new_channel_host-Keeps p id connection_id ackable transient lt =
      Keeps-load_bind e r _ _ lt λ h known.
        Safe-bind-Any _ _ (Keeps-the e r h.connection known.0) λ conn.
          Safe-bind-Any _ _ (Keeps-call e r _) λ is_shut.
            Safe-choose is_shut _ _ (Safe-pure _ tt)
              (Safe-bind (IsMade e blank) _ _ (make_channel-Keeps blank lt) (made_host-Keeps blank))
    where
      blank : ChannelHost e
      blank = blank_channel e p id connection_id ackable transient
