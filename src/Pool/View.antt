-- ===== src/Pool/View.antt =====
-- The pool seen from outside: which hosts wait in the queue, in which order, and which channels the
-- cache holds.
pub mod Lease
pub mod Channels
pub mod Ready
pub mod Flags
pub mod Back
use friendlyrabbit.Base.{
  ℕ, ◌<◌, ◌≡◌, refl, ◌∙◌, ap, List, Action, All, arith, Ensures, Ensures-mono, Ensures-bind, Any,
  ◌>>=◌, ◌>>◌,
}
use friendlyrabbit.Config.{PoolConfig}
use friendlyrabbit.Env.{Env, Item, host, other}
use friendlyrabbit.Env.Fifo.{IsFifo}
use friendlyrabbit.Pool.State.{ChannelHost, Pool}
use friendlyrabbit.Pool.Steady.{Steady, Keeps, IsConnected, id_of}

-- The item is a pointer below the bound.
abbrev pub IsBelow : ℕ → Item → Type 0
IsBelow n (host p) = p < n
IsBelow n other = ⊥

module _ (e : Env) (f : IsFifo e) where
  -- All pointers that the pool holds lead to hosts that have a connection.
  pub record IsSound (s : Pool e) : Type 0 where
    pub live : (p : ℕ) → p < s.next_host → IsConnected e (s.hosts p)
    pub queued : All (IsBelow s.next_host) (f.contents s.connections)
    pub cached : All (λ ch. ch.conn_host < s.next_host) s.channels

  -- `s` is the pool `r` with other contents: these items in the queue, these channels in the cache.
  pub record At (r : Pool e) (is : List Item) (chs : List (ChannelHost e)) (s : Pool e)
      : Type 0 where
    pub next_host : s.next_host ≡ r.next_host
    pub config : s.config ≡ r.config
    pub counted : s.connection_id ≡ r.connection_id
    pub live : (p : ℕ) → p < r.next_host → IsConnected e (s.hosts p)
    pub ids : (p : ℕ) → p < r.next_host → id_of e (s.hosts p) ≡ id_of e (r.hosts p)
    pub queue : f.contents s.connections ≡ is
    pub cache : s.channels ≡ chs

  -- A sound pool, by what it holds.
  pub At-here :
      (s : Pool e) (is : List Item) (chs : List (ChannelHost e))
      → IsSound s
      → f.contents s.connections ≡ is
      → s.channels ≡ chs
      → At s is chs s
  At-here s is chs v queue cache = record {
    next_host = refl;
    config = refl;
    counted = refl;
    live = v.live;
    ids = λ p lt. refl;
    queue = queue;
    cache = cache;
  }

  pub Steady-start :
      (r s : Pool e) {is : List Item} {chs : List (ChannelHost e)} → At r is chs s → Steady e s s
  Steady-start r s v = record {
    next_host = refl;
    connections = refl;
    channels = refl;
    config = refl;
    counted = refl;
    live = λ p lt. v.live p (omega arith);
    ids = λ p lt. refl;
  }

  pub At-Steady :
      (r s t : Pool e) {is : List Item} {chs : List (ChannelHost e)}
      → At r is chs s
      → Steady e s t
      → At r is chs t
  At-Steady r s t v w = record {
    next_host = w.next_host ∙ v.next_host;
    config = w.config ∙ v.config;
    counted = w.counted ∙ v.counted;
    live = λ p lt. w.live p (omega arith);
    ids = λ p lt. w.ids p (omega arith) ∙ v.ids p lt;
    queue = ap f.contents w.connections ∙ v.queue;
    cache = w.channels ∙ v.cache;
  }

  -- An action that keeps the pool steady changes none of this.
  pub Ensures-Keeps :
      {A : Type 0} (Q : A → Type 0) (m : Action (Pool e) A) (r s : Pool e) (is : List Item)
      (chs : List (ChannelHost e))
      → At r is chs s
      → Keeps e s Q m
      → Ensures (λ a t. Q a × At r is chs t) (m s)
  Ensures-Keeps Q m r s is chs v k =
      Ensures-mono _ _ (m s) (λ a t h. (h.0, At-Steady r s t v h.1))
        (k.holds s (Steady-start r s v))

  pub At-queue :
      (r s : Pool e) (is js : List Item) (chs : List (ChannelHost e)) (q : e.Queue)
      → At r is chs s
      → f.contents q ≡ js
      → At r js chs (record s { connections = q })
  At-queue r s is js chs q v c = record {
    next_host = v.next_host;
    config = v.config;
    counted = v.counted;
    live = v.live;
    ids = v.ids;
    queue = c;
    cache = v.cache;
  }

  pub At-cache :
      (r s : Pool e) (is : List Item) (chs chs' : List (ChannelHost e))
      → At r is chs s
      → At r is chs' (record s { channels = chs' })
  At-cache r s is chs chs' v = record {
    next_host = v.next_host;
    config = v.config;
    counted = v.counted;
    live = v.live;
    ids = v.ids;
    queue = v.queue;
    cache = refl;
  }

  -- Soundness follows from what the pool holds.
  pub At-IsSound :
      (r s : Pool e) (is : List Item) (chs : List (ChannelHost e))
      → At r is chs s
      → All (IsBelow r.next_host) is
      → All (λ ch. ch.conn_host < r.next_host) chs
      → IsSound s
  At-IsSound r s is chs v qs cs = record {
    live = λ p lt. v.live p (omega arith);
    queued = rw (v.next_host, v.queue) qs;
    cached = rw (v.next_host, v.cache) cs;
  }

  -- A step that keeps the pool steady, at the head of a block.
  pub At-bind :
      {A B : Type 0} (Q : A → Type 0) (P : B → Pool e → Type 0) (m : Action (Pool e) A)
      (g : A → Action (Pool e) B) (r s : Pool e) (is : List Item) (chs : List (ChannelHost e))
      → At r is chs s
      → Keeps e s Q m
      → ((a : A) (t : Pool e) → Q a → At r is chs t → Ensures P (g a t))
      → Ensures P ((m >>= g) s)
  At-bind Q P m g r s is chs v k next =
      Ensures-bind (λ a t. Q a × At r is chs t) P m g s (Ensures-Keeps Q m r s is chs v k)
        (λ a t h. next a t h.0 h.1)

  pub At-then :
      {B : Type 0} (P : B → Pool e → Type 0) (m : Action (Pool e) (Unit {0}))
      (k : Action (Pool e) B) (r s : Pool e) (is : List Item) (chs : List (ChannelHost e))
      → At r is chs s
      → Keeps e s Any m
      → ((t : Pool e) → At r is chs t → Ensures P (k t))
      → Ensures P ((m >> k) s)
  unfolding ◌>>◌
  At-then P m k r s is chs v keeps next =
      At-bind Any P m (λ _. k) r s is chs v keeps (λ a t _ h. next t h)
