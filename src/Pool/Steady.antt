-- ===== src/Pool/Steady.antt =====
-- What the health checks, the recovery and the opening of channels leave alone. `Steady r s` says
-- that `s` differs from the reference state `r` in the outside world, in the flags and in the
-- contents of the allocated hosts, all of which have a connection and keep their ids.
pub mod Connection
pub mod Channel
pub mod Recovery
use friendlyrabbit.Base.{
  ℕ, ◌<◌, ◌≡◌, refl, Bool, Option, none, some, List, Action, done, panic, inl, inr, Bool-cases,
  arith, ◌==◌, if◌then◌else◌, Any, Safe, Safe-bind, safe_rules, Ensures, ◌>>=◌,
}
use friendlyrabbit.Error.{Error, Result, ok, err}
use friendlyrabbit.Env.{Env}
use friendlyrabbit.Pool.Connection.{on_result}
use friendlyrabbit.Pool.State.{
  ConnectionHost, ChannelHost, Handler, Pool, call, notify, load, store, update, the,
}

module _ {A : Type 0} where
  abbrev pub IsPresent : Option A → Type 0
  IsPresent none = ⊥
  IsPresent (some a) = Unit {0}

module _ (e : Env) where
  abbrev pub IsConnected : Option (ConnectionHost e) → Type 0
  IsConnected none = ⊥
  IsConnected (some h) = IsPresent h.connection

  abbrev pub id_of : Option (ConnectionHost e) → Option ℕ
  id_of none = none
  id_of (some h) = some h.connection_id

module _ (e : Env) (r : Pool e) where
  pub record Steady (s : Pool e) : Type 0 where
    pub next_host : s.next_host ≡ r.next_host
    pub connections : s.connections ≡ r.connections
    pub channels : s.channels ≡ r.channels
    pub config : s.config ≡ r.config
    pub counted : s.connection_id ≡ r.connection_id
    pub live : (p : ℕ) → p < r.next_host → IsConnected e (s.hosts p)
    pub ids : (p : ℕ) → p < r.next_host → id_of e (s.hosts p) ≡ id_of e (r.hosts p)

  -- Keeps the pool steady, and returns a value with `Q`.
  abbrev pub Keeps : {A : Type 0} → (A → Type 0) → Action (Pool e) A → Type 0
  Keeps Q m = Safe Steady Q m

  pub Keeps-call : {A : Type 0} (f : e.Net → A × e.Net) → Keeps Any (call e f)
  unfolding call
  Keeps-call f = record {
    holds = λ s h. (
      tt,
      record {
        next_host = h.next_host;
        connections = h.connections;
        channels = h.channels;
        config = h.config;
        counted = h.counted;
        live = h.live;
        ids = h.ids;
      },
    );
  }

  -- The same, with what the call returned in some outside world.
  pub Keeps-call_result :
      {A : Type 0} (f : e.Net → A × e.Net) → Keeps (λ a. (n : e.Net) × ((f n).0 ≡ a)) (call e f)
  unfolding call
  Keeps-call_result f = record {
    holds = λ s h. (
      (s.net, refl),
      record {
        next_host = h.next_host;
        connections = h.connections;
        channels = h.channels;
        config = h.config;
        counted = h.counted;
        live = h.live;
        ids = h.ids;
      },
    );
  }

  pub Keeps-notify : (h : Handler e) (x : Error) → Keeps Any (notify e h x)
  unfolding notify
  Keeps-notify none x = record { holds = λ s h. (tt, h) }
  Keeps-notify (some f) x = Keeps-call (f x)

  -- A host that the pointer may point to: it has a connection, and the id that it always had.
  abbrev pub Hosts : ℕ → ConnectionHost e → Type 0
  Hosts p h = IsPresent h.connection × (some h.connection_id ≡ id_of e (r.hosts p))

  pub Keeps-load : (p : ℕ) → p < r.next_host → Keeps (Hosts p) (load e p)
  unfolding load
  Keeps-load p lt = record { holds = λ s h. found s h (s.hosts p) (h.live p lt) (h.ids p lt) }
    where
      found :
          (s : Pool e)
          → Steady s
          → (o : Option (ConnectionHost e)) → IsConnected e o
          → id_of e o ≡ id_of e (r.hosts p)
          → Ensures (λ h t. Hosts p h × Steady t) (elim o [ none ↦ panic s | some h ↦ done h s ])
      found s st none c i = c
      found s st (some h) c i = ((c, i), st)

  pub Keeps-load_bind :
      {B : Type 0} {Q : B → Type 0} (p : ℕ) (f : ConnectionHost e → Action (Pool e) B)
      → p < r.next_host
      → ((h : ConnectionHost e) → Hosts p h → Keeps Q (f h))
      → Keeps Q (load e p >>= f)
  Keeps-load_bind p f lt kf = Safe-bind (Hosts p) _ f (Keeps-load p lt) kf

  pub Keeps-store : (p : ℕ) (h : ConnectionHost e) → Hosts p h → Keeps Any (store e p h)
  unfolding store
  Keeps-store p h (present, same) = record {
    holds = λ s st. (
      tt,
      record {
        next_host = st.next_host;
        connections = st.connections;
        channels = st.channels;
        config = st.config;
        counted = st.counted;
        live = λ q lt. elim (Bool-cases (q == p)) [
          | inl eq ↦ rw eq present
          | inr ne ↦ rw ne (st.live q lt)
        ];
        ids = λ q lt. ground (arith, st.ids q lt);
      },
    );
  }

  pub Keeps-the : {A : Type 0} (o : Option A) → IsPresent o → Keeps Any (the o)
  unfolding the
  Keeps-the none c = absurd c
  Keeps-the (some a) c = record { holds = λ s h. (tt, h) }

  pub Keeps-on_result :
      {A B : Type 0} {Q : B → Type 0} (f : Error → Action (Pool e) B) (g : A → Action (Pool e) B)
      (x : Result A)
      → ((x : Error) → Keeps Q (f x))
      → ((a : A) → Keeps Q (g a))
      → Keeps Q (on_result f g x)
  unfolding on_result
  Keeps-on_result f g (ok a) kf kg = kg a
  Keeps-on_result f g (err x) kf kg = kf x

pub ruleset keeps_rules = (safe_rules, Keeps-call, Keeps-notify, Keeps-on_result)
