-- ===== src/Pool/View/Flags.antt =====
-- What giving a connection back does to the flags.
use friendlyrabbit.Base.{
  ℕ, ◌≡◌, refl, ap, Bool, true, false, ◌&&◌, ◌==◌, some, none, Bool-cases, inl, inr, Run, done,
  panic, stuck, ◌>>=◌, ◌>>◌, >>=-done, Returns, if◌then◌else◌,
}
use friendlyrabbit.Env.{Env}
use friendlyrabbit.Pool.State.{ConnectionHost, Pool, load}
use friendlyrabbit.Pool.Recovery.{flag_connection, is_connection_flagged}
use friendlyrabbit.Pool.Lease.{put_connection, return_connection}

-- A run that ensures two things.
pub Returns-both :
    {S A : Type 0} (P Q : A → S → Type 0) (r : Run S A)
    → Returns P r
    → Returns Q r
    → Returns (λ a t. P a t × Q a t) r
Returns-both P Q (done a t) h h' = (h, h')
Returns-both P Q (panic t) h h' = absurd h
Returns-both P Q stuck h h' = absurd h

module _ (e : Env) (s : Pool e) (p : ℕ) (h : ConnectionHost e) (there : s.hosts p ≡ some h) where
  load_lem : load e p s ≡ done h s
  unfolding load
  load_lem =
      ap {A = _} {B = Run (Pool e) (ConnectionHost e)}
        (λ o. elim o [ none ↦ panic s | some h ↦ done h s ]) there

  -- The flags as they were, but that of the given id, which is set if asked for.
  abbrev pub Flags : Bool → Pool e → Type 0
  Flags flag t =
      (id : ℕ)
      → is_connection_flagged e t id
        ≡ (if flag && (id == h.connection_id) then true else is_connection_flagged e s id)

  loaded_lem :
      return_connection e p true s ≡ (flag_connection e h.connection_id >> put_connection e p) s
  unfolding return_connection
  loaded_lem =
      >>=-done (load e p) (λ h. flag_connection e h.connection_id >> put_connection e p) s load_lem

  flagged_lem :
      Returns (λ u t. Flags true t) ((flag_connection e h.connection_id >> put_connection e p) s)
  unfolding put_connection flag_connection is_connection_flagged ◌>>◌ ◌>>=◌
  flagged_lem id = elim (Bool-cases (id == h.connection_id)) [
    | inl same ↦ rw same refl
    | inr differs ↦ rw differs refl
  ]

  kept_lem : Returns (λ u t. Flags false t) (return_connection e p false s)
  unfolding return_connection put_connection is_connection_flagged
  kept_lem id = refl

  pub return_connection-Flags :
      (flag : Bool) → Returns (λ u t. Flags flag t) (return_connection e p flag s)
  return_connection-Flags false = kept_lem
  return_connection-Flags true = rw loaded_lem flagged_lem
