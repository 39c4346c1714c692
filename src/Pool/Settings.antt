-- ===== src/Pool/Settings.antt =====
-- Which settings NewConnectionPool refuses.
use friendlyrabbit.Base.{
  ℕ, ◌≡◌, ◌↔◌, ◌⊎◌, inl, inr, true, ◌||◌, ◌==◌, Option, none, some, arith, Bool-cases,
}
use friendlyrabbit.Config.{PoolConfig}
use friendlyrabbit.Env.{Env}
use friendlyrabbit.Pool.State.{Handler}
use friendlyrabbit.Pool.Start.{Opened, refused, crashed, ran, open_pool, new_connection_pool}

module _ (e : Env) where
  abbrev pub IsRefused : Opened e → Type 0
  IsRefused (refused x) = Unit {0}
  IsRefused crashed = ⊥
  IsRefused (ran r) = ⊥

  -- The settings that may not be 0.
  abbrev pub HasZero : PoolConfig → Type 0
  HasZero c = (c.heartbeat ≡ 0) ⊎ ((c.connection_timeout ≡ 0) ⊎ (c.max_connection_count ≡ 0))

  opened :
      (rounds : ℕ) (c : PoolConfig) (h u : Handler e) (q : Option e.Queue) (net : e.Net)
      → IsRefused (open_pool e rounds c h u q net)
      → ⊥
  unfolding open_pool
  opened rounds c h u none net x = x
  opened rounds c h u (some q) net x = x

  -- NewConnectionPool refuses the settings, before it makes a queue or dials, exactly if the
  -- heartbeat, the connection timeout or the number of connections is 0.
  pub new_connection_pool-refuses :
      (rounds : ℕ) (c : PoolConfig) (h u : Handler e) (net : e.Net)
      → IsRefused (new_connection_pool e rounds c h u net) ↔ HasZero c
  unfolding new_connection_pool
  new_connection_pool-refuses rounds c h u net =
      elim (Bool-cases (c.heartbeat == 0 || c.connection_timeout == 0)) [
        | inl zero_interval ↦ simp zero_interval (λ x. zeros zero_interval, λ x. tt)
        | inr intervals ↦ elim (Bool-cases (c.max_connection_count == 0)) [
          | inl none_left ↦
              simp (intervals, none_left) (λ x. inr (inr (ground (arith, none_left))), λ x. tt)
          | inr some_left ↦
              simp (intervals, some_left)
                (
                  λ x. absurd (opened rounds c h u _ net x),
                  λ x. absurd (ground (arith, intervals, some_left, x)),
                )
        ]
      ]
    where
      zeros : (c.heartbeat == 0 || c.connection_timeout == 0) ≡ true → HasZero c
      zeros h = ground (arith, h)
