-- ===== src/Pool/View/Back.antt =====
-- Giving a connection back returns, whatever state the connection is in.
use friendlyrabbit.Base.{
  ℕ, ◌<◌, ◌∙◌, ap, Bool, true, false, List, [], ◌∷◌, ◌++◌, Action, ◌>>◌, Total, Returns,
  Returns-bind, Returns-mono,
}
use friendlyrabbit.Env.{Env, Item, host}
use friendlyrabbit.Env.Fifo.{IsFifo}
use friendlyrabbit.Pool.State.{ChannelHost, Pool, load}
use friendlyrabbit.Pool.Recovery.{flag_connection}
use friendlyrabbit.Pool.Lease.{put_connection, return_connection}
use friendlyrabbit.Pool.Steady.{Steady, Hosts}
use friendlyrabbit.Pool.Steady.Recovery.{flag_connection-Keeps}
use friendlyrabbit.Pool.Calm.{Total-load}
use friendlyrabbit.Pool.View.{At, At-Steady, At-queue, Steady-start}

module _ (e : Env) (f : IsFifo e) (r : Pool e) where
  -- An action that returns and keeps the pool steady, as seen from outside.
  pub At-Returns :
      {A : Type 0} (Q : A → Type 0) (m : Action (Pool e) A) (s : Pool e) (is : List Item)
      (chs : List (ChannelHost e))
      → At e f r is chs s
      → Total (Steady e s) Q m
      → Returns (λ a t. Q a × At e f r is chs t) (m s)
  At-Returns Q m s is chs v total =
      Returns-mono (λ a t. Q a × Steady e s t) (λ a t. Q a × At e f r is chs t) _
        (λ a t h. (h.0, At-Steady e f r s t v h.1)) (total.returns s (Steady-start e f r s v))

  pub put_connection_lem :
      (s : Pool e) (p : ℕ) (is : List Item) (chs : List (ChannelHost e))
      → At e f r is chs s
      → Returns (λ u t. At e f r (is ++ (host p ∷ [])) chs t) (put_connection e p s)
  unfolding put_connection
  put_connection_lem s p is chs v =
      At-queue e f r s is _ chs _ v
        (f.contents-put (host p) s.connections ∙ ap (λ is. is ++ (host p ∷ [])) v.queue)

  flag_connection_lem :
      (id : ℕ) (s : Pool e) (is : List Item) (chs : List (ChannelHost e))
      → At e f r is chs s
      → Returns (λ u t. At e f r is chs t) (flag_connection e id s)
  unfolding flag_connection
  flag_connection_lem id s is chs v =
      At-Steady e f r s _ v ((flag_connection-Keeps e s id).holds s (Steady-start e f r s v)).1

  pub return_connection_lem :
      (s : Pool e) (p : ℕ) (flag : Bool) (is : List Item) (chs : List (ChannelHost e))
      → p < r.next_host
      → At e f r is chs s
      → Returns (λ u t. At e f r (is ++ (host p ∷ [])) chs t) (return_connection e p flag s)
  unfolding return_connection ◌>>◌
  return_connection_lem s p false is chs lt v = put_connection_lem s p is chs v
  return_connection_lem s p true is chs lt v =
      Returns-bind _ (λ u t. At e f r (is ++ (host p ∷ [])) chs t) (load e p) _ s
        (At-Returns (Hosts e s p) (load e p) s is chs v (Total-load e s p (rw (v.next_host) lt)))
        λ h t k.
          Returns-bind (λ u w. At e f r is chs w) (λ u t. At e f r (is ++ (host p ∷ [])) chs t)
            (flag_connection e h.connection_id) (λ u. put_connection e p) t
            (flag_connection_lem h.connection_id t is chs k.1)
            λ u w m. put_connection_lem w p is chs m
