-- ===== src/Publisher/Reopening.antt =====
-- PublishWithConfirmation after an error of the publish: the channel is opened anew.
use friendlyrabbit.Base.{ℕ, ◌≡◌, List, [], ◌∷◌, ◌++◌}
use friendlyrabbit.Error.{Error}
use friendlyrabbit.Env.{Env}
use friendlyrabbit.Env.Fifo.{IsFifo}
use friendlyrabbit.Payload.Packages.{Packages}
use friendlyrabbit.Message.Letter.{Letter}
use friendlyrabbit.Pool.State.{ChannelHost, Pool}
use friendlyrabbit.Pool.Steady.Channel.{IsSame, IsUsable}
use friendlyrabbit.Pool.View.{IsSound, At}
use friendlyrabbit.Publisher.State.{Broker, Publisher}

module _ (e : Env) (k : Packages) (b : Broker e k) (f : IsFifo e) (rounds tries timeout : ℕ)
    (l : Letter k) (s : Publisher e k) (sound : IsSound e f s.pool) where
  -- After an error on the channel of `ch`: the channel host is the last of the cache, with a channel
  -- that was opened anew, and otherwise nothing that is looked at has changed.
  pub record IsReopened (ch : ChannelHost e) (rest : List (ChannelHost e)) (t : Publisher e k)
      : Type 0 where
    pub channel : ChannelHost e
    pub same : IsSame e ch channel
    pub usable : IsUsable e channel
    pub pool : At e f s.pool (f.contents s.pool.connections) (rest ++ (channel ∷ [])) t.pool
    pub receipts : t.publish_receipts ≡ s.publish_receipts
    pub letters : t.letters ≡ s.letters
