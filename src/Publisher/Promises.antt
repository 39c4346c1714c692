-- ===== src/Publisher/Promises.antt =====
-- What the publishing calls promise of a publisher whose pool is sound.
use friendlyrabbit.Base.{some, ℕ, ◌<◌, ◌≡◌, refl, Bool, true, List, ◌∷◌, Ensures}
use friendlyrabbit.Env.{Env}
use friendlyrabbit.Env.Fifo.{IsFifo}
use friendlyrabbit.Payload.Packages.{Packages}
use friendlyrabbit.Message.Letter.{Letter}
use friendlyrabbit.Pool.State.{ChannelHost}
use friendlyrabbit.Pool.View.{IsSound, At-here}
use friendlyrabbit.Publisher.State.{Broker, Publisher}
use friendlyrabbit.Publisher.Publish.{publish}
use friendlyrabbit.Publisher.Sent.{Published, publish_lem}

module _ (e : Env) (k : Packages) (b : Broker e k) (f : IsFifo e) (rounds : ℕ) (l : Letter k)
    (s : Publisher e k) (sound : IsSound e f s.pool) where
  -- Publish, from a sound pool whose cache begins with a channel host that holds a channel and was
  -- made for the cache, does not panic. If it returns, then with what the broker returned of the
  -- letter on this channel. The channel host is the last of the cache then, as it was if there was no
  -- error, and otherwise with a channel that was opened anew and put in confirm mode if it is
  -- ackable; the rest of the cache, the queue and the letters are as they were; and exactly if a
  -- receipt is asked for there is one more: of the success, or of the failure, with the error and
  -- with the letter, whose count of 16 bits is one higher.
  pub publish-receipt :
      (receipt : Bool) (ch : ChannelHost e) (c : e.Channel) (rest : List (ChannelHost e))
      → s.pool.channels ≡ ch ∷ rest
      → ch.channel ≡ some c
      → ch.transient ≡ true
      → ch.conn_host < s.pool.next_host
      → Ensures
          (Published e k b f s.pool (f.contents s.pool.connections) ch c rest l receipt s)
          (publish e k b rounds l receipt s)
  publish-receipt receipt ch c rest same present cached lt =
      publish_lem e k b f rounds l receipt s.pool s _ ch c rest
        (At-here e f s.pool _ (ch ∷ rest) sound refl same) present cached lt
