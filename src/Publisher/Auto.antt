-- ===== src/Publisher/Auto.antt =====
-- The auto-publisher as a system: the loops of startAutoPublishingLoop and deliverLetters, the
-- goroutines that they start, the callers of QueueLetter, StartAutoPublishing and stopAutoPublish,
-- and the rest of the program, interleaved in any order.
pub mod Order
pub mod Loops
pub mod Stopping
use friendlyrabbit.Base.{
  Replace, ℕ, ◌+◌, ◌/◌, ◌<◌, ◌≡◌, suc, Bool, true, false, Option, List, [], ◌∷◌, ◌++◌, done, length,
}
use friendlyrabbit.Error.{Error}
use friendlyrabbit.Env.{Env}
use friendlyrabbit.Payload.Packages.{Packages}
use friendlyrabbit.Message.Letter.{Letter, PublishReceipt, receipt_of}
use friendlyrabbit.Pool.State.{Pool}
use friendlyrabbit.Publisher.State.{Publisher}
use friendlyrabbit.Publisher.Queue.{safe_send, start_auto_publishing, stop_auto_publish}

module _ (e : Env) (k : Packages) where
  -- Where a loop stands.
  pub data Pc : Type 0 where
    selecting : Pc  -- the `select` of startAutoPublishingLoop
    receiving : Pc  -- the first `select` of deliverLetters
    holding : Letter k → Pc  -- before the send on the semaphore
    checking : Pc  -- before the second `select` of deliverLetters
    leaving : Pc  -- before `autoStarted` is reset
    ended : Pc
    -- A nil letter has come from the closed channel: the goroutine that publishes it panics.
    failing : Pc

  -- A loop, with the letters of its goroutines that publish, one slot of its semaphore each.
  pub record Runner : Type 0 where
    pub pc : Pc
    pub workers : List (Letter k)

  -- `MaxCacheChannelCount/2+1`
  abbrev pub slots : Publisher e k → ℕ
  slots p = p.pool.config.max_cache_channel_count / 2 + 1

  -- What a step of a loop does to the letters: nothing, one is received, one is done with.
  pub data Event : Type 0 where
    quiet : Event
    receives : Letter k → Event
    finishes : Letter k → Event

  abbrev pub received_by : Event → List (Letter k)
  received_by quiet = []
  received_by (receives l) = l ∷ []
  received_by (finishes l) = []

  abbrev pub finished_by : Event → List (Letter k)
  finished_by quiet = []
  finished_by (receives l) = []
  finished_by (finishes l) = l ∷ []

  -- A step of one loop, or of a goroutine that it has started. `finish` is the end of
  -- PublishWithConfirmation with some result: its receipt is sent, and the pool is in some state.
  pub data Move (p : Publisher e k) : Runner → Publisher e k → Runner → Event → Type 0 where
    break_outer :
        {ws : List (Letter k)} {rest : List Bool}
        → p.auto_stop ≡ true ∷ rest
        → Move p
            (record { pc = selecting; workers = ws })
            (record p { auto_stop = rest })
            (record { pc = leaving; workers = ws })
            quiet
    deliver :
        {ws : List (Letter k)}
        → p.auto_stop ≡ []
        → Move p
            (record { pc = selecting; workers = ws })
            p
            (record { pc = receiving; workers = ws })
            quiet
    receive :
        {ws : List (Letter k)} {l : Letter k} {rest : List (Letter k)}
        → p.letters ≡ l ∷ rest
        → Move p
            (record { pc = receiving; workers = ws })
            (record p { letters = rest })
            (record { pc = holding l; workers = ws })
            (receives l)
    receive_nil :
        {ws : List (Letter k)}
        → p.letters ≡ []
        → p.letters_closed ≡ true
        → Move p
            (record { pc = receiving; workers = ws })
            p
            (record { pc = failing; workers = ws })
            quiet
    idle :
        {ws : List (Letter k)}
        → p.letters ≡ []
        → p.letters_closed ≡ false
        → Move p
            (record { pc = receiving; workers = ws })
            p
            (record { pc = checking; workers = ws })
            quiet
    acquire :
        {ws : List (Letter k)} {l : Letter k}
        → length ws < slots p
        → Move p
            (record { pc = holding l; workers = ws })
            p
            (record { pc = receiving; workers = l ∷ ws })
            quiet
    stop :
        {ws : List (Letter k)} {rest : List Bool}
        → p.auto_stop ≡ true ∷ rest
        → Move p
            (record { pc = checking; workers = ws })
            (record p { auto_stop = rest; letters_closed = true })
            (record { pc = leaving; workers = ws })
            quiet
    go_on :
        {ws : List (Letter k)}
        → p.auto_stop ≡ []
        → Move p
            (record { pc = checking; workers = ws })
            p
            (record { pc = receiving; workers = ws })
            quiet
    leave :
        {ws : List (Letter k)}
        → Move p
            (record { pc = leaving; workers = ws })
            (record p { auto_started = false })
            (record { pc = ended; workers = ws })
            quiet
    finish :
        {pc : Pc} {ws ws' : List (Letter k)} {l : Letter k} (before after : List (Letter k))
        (x : Option Error) (pool : Pool e)
        → ws ≡ before ++ (l ∷ after)
        → ws' ≡ before ++ after
        → pool.config ≡ p.pool.config
        → Move p
            (record { pc = pc; workers = ws })
            (record p {
              pool = pool;
              publish_receipts = p.publish_receipts ++ (receipt_of k l x ∷ []);
            })
            (record { pc = pc; workers = ws' })
            (finishes l)

  -- The publisher, the loops that have been started, the newest first, the goroutines of
  -- stopAutoPublish that still wait to send, and three records of what has happened: the letters
  -- for which QueueLetter has returned true, those received by a loop, and those whose publishing
  -- has ended with a receipt.
  pub record System : Type 0 where
    pub publisher : Publisher e k
    pub runners : List Runner
    pub signals : ℕ
    pub accepted : List (Letter k)
    pub received : List (Letter k)
    pub finished : List (Letter k)

  pub data Step (s : System) : System → Type 0 where
    queue :
        {p : Publisher e k} (l : Letter k)
        → safe_send e k l s.publisher ≡ done true p
        → Step s (record s { publisher = p; accepted = s.accepted ++ (l ∷ []) })
    refuse :
        {p : Publisher e k} (l : Letter k)
        → safe_send e k l s.publisher ≡ done false p
        → Step s (record s { publisher = p })
    start :
        {p : Publisher e k}
        → start_auto_publishing e k s.publisher ≡ (true, p)
        → Step s (record s {
          publisher = p;
          runners = record { pc = selecting; workers = [] } ∷ s.runners;
        })
    ask_stop :
        stop_auto_publish e k s.publisher ≡ true → Step s (record s { signals = suc s.signals })
    signal :
        {n : ℕ}
        → s.signals ≡ suc n
        → s.publisher.auto_stop ≡ []
        → Step s
            (record s { signals = n; publisher = record (s.publisher) { auto_stop = true ∷ [] } })
    move :
        {r r' : Runner} {rs : List Runner} {p : Publisher e k} {ev : Event}
        → Replace r r' s.runners rs
        → Move s.publisher r p r' ev
        → Step s (record s {
          publisher = p;
          runners = rs;
          received = s.received ++ received_by ev;
          finished = s.finished ++ finished_by ev;
        })
    -- The rest of the program: it uses the pool, and reads and sends receipts.
    outside :
        (pool : Pool e) (receipts : List (PublishReceipt k))
        → pool.config ≡ s.publisher.pool.config
        → Step s (record s {
          publisher = record (s.publisher) { pool = pool; publish_receipts = receipts };
        })

  -- A publisher that NewPublisher has made, before anything is done with it.
  pub record IsFresh (p : Publisher e k) : Type 0 where
    pub no_letters : p.letters ≡ []
    pub is_open : p.letters_closed ≡ false
    pub no_stop : p.auto_stop ≡ []
    pub not_started : p.auto_started ≡ false

  abbrev pub system_of : Publisher e k → System
  system_of p = record {
    publisher = p;
    runners = [];
    signals = 0;
    accepted = [];
    received = [];
    finished = [];
  }

  pub data Reach (s : System) : System → Type 0 where
    begin : Reach s s
    later : {t u : System} → Reach s t → Step t u → Reach s u
