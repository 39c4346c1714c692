-- ===== src/Service/Retries.antt =====
-- What processPublishReceipts does with a receipt, and when it gives a letter up.
use mathlib.Core.List.{append-nil, append_assoc}
use friendlyrabbit.Base.{
  ◌+◌, ◌≤◌, ◌≡◌, refl, sym, ap, ◌∙◌, Bool, true, false, Option, none, some, List, [], ◌∷◌, ◌++◌,
  done, pure, choose, leb, length, length-append, arith, ◌>>◌, >>=-done, >>-done, if◌then◌else◌,
  put_back, stuck,
}
use friendlyrabbit.Error.{Error, retrying, publisher_shut, retries_exhausted, no_letter}
use friendlyrabbit.Config.{PublisherConfig}
use friendlyrabbit.Env.{Env}
use friendlyrabbit.Payload.Packages.{Packages}
use friendlyrabbit.Message.Letter.{Letter, PublishReceipt}
use friendlyrabbit.Publisher.Queue as PublisherQueue
use friendlyrabbit.Publisher.Queue.Ends.{safe_send_open, safe_send_closed}
use friendlyrabbit.Consumer.State.{Incoming}
use friendlyrabbit.Service.State.{Service, put_publisher, on_publisher, send_central}
use friendlyrabbit.Service.Monitor.{queue_again, retry_under, retry, process_receipt}

module _ (e : Env) (k : Packages) (i : Incoming e k) (others : Service e k i → Service e k i) where
  -- The letter has not been tried too often.
  abbrev pub may_retry : Letter k → PublisherConfig → Bool
  may_retry l c = leb l.opts.retry_count c.max_retry_count

  -- The letters that are queued again.
  abbrev pub requeued : Bool → Option (Letter k) → PublisherConfig → Service e k i → List (Letter k)
  requeued true o c s = []
  requeued false none c s = []
  requeued false (some l) c s =
      if may_retry l c then (if s.publisher.letters_closed then [] else l ∷ []) else []

  -- The errors that are reported.
  abbrev pub reports :
      k.Uuid → Bool → Option (Letter k) → PublisherConfig → Service e k i → List Error
  reports id true o c s = []
  reports id false none c s = no_letter (k.uuid_string id) ∷ []
  reports id false (some l) c s =
      if may_retry l c
      then retrying (k.uuid_string id) l.opts.retry_count
        ∷ (if s.publisher.letters_closed then publisher_shut (k.uuid_string id) ∷ [] else [])
      else retries_exhausted (k.uuid_string id) ∷ []

  -- The service with more letters in the channel and more errors.
  abbrev pub with_more : List (Letter k) → List Error → Service e k i → Service e k i
  with_more ls xs s = record s {
    publisher = record (s.publisher) { letters = s.publisher.letters ++ ls };
    central_err = s.central_err ++ xs;
  }

  -- No more letters.
  no_more :
      (xs : List Error) (s : Service e k i)
      → record s { central_err = s.central_err ++ xs } ≡ with_more [] xs s
  no_more xs s =
      ap
        (λ ls. record s {
          publisher = record (s.publisher) { letters = ls };
          central_err = s.central_err ++ xs;
        })
        (sym (append-nil s.publisher.letters))

  send_central_lem :
      (x : Error) (s : Service e k i)
      → length s.central_err + 1 ≤ 1000
      → send_central e k i x s ≡ done tt (record s { central_err = s.central_err ++ (x ∷ []) })
  unfolding send_central
  send_central_lem x s room =
      ap
        (λ (full : Bool).
          if full then stuck else done tt (record s { central_err = s.central_err ++ (x ∷ []) }))
        (is_free room)
    where
      is_free : length s.central_err + 1 ≤ 1000 → leb 1000 (length s.central_err) ≡ false
      is_free h = ground arith

  queue_again_open :
      (id : k.Uuid) (l : Letter k) (s : Service e k i)
      → s.publisher.letters_closed ≡ false
      → length s.publisher.letters + 1 ≤ 1000
      → queue_again e k i others id l s
        ≡ done tt (record s {
          publisher = record (s.publisher) { letters = s.publisher.letters ++ (l ∷ []) };
        })
  unfolding queue_again on_publisher PublisherQueue.queue_letter choose pure
  queue_again_open id l s is_open room =
      >>=-done (on_publisher e k i (PublisherQueue.queue_letter e k l)) _ s (
        ap (put_back (λ s. s.publisher) (put_publisher e k i) s)
          (safe_send_open e k l s.publisher is_open (ground arith)))

  queue_again_shut :
      (id : k.Uuid) (l : Letter k) (s : Service e k i)
      → s.publisher.letters_closed ≡ true
      → length s.central_err + 1 ≤ 1000
      → queue_again e k i others id l s
        ≡ done tt
            (record s { central_err = s.central_err ++ (publisher_shut (k.uuid_string id) ∷ []) })
  unfolding queue_again on_publisher PublisherQueue.queue_letter choose pure
  queue_again_shut id l s is_shut room =
      >>=-done (on_publisher e k i (PublisherQueue.queue_letter e k l)) _ s (
        ap (put_back (λ s. s.publisher) (put_publisher e k i) s)
          (safe_send_closed e k l s.publisher is_shut))
      ∙ send_central_lem _ s room

  -- A failed letter, by whether it may be retried and whether the channel of letters is closed.
  failed_lem :
      (id : k.Uuid) (l : Letter k) (s : Service e k i) (may is_shut : Bool)
      → s.publisher.letters_closed ≡ is_shut
      → length s.central_err + 2 ≤ 1000
      → length s.publisher.letters + 1 ≤ 1000
      → choose may
          (send_central e k i (retrying (k.uuid_string id) l.opts.retry_count)
            >> queue_again e k i others id l)
          (send_central e k i (retries_exhausted (k.uuid_string id)))
          s
        ≡ done tt (
            with_more
              (if may then (if is_shut then [] else l ∷ []) else [])
              (if may
                then retrying (k.uuid_string id) l.opts.retry_count
                  ∷ (if is_shut then publisher_shut (k.uuid_string id) ∷ [] else [])
                else retries_exhausted (k.uuid_string id) ∷ [])
              s)
  unfolding choose
  failed_lem id l s false is_shut h room place =
      send_central_lem _ s (omega arith) ∙ ap (done tt) (no_more _ s)
  failed_lem id l s true false h room place =
      >>-done _ _ s (send_central_lem _ s (omega arith)) ∙ queue_again_open id l _ h place
  failed_lem id l s true true h room place =
      let x = retrying (k.uuid_string id) l.opts.retry_count in
      let y = publisher_shut (k.uuid_string id) in
      >>-done _ _ s (send_central_lem x s (omega arith))
      ∙ queue_again_shut id l _ h (omega (arith, length-append s.central_err (x ∷ [])))
      ∙ ap (λ xs. done tt (record s { central_err = xs }))
          (append_assoc s.central_err (x ∷ []) (y ∷ []))
      ∙ ap (done tt) (no_more (x ∷ (y ∷ [])) s)

  retry_lem :
      (id : k.Uuid) (o : Option (Letter k)) (c : PublisherConfig) (s : Service e k i)
      → s.config.publisher_config ≡ some c
      → length s.central_err + 2 ≤ 1000
      → length s.publisher.letters + 1 ≤ 1000
      → retry e k i others id o s
        ≡ done tt (with_more (requeued false o c s) (reports id false o c s) s)
  unfolding retry retry_under
  retry_lem id none c s there room place =
      send_central_lem _ s (omega arith) ∙ ap (done tt) (no_more _ s)
  retry_lem id (some l) c s there room place =
      ap (λ o. retry_under e k i others id l o s) there
      ∙ failed_lem id l s (may_retry l c) s.publisher.letters_closed refl room place

  -- While there is room in the Go channels of errors and of letters, and there are settings of the
  -- publisher, processing a receipt returns.
  -- Of a success it changes nothing. A failed letter that is in the receipt is put at the end of the
  -- channel of letters, once, if its retry count is at most the maximum of the settings and the
  -- channel is open; what has happened is reported, as a retry, a retry that could not be queued, a
  -- letter that is given up, or a receipt without its letter; and nothing else changes.
  pub process_receipt-outcome :
      (r : PublishReceipt k) (c : PublisherConfig) (s : Service e k i)
      → s.config.publisher_config ≡ some c
      → length s.central_err + 2 ≤ 1000
      → length s.publisher.letters + 1 ≤ 1000
      → process_receipt e k i others r s
        ≡ done tt (
            with_more
              (requeued r.success r.failed_letter c s)
              (reports r.letter_id r.success r.failed_letter c s)
              s)
  unfolding process_receipt pure choose
  process_receipt-outcome r c s there room place = ends r.success
    where
      ends :
          (b : Bool)
          → choose b (pure tt) (retry e k i others r.letter_id r.failed_letter) s
            ≡ done tt (
                with_more
                  (requeued b r.failed_letter c s)
                  (reports r.letter_id b r.failed_letter c s)
                  s)
      ends true =
          ap (λ xs. done tt (record s { central_err = xs })) (sym (append-nil s.central_err))
          ∙ ap (done tt) (no_more [] s)
      ends false = retry_lem r.letter_id r.failed_letter c s there room place
