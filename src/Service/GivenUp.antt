-- ===== src/Service/GivenUp.antt =====
-- When processPublishReceipts gives a letter up that always fails.
use friendlyrabbit.Base.{
  ℕ, suc, ◌+◌, ◌≤◌, ◌<◌, ◌≡◌, ap, ◌∙◌, Bool, false, some, [], ◌∷◌, ◌++◌, done, leb, length, arith,
  if◌then◌else◌,
}
use friendlyrabbit.Error.{Error}
use friendlyrabbit.Config.{PublisherConfig}
use friendlyrabbit.Env.{Env}
use friendlyrabbit.Payload.Packages.{Packages}
use friendlyrabbit.Message.Letter.{Letter, receipt_of}
use friendlyrabbit.Message.Promises.{fail_times, fail_times-retry_count}
use friendlyrabbit.Consumer.State.{Incoming}
use friendlyrabbit.Service.State.{Service}
use friendlyrabbit.Service.Monitor.{process_receipt}
use friendlyrabbit.Service.Retries.{process_receipt-outcome}

module _ (e : Env) (k : Packages) (i : Incoming e k) (others : Service e k i → Service e k i) where
  count_lem :
      (n : ℕ) (x : Error) (l : Letter k)
      → l.opts.retry_count + n < 65536
      → (fail_times k n x l).opts.retry_count ≡ l.opts.retry_count + n
  count_lem n x l small = omega (arith, (fail_times-retry_count k n x l (omega arith)).2)

  -- A letter fails each time that it is published, while its count stays below the wrap of its 16
  -- bits, and the channels have room, that of the letters is open, and there are settings of the publisher. Processing the receipt of the
  -- failure that follows n others returns; it queues the letter again exactly if its count at the
  -- start and n + 1 together are at most the maximum of the settings. So with a maximum below 65535 a
  -- letter that always fails is given up after a known number of failures.
  pub process_receipt-gives_up :
      (n : ℕ) (x : Error) (l : Letter k) (c : PublisherConfig) (s : Service e k i)
      → s.config.publisher_config ≡ some c
      → l.opts.retry_count + suc n < 65536
      → length s.central_err + 2 ≤ 1000
      → length s.publisher.letters + 1 ≤ 1000
      → s.publisher.letters_closed ≡ false
      → (t : Service e k i) × (process_receipt e k i others
            (receipt_of k (fail_times k n x l) (some x))
            s
          ≡ done tt t)
        × (t.publisher.letters
            ≡ s.publisher.letters
              ++ (if leb (l.opts.retry_count + suc n) c.max_retry_count
                  then fail_times k (suc n) x l ∷ []
                  else []))
  unfolding receipt_of fail_times
  process_receipt-gives_up n x l c s there small room place is_open =
      let next = fail_times k (suc n) x l in
      let max = c.max_retry_count in
      (
        _,
        process_receipt-outcome e k i others (receipt_of k (fail_times k n x l) (some x)) c s there
            room place,
        ap
              (λ (b : Bool).
                s.publisher.letters
                ++ (if leb next.opts.retry_count max then (if b then [] else next ∷ []) else []))
              is_open
            ∙ ap (λ n. s.publisher.letters ++ (if leb n max then next ∷ [] else []))
                (count_lem (suc n) x l small),
      )
