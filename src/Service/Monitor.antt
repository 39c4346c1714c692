-- ===== src/Service/Monitor.antt =====
-- The goroutines of the service. A loop takes the number of rounds that it may make; `others` is what
-- the other goroutines have done until it next looks at what they share.
use friendlyrabbit.Base.{
  ℕ, zero, suc, Bool, true, Option, none, some, List, [], ◌∷◌, Action, done, panic, pure, waits,
  choose, leb, ◌>>=◌, ◌>>◌,
}
use friendlyrabbit.Error.{Error, retrying, publisher_shut, retries_exhausted, no_letter}
use friendlyrabbit.Config.{PublisherConfig}
use friendlyrabbit.Env.{Env}
use friendlyrabbit.Payload.Packages.{Packages}
use friendlyrabbit.Message.Letter.{Letter, PublishReceipt}
use friendlyrabbit.Pool.State.{call}
use friendlyrabbit.Publisher.Queue as PublisherQueue
use friendlyrabbit.Consumer.State.{Incoming}
use friendlyrabbit.Service.State.{Service, on_publisher, on_pool, put_publisher, send_central}
use friendlyrabbit.Service.Stop.{meanwhile}

module _ (e : Env) (k : Packages) (i : Incoming e k) (others : Service e k i → Service e k i) where
  -- Sleeps for the interval and goes on.
  unfoldable pub rest_and : Action (Service e k i) (Unit {0}) → Action (Service e k i) (Unit {0})
  rest_and again s = (do on_pool e k i (call e (e.sleep s.monitor_sleep_interval)); again) s

  unfoldable pub after_signal :
      Action (Service e k i) (Unit {0}) → List Bool → Action (Service e k i) (Unit {0})
  unfolding rest_and
  after_signal again [] s = rest_and again s
  after_signal again (b ∷ rest) s = done tt (record s { shutdown_signal = rest; shutdown = true })

  unfoldable pub monitor_for_shutdown : ℕ → Action (Service e k i) (Unit {0})
  unfolding after_signal
  monitor_for_shutdown zero = waits
  monitor_for_shutdown (suc tries) =
      let again = monitor_for_shutdown tries in
      do meanwhile e k i others; λ s. after_signal again s.shutdown_signal s

  -- The head of a loop that ends when the service is shut down.
  unfoldable pub unless_shut : Action (Service e k i) (Unit {0}) → Action (Service e k i) (Unit {0})
  unless_shut go_on = do meanwhile e k i others; λ s. choose s.shutdown (pure tt) go_on s

  unfoldable pub after_receive :
      Action (Service e k i) (Unit {0})
      → (PublishReceipt k → Action (Service e k i) (Unit {0}))
      → List (PublishReceipt k)
      → Action (Service e k i) (Unit {0})
  unfolding rest_and
  after_receive again handle [] = rest_and again
  after_receive again handle (r ∷ rest) = do
    λ s. done tt (put_publisher e k i (record (s.publisher) { publish_receipts = rest }) s)
    handle r
    again

  unfoldable pub receipts_loop :
      (PublishReceipt k → Action (Service e k i) (Unit {0})) → ℕ → Action (Service e k i) (Unit {0})
  unfolding unless_shut after_receive
  receipts_loop handle zero = waits
  receipts_loop handle (suc tries) =
      let again = receipts_loop handle tries in
      unless_shut (λ s. after_receive again handle s.publisher.publish_receipts s)

  unfoldable pub invoke_process_publish_receipts :
      (PublishReceipt k → e.Net → Unit {0} × e.Net) → ℕ → Action (Service e k i) (Unit {0})
  unfolding receipts_loop
  invoke_process_publish_receipts process tries =
      receipts_loop (λ r. on_pool e k i (call e (process r))) tries

  unfoldable pub queue_again : k.Uuid → Letter k → Action (Service e k i) (Unit {0})
  queue_again id l = do
    sent ← on_publisher e k i (PublisherQueue.queue_letter e k l)
    choose sent (pure tt) (send_central e k i (publisher_shut (k.uuid_string id)))

  -- A letter that is under its bound of retries is reported and queued again.
  unfoldable pub retry_under :
      k.Uuid → Letter k → Option PublisherConfig → Action (Service e k i) (Unit {0})
  unfolding queue_again
  retry_under id l none s = panic s
  retry_under id l (some c) s =
      choose (leb l.opts.retry_count c.max_retry_count)
        (do send_central e k i (retrying (k.uuid_string id) l.opts.retry_count); queue_again id l)
        (send_central e k i (retries_exhausted (k.uuid_string id))) s

  unfoldable pub retry : k.Uuid → Option (Letter k) → Action (Service e k i) (Unit {0})
  unfolding retry_under
  retry id none s = send_central e k i (no_letter (k.uuid_string id)) s
  retry id (some l) s = retry_under id l s.config.publisher_config s

  unfoldable pub process_receipt : PublishReceipt k → Action (Service e k i) (Unit {0})
  unfolding retry
  process_receipt r = choose r.success (pure tt) (retry r.letter_id r.failed_letter)

  unfoldable pub process_publish_receipts : ℕ → Action (Service e k i) (Unit {0})
  unfolding receipts_loop process_receipt
  process_publish_receipts tries = receipts_loop process_receipt tries

  unfoldable pub after_error :
      Action (Service e k i) (Unit {0})
      → (Error → e.Net → Unit {0} × e.Net)
      → List Error
      → Action (Service e k i) (Unit {0})
  unfolding rest_and
  after_error again process [] = rest_and again
  after_error again process (x ∷ rest) = do
    λ s. done tt (record s { central_err = rest })
    on_pool e k i (call e (process x))
    again

  unfoldable pub invoke_process_error :
      (Error → e.Net → Unit {0} × e.Net) → ℕ → Action (Service e k i) (Unit {0})
  unfolding unless_shut after_error
  invoke_process_error process zero = waits
  invoke_process_error process (suc tries) =
      let again = invoke_process_error process tries in
      unless_shut (λ s. after_error again process s.central_err s)

  -- `print` is the call of `fmt.Printf`.
  unfoldable pub process_errors :
      (Error → e.Net → Unit {0} × e.Net) → ℕ → Action (Service e k i) (Unit {0})
  unfolding invoke_process_error
  process_errors print tries = invoke_process_error print tries
