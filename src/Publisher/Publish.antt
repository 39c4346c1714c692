-- ===== src/Publisher/Publish.antt =====
-- Publish, PublishWithTransient, PublishWithConfirmation and PublishWithConfirmationTransient. A
-- loop takes the number of rounds that it may make.
use friendlyrabbit.Base.{
  ℕ, zero, suc, ◌/◌, ◌++◌, Bool, true, false, Option, none, some, [], ◌∷◌, Action, done, pure,
  waits, choose, recovered, ltb, is_nil, not, ◌>>=◌, ◌>>◌,
}
use friendlyrabbit.Error.{Error, confirmation_cancel, confirmation_timeout, Result, ok, err}
use friendlyrabbit.Env.{Env}
use friendlyrabbit.Payload.Packages.{Packages}
use friendlyrabbit.Message.Letter.{Letter, receipt_of}
use friendlyrabbit.Pool.State.{ChannelHost, Pool, call, the}
use friendlyrabbit.Pool.Connection.{millisecond}
use friendlyrabbit.Pool.Channel.{close}
use friendlyrabbit.Pool.Lease.{get_channel_from_pool, return_channel, get_transient_channel}
use friendlyrabbit.Publisher.State.{
  Wake, cancelled, timed_out, settled, Broker, Publisher, on_pool, publishing_of,
}

module _ (e : Env) (k : Packages) (b : Broker e k) where
  -- publishReceipt: the goroutine builds the receipt and sends it.
  unfoldable pub publish_receipt : Letter k → Option Error → Action (Publisher e k) (Unit {0})
  publish_receipt l x s =
      done tt (record s { publish_receipts = s.publish_receipts ++ (receipt_of k l x ∷ []) })

  unfoldable pub send_on : ChannelHost e → Letter k → Action (Pool e) (Option Error)
  send_on ch l s =
      (do c ← the ch.channel; call e (b.publish c (publishing_of e k s.config.application_name l)))
        s

  unfoldable pub report : Bool → Letter k → Option Error → Action (Publisher e k) (Unit {0})
  unfolding publish_receipt
  report receipt l x = choose receipt (publish_receipt l x) (pure tt)

  -- The letter is sent on a channel of the cache, which is then returned.
  unfoldable pub publish_on :
      ℕ → Letter k → Bool → ChannelHost e → Action (Publisher e k) (Option Error)
  unfolding send_on report
  publish_on rounds l receipt ch = do
    x ← on_pool e k (send_on ch l)
    report receipt l x
    on_pool e k (return_channel e rounds ch (not (is_nil x)))
    pure x

  unfoldable pub publish : ℕ → Letter k → Bool → Action (Publisher e k) (Option Error)
  unfolding publish_on
  publish rounds l receipt = do
    ch ← on_pool e k (get_channel_from_pool e)
    publish_on rounds l receipt ch

  -- On a new channel, which is closed whatever comes of it.
  unfoldable pub publish_with_transient : ℕ → Letter k → Action (Publisher e k) (Option Error)
  unfolding send_on
  publish_with_transient rounds l = do
    ch ← on_pool e k (get_transient_channel e rounds false)
    x ← on_pool e k (send_on ch l)
    on_pool e k (recovered (close e ch))
    pure x

  unfoldable pub publish_deferred_confirm :
      ChannelHost e → Letter k → Action (Pool e) (Result (Option b.Confirmation))
  publish_deferred_confirm ch l s =
      (do
        c ← the ch.channel
        call e (b.publish_deferred c (publishing_of e k s.config.application_name l)))
        s

  -- The result of the `select`: whether the broker took the letter, or an error.
  unfoldable pub woken :
      Letter k → ℕ → b.Confirmation → Wake → Action (Pool e) (Bool × Option Error)
  woken l timeout c cancelled = pure (false, some (confirmation_cancel (k.uuid_string l.letter_id)))
  woken l timeout c timed_out =
      pure (false, some (confirmation_timeout (timeout / millisecond) (k.uuid_string l.letter_id)))
  woken l timeout c settled = do acked ← call e (b.acked c); pure (acked, none)

  unfoldable pub wait_publish_confirmation :
      Option b.Confirmation → Letter k → ℕ → Action (Pool e) (Bool × Option Error)
  unfolding woken
  wait_publish_confirmation o l timeout = do
    c ← the o
    w ← call e (b.wait l.opts.ctx timeout c)
    woken l timeout c w

  unfoldable pub pause_after_error : Action (Publisher e k) (Unit {0})
  pause_after_error s =
      choose (ltb 0 s.sleep_on_error) (on_pool e k (call e (e.sleep s.sleep_on_error))) (pure tt) s

  -- A nack, which is neither a confirmation nor an error, goes round again.
  unfoldable pub confirmed :
      Action (Publisher e k) (Option Error)
      → Letter k
      → Bool × Option Error
      → Action (Publisher e k) (Option Error)
  unfolding publish_receipt
  confirmed again l (false, none) = again
  confirmed again l (true, none) = do publish_receipt l none; pure none
  confirmed again l (acked, some x) = do publish_receipt l (some x); pure (some x)

  unfoldable pub after_publish :
      Action (Publisher e k) (Option Error)
      → Letter k
      → ℕ
      → Result (Option b.Confirmation)
      → Action (Publisher e k) (Option Error)
  unfolding pause_after_error wait_publish_confirmation confirmed
  after_publish again l timeout (err x) = do pause_after_error; again
  after_publish again l timeout (ok c) = do
    r ← on_pool e k (wait_publish_confirmation c l timeout)
    confirmed again l r

  abbrev pub has_failed : Result (Option b.Confirmation) → Bool
  has_failed (ok c) = false
  has_failed (err x) = true

  -- One round on a channel of the cache, which goes back before the confirmation is waited for.
  unfoldable pub confirm_round :
      Action (Publisher e k) (Option Error)
      → ℕ
      → Letter k
      → ℕ
      → ChannelHost e
      → Action (Publisher e k) (Option Error)
  unfolding publish_deferred_confirm after_publish
  confirm_round again rounds l timeout ch = do
    r ← on_pool e k (publish_deferred_confirm ch l)
    on_pool e k (return_channel e rounds ch (has_failed r))
    after_publish again l timeout r

  unfoldable pub publish_with_confirmation :
      ℕ → ℕ → Letter k → ℕ → Action (Publisher e k) (Option Error)
  unfolding confirm_round
  publish_with_confirmation rounds zero l timeout = waits
  publish_with_confirmation rounds (suc tries) l timeout =
      let again = publish_with_confirmation rounds tries l timeout in
      do ch ← on_pool e k (get_channel_from_pool e); confirm_round again rounds l timeout ch

  -- One round on a new channel, which is closed before the confirmation is waited for.
  unfoldable pub transient_round :
      Action (Publisher e k) (Option Error)
      → Letter k
      → ℕ
      → ChannelHost e
      → Action (Publisher e k) (Option Error)
  unfolding publish_deferred_confirm after_publish
  transient_round again l timeout ch = do
    r ← on_pool e k (publish_deferred_confirm ch l)
    on_pool e k (close e ch)
    after_publish again l timeout r

  unfoldable pub publish_with_confirmation_transient :
      ℕ → ℕ → Letter k → ℕ → Action (Publisher e k) (Option Error)
  unfolding transient_round
  publish_with_confirmation_transient rounds zero l timeout = waits
  publish_with_confirmation_transient rounds (suc tries) l timeout =
      let again = publish_with_confirmation_transient rounds tries l timeout in
      do ch ← on_pool e k (get_transient_channel e rounds true); transient_round again l timeout ch
