-- ===== src/Message/Promises.antt =====
-- What holds of letters, of their headers and receipts, and of answering a delivery.
use friendlyrabbit.Base.{
  lookup-insert, ℕ, zero, suc, ◌+◌, ◌%◌, ◌<◌, ◌≡◌, refl, ◌⊎◌, inl, inr, String, Bool, true, false,
  Option, none, some, str_eq, arith, if◌then◌else◌,
}
use friendlyrabbit.Error.{Error, not_ackable, no_acknowledger}
use friendlyrabbit.Payload.Packages.{Packages}
use friendlyrabbit.Message.Letter.{Table, set_header, header, Letter, receipt_of}
use friendlyrabbit.Message.Received.{Acknowledger, answer}

module _ (k : Packages) where
  -- The letter that a failed publish puts in the receipt.
  abbrev next_letter : Option (Letter k) → Letter k → Letter k
  next_letter none l = l
  next_letter (some l') l = l'

  -- The letter after the given number of failed publishes in a row, each of the letter in the
  -- receipt of the last.
  unfoldable pub fail_times : ℕ → Error → Letter k → Letter k
  unfolding receipt_of
  fail_times zero x l = l
  fail_times (suc n) x l =
      let before = fail_times n x l in
      next_letter (receipt_of k before (some x)).failed_letter before

  -- After n failed publishes in a row the letter has the same id and body, and its retry count, a
  -- uint16, has gone up by n modulo 2^16: after enough failures it is small again.
  pub fail_times-retry_count :
      (n : ℕ) (x : Error) (l : Letter k)
      → l.opts.retry_count < 65536
      → ((fail_times n x l).letter_id ≡ l.letter_id)
        × ((fail_times n x l).body ≡ l.body)
        × ((fail_times n x l).opts.retry_count ≡ (l.opts.retry_count + n) % 65536)
  unfolding fail_times receipt_of
  fail_times-retry_count zero x l lt = (refl, refl, omega arith)
  fail_times-retry_count (suc n) x l lt =
      let (same_id, same_body, count) = fail_times-retry_count n x l lt in
      (same_id, same_body, omega (arith, count))

module _ (Net Time : Type 0) where
  -- An ended call of the acknowledger, refused: an error, and nothing has happened outside.
  abbrev pub Refuses : (Net → Option Error × Net) → Type 0
  Refuses f = (n : Net) → (x : Error) × (f n ≡ (some x, n))

  answer_refused :
      (send : Acknowledger Net → Net → Option Error × Net) (b : Bool)
      (a : Option (Acknowledger Net))
      → (b ≡ false) ⊎ (a ≡ none)
      → Refuses (answer Net Time send b a)
  unfolding answer
  answer_refused send false a why n = (not_ackable, refl)
  answer_refused send true none why n = (no_acknowledger, refl)
  answer_refused send true (some a) (inl q) n = absurd cc
  answer_refused send true (some a) (inr q) n = absurd cc

module _ (k : Packages) where
  -- Setting a header and looking one up: the key that was set has the new value, and each other key
  -- has the value that it had, or none.
  pub header-set_header :
      (key j : String) (v : k.HeaderValue) (t : Table k)
      → header k j (set_header k key v t) ≡ (if str_eq key j then some v else header k j t)
  unfolding header set_header
  header-set_header key j v t = lookup-insert key j v t
