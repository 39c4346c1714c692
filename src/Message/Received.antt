-- ===== src/Message/Received.antt =====
-- ReceivedMessage: acknowledging, refusing and rejecting a delivery on the channel it came from.
use friendlyrabbit.Base.{ℕ, String, Bool, true, false, Option, none, some, List}
use friendlyrabbit.Error.{Error, not_ackable, no_acknowledger}

-- `amqp.Delivery` and its Acknowledger, which may be nil. Its methods act on the outside world.
pub record Acknowledger (Net : Type 0) : Type 0 where
  pub ack : ℕ → Bool → Net → Option Error × Net
  pub nack : ℕ → Bool → Bool → Net → Option Error × Net
  pub reject : ℕ → Bool → Net → Option Error × Net

module _ (Net Time : Type 0) where
  pub record Delivery : Type 0 where
    pub acknowledger : Option (Acknowledger Net)
    pub delivery_tag : ℕ  -- uint64
    pub body : List ℕ
    pub message_id : String
    pub app_id : String
    pub timestamp : Time

  pub record ReceivedMessage : Type 0 where
    pub is_ackable : Bool
    pub body : List ℕ
    pub message_id : String
    pub application_id : String
    pub publish_date : String
    pub delivery : Delivery

  -- `format` is `Format(time.RFC3339)`.
  unfoldable pub new_received_message : (Time → String) → Bool → Delivery → ReceivedMessage
  new_received_message format is_ackable d = record {
    is_ackable = is_ackable;
    body = d.body;
    message_id = d.message_id;
    application_id = d.app_id;
    publish_date = format d.timestamp;
    delivery = d;
  }

  -- The two refusals, and otherwise the call of the acknowledger.
  unfoldable pub answer :
      (Acknowledger Net → Net → Option Error × Net)
      → Bool
      → Option (Acknowledger Net)
      → Net
      → Option Error × Net
  answer send false a net = (some not_ackable, net)
  answer send true none net = (some no_acknowledger, net)
  answer send true (some a) net = send a net

  unfoldable pub acknowledge : ReceivedMessage → Net → Option Error × Net
  unfolding answer
  acknowledge m =
      answer (λ a. a.ack m.delivery.delivery_tag false) m.is_ackable m.delivery.acknowledger

  unfoldable pub nack : Bool → ReceivedMessage → Net → Option Error × Net
  unfolding answer
  nack requeue m =
      answer (λ a. a.nack m.delivery.delivery_tag false requeue) m.is_ackable
        m.delivery.acknowledger

  unfoldable pub reject : Bool → ReceivedMessage → Net → Option Error × Net
  unfolding answer
  reject requeue m =
      answer (λ a. a.reject m.delivery.delivery_tag requeue) m.is_ackable m.delivery.acknowledger
