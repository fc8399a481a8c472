-- ===== src/Inbox/Ops.antt =====
-- Delivery, reading, expiry and pruning of messages (messages.js).
use openclaw_scheduler.Base.{
  ℕ, ◌+◌, ◌*◌, String, Bool, true, false, not, ◌&&◌, ◌||◌, List, [], ◌∷◌, ◌++◌, Option, none, some,
  ltb, if◌then◌else◌, or_else, filled_or, datetime, keep, count_of,
}
use openclaw_scheduler.Base.Table.{modify, returning, update_where}
use openclaw_scheduler.Inbox.Row.{
  Message, MessageStatus, MessageKind, MessageError, Receipt, ReceiptEvent, ReceiptDetail, Inbox,
  message_key, get_message, is_pending, is_unread, is_for,
}

abbrev receipt : String → ReceiptEvent → Option ℕ → String → Option ReceiptDetail → ℕ → Receipt
receipt id event attempt actor detail now = record {
  message_id = id;
  event_type = event;
  attempt = attempt;
  actor = actor;
  detail = detail;
  created_at = datetime now;
}

-- addReceipt after an update that returned a row
abbrev with_receipt : Option Message → Receipt → List Receipt → List Receipt
with_receipt none r rs = rs
with_receipt (some m) r rs = rs ++ r ∷ []

abbrev pub attempt_row : Option MessageError → Message → Message
attempt_row error m = record m { delivery_attempts = m.delivery_attempts + 1; last_error = error }

abbrev anyone : Message → Bool
anyone m = true

abbrev text_detail : Option String → Option ReceiptDetail
text_detail none = none
text_detail (some s) = some (ReceiptDetail.text s)

abbrev error_of : Bool → Option String → Option String
error_of true error = none
error_of false error = some (filled_or error "Delivery failed")

abbrev error_text : Option String → Option MessageError
error_text none = none
error_text (some s) = some (MessageError.reason s)

abbrev event_of : Bool → ReceiptEvent
event_of succeeded = if succeeded then ReceiptEvent.attempt else ReceiptEvent.error

unfoldable pub record_message_attempt :
    String → Bool → Option String → Option String → ℕ → Inbox → Inbox
record_message_attempt id succeeded actor error now s = elim (get_message id s.messages) [
  | none ↦ s
  | some m ↦ record {
    messages =
        modify message_key id anyone (attempt_row (error_text (error_of succeeded error)))
          s.messages;
    receipts =
        s.receipts
        ++ receipt id (event_of succeeded) (some (m.delivery_attempts + 1))
            (filled_or actor "system") (text_detail (error_of succeeded error)) now
          ∷ [];
  }
]

abbrev pub deliver_row : ℕ → Message → Message
deliver_row now m = record m {
  status = MessageStatus.delivered;
  delivered_at = some (datetime now);
}

abbrev pub can_deliver : Message → Bool
can_deliver m = is_pending m.status

unfoldable pub mark_delivered : String → ℕ → Inbox → Inbox
unfolding record_message_attempt
mark_delivered id now s =
    let after = record s {
      messages = modify message_key id can_deliver (deliver_row now) s.messages;
    } in
    elim (returning message_key id can_deliver (deliver_row now) s.messages) [
      | none ↦ s
      | some m ↦ record_message_attempt id true (some "dispatcher") none now after
    ]

abbrev pub read_row : ℕ → Message → Message
read_row now m = record m {
  status = MessageStatus.read;
  read_at = some (datetime now);
  ack_at = or_else m.ack_at (some (datetime now));
}

abbrev pub can_read : Message → Bool
can_read m = is_unread m.status

unfoldable pub mark_read : String → ℕ → Inbox → Inbox
mark_read id now s = record {
  messages = modify message_key id can_read (read_row now) s.messages;
  receipts =
      with_receipt (returning message_key id can_read (read_row now) s.messages)
        (receipt id ReceiptEvent.ack none "agent" none now) s.receipts;
}

abbrev pub acknowledge_row : ℕ → Message → Message
acknowledge_row now m = record m {
  status = if is_unread m.status then MessageStatus.read else m.status;
  read_at = or_else m.read_at (some (datetime now));
  ack_at = or_else m.ack_at (some (datetime now));
}

unfoldable pub ack_message : String → String → Option String → ℕ → Inbox → Inbox × Option Message
ack_message id actor detail now s =
    let after = modify message_key id anyone (acknowledge_row now) s.messages in
    (
      record {
        messages = after;
        receipts =
            with_receipt (get_message id s.messages)
              (receipt id ReceiptEvent.ack none actor (text_detail detail) now) s.receipts;
      },
      get_message id after,
    )

abbrev pub is_unread_for : String → Message → Bool
is_unread_for agent_id m = is_unread m.status && is_for agent_id m

unfoldable pub mark_all_read : String → ℕ → List Message → List Message
mark_all_read agent_id now ms = update_where (is_unread_for agent_id) (read_row now) ms

unfoldable pub get_unread_count : String → List Message → ℕ
get_unread_count agent_id ms = count_of (is_unread_for agent_id) ms

abbrev is_past : ℕ → Option ℕ → Bool
is_past now none = false
is_past now (some t) = ltb t (datetime now)

abbrev pub is_expired : ℕ → Message → Bool
is_expired now m = is_past now m.expires_at && is_unread m.status

abbrev pub expire_row : Message → Message
expire_row m = record m { status = MessageStatus.expired }

unfoldable pub expire_messages : ℕ → List Message → List Message
expire_messages now ms = update_where (is_expired now) expire_row ms

-- `status IN ('read', 'expired', 'failed')`, `status = 'delivered'`, `kind IN ('system', 'result')`
abbrev is_closed : MessageStatus → Bool
is_closed MessageStatus.read = true
is_closed MessageStatus.expired = true
is_closed MessageStatus.failed = true
is_closed _ = false

abbrev is_delivered : MessageStatus → Bool
is_delivered MessageStatus.delivered = true
is_delivered _ = false

abbrev pub is_notice : MessageKind → Bool
is_notice MessageKind.system = true
is_notice MessageKind.result = true
is_notice _ = false

-- `created_at < datetime('now', '-' || ? || ' days')`
abbrev is_older_than : ℕ → ℕ → Message → Bool
is_older_than days now m = ltb (m.created_at + 86400000 * days) (datetime now)

abbrev pub is_prunable : ℕ → ℕ → ℕ → ℕ → Message → Bool
is_prunable keep_days delivered_keep_days system_keep_days now m =
    (is_closed m.status && is_older_than keep_days now m)
    || (is_delivered m.status && is_older_than delivered_keep_days now m)
    || (is_notice m.kind && is_older_than system_keep_days now m)

-- The three DELETE statements.
unfoldable pub prune_messages : ℕ → ℕ → ℕ → ℕ → List Message → List Message
prune_messages keep_days delivered_keep_days system_keep_days now ms =
    keep (λ m. not (is_prunable keep_days delivered_keep_days system_keep_days now m)) ms
