-- ===== src/Outbox/Row.antt =====
-- The rows of delivery_outbox, and the two tables that a delivery writes.
use openclaw_scheduler.Base.{
  ℕ, String, Bool, true, false, List, Option, none, some, ltb, leb, filled_or, slice,
}
use openclaw_scheduler.Base.Table.{find}

-- DELIVERY_STATUSES
pub data DeliveryStatus : Type 0 where
  pending claimed delivered failed cancelled : DeliveryStatus

-- What last_error holds: a text, or the text that a template makes of its arguments.
pub data ErrorText : Type 0 where
  text : String → ErrorText
  stopped_after_part : Option ℕ → String → ErrorText
  stopped_after_cancellation : String → ErrorText

pub record Delivery : Type 0 where
  pub id : String
  pub message_id : Option String
  pub job_id : Option String
  pub run_id : Option String
  pub channel : String
  pub target : String
  pub body : String
  pub status : DeliveryStatus
  pub idempotency_key : Option String
  pub delivery_group_id : Option String
  pub part_index : Option ℕ
  pub part_count : Option ℕ
  pub completion_label : Option String
  pub completion_scope : Option String
  pub attempt_count : ℕ
  pub max_attempts : ℕ
  pub next_attempt_at : ℕ
  pub claim_owner : Option String
  pub claim_token : Option String
  pub claim_expires_at : Option ℕ
  pub last_error : Option ErrorText
  pub created_at : ℕ
  pub delivered_at : Option ℕ

-- tracking, open, delivering, closed
pub data DebtStatus : Type 0 where
  tracking opened delivering closed : DebtStatus

-- The columns of completion_debts that the outbox reads and writes.
pub record Debt : Type 0 where
  pub id : String
  pub task_label : String
  pub delivery_scope : String
  pub status : DebtStatus
  pub open_reason : Option String
  pub close_reason : Option String
  pub opened_at : Option ℕ
  pub closed_at : Option ℕ
  pub final_reported_at : Option ℕ
  pub last_visible_update_at : Option ℕ
  pub updated_at : ℕ

pub record Outbox : Type 0 where
  pub rows : List Delivery
  pub debts : List Debt

pub data DeliveryError : Type 0 where
  owner_required bad_limit bad_lease bad_delay bad_max_attempts bad_retention : DeliveryError
  prune_mismatch : DeliveryError

abbrev pub delivery_key : Delivery → String
delivery_key d = d.id

-- getDeliveryRow, without the name of the job
abbrev pub get_delivery_row : String → List Delivery → Option Delivery
get_delivery_row = find delivery_key

abbrev pub is_pending : DeliveryStatus → Bool
is_pending DeliveryStatus.pending = true
is_pending _ = false

abbrev pub is_claimed : DeliveryStatus → Bool
is_claimed DeliveryStatus.claimed = true
is_claimed _ = false

abbrev pub is_delivered : DeliveryStatus → Bool
is_delivered DeliveryStatus.delivered = true
is_delivered _ = false

abbrev pub is_failed : DeliveryStatus → Bool
is_failed DeliveryStatus.failed = true
is_failed _ = false

abbrev pub is_cancelled : DeliveryStatus → Bool
is_cancelled DeliveryStatus.cancelled = true
is_cancelled _ = false

-- `status IN ('pending', 'failed')`
abbrev pub is_waiting : DeliveryStatus → Bool
is_waiting DeliveryStatus.pending = true
is_waiting DeliveryStatus.failed = true
is_waiting _ = false

-- `status IN ('pending', 'claimed', 'failed')`
abbrev pub is_open : DeliveryStatus → Bool
is_open DeliveryStatus.pending = true
is_open DeliveryStatus.claimed = true
is_open DeliveryStatus.failed = true
is_open _ = false

-- `part_index < ?` and `part_index > ?`, never true at NULL.
abbrev pub is_before : Option ℕ → ℕ → Bool
is_before none n = false
is_before (some m) n = ltb m n

abbrev pub is_after : Option ℕ → ℕ → Bool
is_after none n = false
is_after (some m) n = ltb n m

-- `column <= ?`, never true at NULL.
abbrev pub is_at_most : Option ℕ → ℕ → Bool
is_at_most none n = false
is_at_most (some m) n = leb m n

-- clearClaimSql
abbrev pub clear_claim : Delivery → Delivery
clear_claim d = record d { claim_owner = none; claim_token = none; claim_expires_at = none }

-- `String(error || 'Delivery failed').slice(0, 4000)`, of an error's message.
abbrev pub clipped : Option String → String → String
clipped given fallback = slice 4000 (filled_or given fallback)
