-- ===== src/Outbox/Debt.antt =====
-- markCompletionDebt and reconcileCompletionDebt of delivery-outbox.js.
use openclaw_scheduler.Base.{
  ℕ, String, Bool, true, false, not, ◌&&◌, ◌||◌, List, Option, none, some, ◌==◌, str_eq,
  if◌then◌else◌, filled, or_else, holds_text, datetime, count_of,
}
use openclaw_scheduler.Base.Table.{update_where}
use openclaw_scheduler.Outbox.Row.{
  Delivery, Debt, DebtStatus, Outbox, is_delivered, is_failed, is_cancelled,
}

pub record Completion : Type 0 where
  pub label : String
  pub scope : String

abbrev both : Option String → Option String → Option Completion
both (some label) (some scope) = some (record { label = label; scope = scope })
both _ _ = none

-- `!delivery?.completion_label || !delivery?.completion_scope`
abbrev pub completion_of : Option Delivery → Option Completion
completion_of none = none
completion_of (some d) = both (filled d.completion_label) (filled d.completion_scope)

abbrev is_open : DebtStatus → Bool
is_open DebtStatus.opened = true
is_open _ = false

abbrev is_closed : DebtStatus → Bool
is_closed DebtStatus.closed = true
is_closed _ = false

abbrev pub mark_debt : DebtStatus → String → ℕ → Debt → Debt
mark_debt status reason now d = record d {
  status = status;
  open_reason = if is_open status then some reason else d.open_reason;
  close_reason = if is_closed status then some reason else none;
  opened_at = if is_open status then or_else d.opened_at (some (datetime now)) else d.opened_at;
  closed_at = if is_closed status then some (datetime now) else none;
  final_reported_at = if is_closed status then some (datetime now) else d.final_reported_at;
  last_visible_update_at =
      if is_closed status then some (datetime now) else d.last_visible_update_at;
  updated_at = datetime now;
}

-- WHERE task_label = ? AND delivery_scope = ?
unfoldable pub is_debt_of : Completion → Debt → Bool
is_debt_of c d = str_eq d.task_label c.label && str_eq d.delivery_scope c.scope

abbrev pub mark_completion_debt : Completion → DebtStatus → String → ℕ → List Debt → List Debt
mark_completion_debt c status reason now debts =
    update_where (is_debt_of c) (mark_debt status reason now) debts

-- WHERE completion_label = ? AND completion_scope = ?
unfoldable pub is_part_of : Completion → Delivery → Bool
is_part_of c d = holds_text d.completion_label c.label && holds_text d.completion_scope c.scope

abbrev pub is_delivered_part : Completion → Delivery → Bool
is_delivered_part c d = is_part_of c d && is_delivered d.status

abbrev pub is_failed_part : Completion → Delivery → Bool
is_failed_part c d = is_part_of c d && (is_failed d.status || is_cancelled d.status)

unfoldable pub debt_verdict : Completion → List Delivery → DebtStatus
debt_verdict c rows =
    let total = count_of (is_part_of c) rows in
    let delivered = count_of (is_delivered_part c) rows in
    let failed = count_of (is_failed_part c) rows in
    if not (total == 0) && delivered == total
    then DebtStatus.closed
    else if not (failed == 0)
    then DebtStatus.opened
    else DebtStatus.delivering

abbrev pub reason_of : DebtStatus → String
reason_of DebtStatus.closed = "confirmed-completion-delivered"
reason_of DebtStatus.opened = "completion-delivery-failed"
reason_of _ = "completion-enqueued-durably"

unfoldable pub reconcile : Option Completion → ℕ → Outbox → Outbox
unfolding debt_verdict
reconcile none now o = o
reconcile (some c) now o =
    let status = debt_verdict c o.rows in
    record o { debts = mark_completion_debt c status (reason_of status) now o.debts }

-- reconcileCompletionDebt of the row that a key names now
abbrev pub reconcile_row : Option Delivery → ℕ → Outbox → Outbox
reconcile_row d now o = reconcile (completion_of d) now o
