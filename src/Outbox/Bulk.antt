-- ===== src/Outbox/Bulk.antt =====
-- Cancelling the deliveries of a run or a job, and retrying a failed one (delivery-outbox.js).
use openclaw_scheduler.Base.{
  ℕ, ◌+◌, max, String, Bool, true, false, ◌&&◌, List, [], ◌∷◌, Option, none, some, if◌then◌else◌,
  filled, holds_text, same_text, is_some, datetime, Result, ok, ◌>>=◌, keep, any_of, count_of,
}
use openclaw_scheduler.Base.Table.{update_where}
use openclaw_scheduler.Outbox.Row.{
  Delivery, DeliveryStatus, DeliveryError, bad_max_attempts, Outbox, get_delivery_row, is_failed,
  is_cancelled, is_after, clipped,
}
use openclaw_scheduler.Outbox.Debt.{completion_of, reconcile, reconcile_row}
use openclaw_scheduler.Outbox.Recover.{time_of}
use openclaw_scheduler.Outbox.Claim.{positive}
use openclaw_scheduler.Outbox.Finish.{Transition, settle, cancel_row, is_open_row}

abbrev same_completion : Delivery → Delivery → Bool
same_completion a b =
    same_text a.completion_label b.completion_label
    && same_text a.completion_scope b.completion_scope

-- SELECT DISTINCT completion_label, completion_scope
unfoldable pub distinct_completions : List Delivery → List Delivery → List Delivery
distinct_completions seen [] = []
distinct_completions seen (d ∷ ds) =
    let new = distinct_completions (d ∷ seen) ds in
    let old = distinct_completions seen ds in
    if any_of (same_completion d) seen then old else d ∷ new

unfoldable pub reconcile_each : List Delivery → ℕ → Outbox → Outbox
reconcile_each [] now o = o
reconcile_each (d ∷ ds) now o = reconcile_each ds now (reconcile (completion_of (some d)) now o)

-- The transaction of both, over the rows that `p` picks: the outbox and how many were cancelled.
unfoldable pub cancel_where : (Delivery → Bool) → String → ℕ → Outbox → Outbox × ℕ
unfolding reconcile_each distinct_completions
cancel_where p reason now o =
    let linked = distinct_completions [] (keep (λ d. p d && is_some d.completion_label) o.rows) in
    let open_rows = λ (d : Delivery). p d && is_open_row d in
    let cancelled : Outbox = record o {
      rows = update_where open_rows (cancel_row reason now) o.rows;
    } in
    (reconcile_each linked now cancelled, count_of open_rows o.rows)

unfoldable pub cancel_deliveries_for_run : String → Option String → ℕ → Outbox → Outbox × ℕ
cancel_deliveries_for_run run_id reason now o =
    cancel_where (λ d. holds_text d.run_id run_id) (clipped reason "Run cancelled") now o

unfoldable pub cancel_deliveries_for_job : String → Option String → ℕ → Outbox → Outbox × ℕ
cancel_deliveries_for_job job_id reason now o =
    cancel_where (λ d. holds_text d.job_id job_id) (clipped reason "Job cancelled") now o

abbrev pub is_failed_row : Delivery → Bool
is_failed_row d = is_failed d.status

abbrev pub restart_row : Bool → ℕ → ℕ → Delivery → Delivery
restart_row reset max_attempts at d = record d {
  status = DeliveryStatus.pending;
  attempt_count = if reset then 0 else d.attempt_count;
  max_attempts = if reset then max_attempts else max max_attempts (d.attempt_count + 1);
  next_attempt_at = at;
  claim_owner = none;
  claim_token = none;
  claim_expires_at = none;
  last_error = none;
}

abbrev pub later_cancelled : Option String → Option ℕ → Delivery → Bool
later_cancelled (some group) (some index) e =
    holds_text e.delivery_group_id group && is_after e.part_index index && is_cancelled e.status
later_cancelled _ _ e = false

-- The cancelled parts of its group after the one that is retried.
unfoldable pub is_later_cancelled : Delivery → Delivery → Bool
is_later_cancelled d e = later_cancelled (filled d.delivery_group_id) d.part_index e

unfoldable pub after_restart : Delivery → ℕ → ℕ → ℕ → Option Delivery → Outbox → Outbox
after_restart before max_attempts at now row o =
    let restarted : Outbox = record o {
      rows = update_where (is_later_cancelled before) (restart_row true max_attempts at) o.rows;
    } in
    reconcile_row (get_delivery_row before.id restarted.rows) now restarted

unfoldable pub restart_found :
    Option Delivery → String → Bool → ℕ → ℕ → ℕ → Outbox → Outbox × Option Transition
unfolding settle after_restart
restart_found none id reset max_attempts at now o = (o, none)
restart_found (some d) id reset max_attempts at now o =
    let (after, done) =
      settle id is_failed_row (restart_row reset max_attempts at)
        (after_restart d max_attempts at now) false o in
    (after, some done)

-- `reset` is `opts.resetAttempts !== false`.
unfoldable pub retry_failed_delivery :
    String
    → Option ℕ
    → Bool
    → Option ℕ
    → ℕ
    → Outbox
    → Result DeliveryError (Outbox × Option Transition)
retry_failed_delivery id max_attempts reset next_attempt_at now o = do
  limit ← positive max_attempts 5 bad_max_attempts
  ok (
      restart_found (get_delivery_row id o.rows) id reset limit
        (datetime (time_of next_attempt_at now)) now o)
