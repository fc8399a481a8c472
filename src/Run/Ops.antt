-- ===== src/Run/Ops.antt =====
-- The updates of run-state.js. Each is the row that its WHERE accepts and the row that its SET
-- writes, and the statement over the table; `now` is the clock in milliseconds.
use openclaw_scheduler.Base.{
  julian, day, ◌*◌, ◌/◌, ℕ, ◌-◌, String, Bool, true, false, not, ◌&&◌, ◌||◌, List, Option, none,
  some, ◌==◌, if◌then◌else◌, is_blank, or_else, is_none, is_some, trim, trimmed_or, slice, datetime,
  Result, ok, err, guard, ◌>>=◌, ◌>>◌, has_text,
}
use openclaw_scheduler.Base.Table.{modify, returning}
use openclaw_scheduler.Lease.{Lease}
use openclaw_scheduler.Run.Row.{
  Run, RunStatus, Cleanup, CleanupStatus, null, value, moment, json_set, is_active, is_waiting,
  run_key, find_run, set_summary, set_context, set_terminated, or_cell, context_summary, summary,
  process_terminated_at, text,
}
use openclaw_scheduler.Run.Fence.{
  RunError, FenceOpts, Fence, bad_pid, bad_pgid, bad_identity, normalize_fence, is_owned_by,
  is_unowned, is_fence_live, fence_sql, assert_run_id, fence_required, is_positive,
}

-- UPDATE runs SET … WHERE id = ? AND … RETURNING *
abbrev pub update_run : String → (Run → Bool) → (Run → Run) → List Run → List Run × Option Run
update_run id guard f runs = (modify run_key id guard f runs, returning run_key id guard f runs)

abbrev pub is_active_run : Run → Bool
is_active_run r = is_active r.status

-- The fence that a required normalization returns.
abbrev pub with_fence {ℓ} :
    {A : Type ℓ} → Option Fence → (Fence → Result RunError A) → Result RunError A
with_fence none k = err fence_required
with_fence (some fence) k = k fence

abbrev pub may_claim : Fence → ℕ → List Lease → Run → Bool
may_claim fence now leases r =
    is_active_run r && (is_unowned r || is_owned_by fence r) && is_fence_live fence now leases

abbrev pub claim_run : Fence → ℕ → Run → Run
claim_run fence now r = record r {
  dispatcher_owner = some fence.owner_id;
  dispatcher_token = some fence.fencing_token;
  dispatch_started_at = or_else r.dispatch_started_at (some (datetime now));
  dispatched_at = or_else r.dispatched_at (some (datetime now));
}

unfoldable pub claim_run_for_dispatch :
    String → FenceOpts → ℕ → List Lease → List Run → Result RunError (List Run × Option Run)
claim_run_for_dispatch id opts now leases runs = do
  assert_run_id id
  checked ← normalize_fence opts true
  with_fence checked
      λ fence. ok (update_run id (may_claim fence now leases) (claim_run fence now) runs)

-- The state that a caller passes: no status stands for one that is not listed.
pub record CleanupState : Type 0 where
  pub status : CleanupStatus
  pub attempts : Option ℕ
  pub error : Option String

abbrev is_failed : CleanupStatus → Bool
is_failed CleanupStatus.failed = true
is_failed _ = false

abbrev attempts_or_zero : Option ℕ → ℕ
attempts_or_zero none = 0
attempts_or_zero (some n) = n

abbrev clip_error : Option String → Option String
clip_error none = none
clip_error (some s) = if is_blank s then none else some (slice 1000 (trim s))

abbrev pub normalize_cleanup : CleanupState → ℕ → Cleanup
normalize_cleanup state now = record {
  status = state.status;
  attempts = attempts_or_zero state.attempts;
  operator_action_required = is_failed state.status;
  updated_at = now;
  error = clip_error state.error;
}

abbrev pub may_write : Option Fence → Bool → ℕ → List Lease → Run → Bool
may_write fence live now leases r = is_active_run r && fence_sql fence live now leases r

abbrev pub write_cleanup : Cleanup → Run → Run
write_cleanup c r = record r {
  columns = set_context (json_set (r.columns context_summary) c) r.columns;
}

unfoldable pub record_run_credential_cleanup_state :
    String
    → CleanupState
    → Bool
    → FenceOpts
    → ℕ
    → List Lease
    → List Run
    → Result RunError (List Run × Option Run)
record_run_credential_cleanup_state id state after_lease_loss opts now leases runs = do
  assert_run_id id
  checked ← normalize_fence opts true
  ok (
      update_run id (may_write checked (not after_lease_loss) now leases)
        (write_cleanup (normalize_cleanup state now)) runs)

-- A row after a change, or as it stands: `row || getRun(runId)`.
pub record Outcome : Type 0 where
  pub changed : Bool
  pub run : Option Run

abbrev pub outcome : String → List Run × Option Run → List Run × Outcome
outcome id (runs, row) =
    (runs, record { changed = is_some row; run = or_else row (find_run id runs) })

abbrev pub request_cancel : String → String → ℕ → Run → Run
request_cancel requested_by reason now r = record r {
  cancel_requested_at = or_else r.cancel_requested_at (some (datetime now));
  cancel_requested_by = or_else r.cancel_requested_by (some requested_by);
  cancel_reason = or_else r.cancel_reason (some reason);
}

unfoldable pub request_run_cancellation :
    String → Option String → Option String → ℕ → List Run → Result RunError (List Run × Outcome)
request_run_cancellation id requested_by reason now runs = do
  assert_run_id id
  let by = trimmed_or requested_by "operator"
  let why = trimmed_or reason "Cancellation requested"
  ok (outcome id (update_run id is_active_run (request_cancel by why now) runs))

abbrev pub not_started : Run → Bool
not_started r = is_waiting r.status && is_none r.process_started_at

-- `MAX(0, CAST((julianday('now') - julianday(started_at)) * 86400000 AS INTEGER))`, which is NULL
-- without a start.
abbrev pub elapsed : Option ℕ → ℕ → Option ℕ
elapsed none now = none
elapsed (some start) now = some (86400000 * (julian now - julian start) / day)

abbrev pub cancel_row : String → String → ℕ → Run → Run
cancel_row requested_by reason now r = record r {
  status = RunStatus.cancelled;
  cancel_requested_at = or_else r.cancel_requested_at (some (datetime now));
  cancel_requested_by = or_else r.cancel_requested_by (some requested_by);
  cancel_reason = or_else r.cancel_reason (some reason);
  columns = set_summary (or_cell (r.columns summary) (value (text reason))) r.columns;
  finished_at = some (datetime now);
  duration_ms = elapsed r.started_at now;
  terminal_transition_at = some (datetime now);
}

unfoldable pub cancel_run_before_execution :
    String → Option String → Option String → ℕ → List Run → Result RunError (List Run × Outcome)
cancel_run_before_execution id requested_by reason now runs = do
  assert_run_id id
  let by = trimmed_or requested_by "operator"
  let why = trimmed_or reason "Cancelled before execution"
  ok (outcome id (update_run id not_started (cancel_row by why now) runs))

unfoldable pub is_run_cancellation_requested : String → List Run → Result RunError Bool
is_run_cancellation_requested id runs = do
  assert_run_id id
  ok (elim (find_run id runs) [ none ↦ false | some r ↦ is_some r.cancel_requested_at ])

-- processInfo: 0 stands for a number that is no positive integer.
pub record ProcessInfo : Type 0 where
  pub pid : ℕ
  pub pgid : Option ℕ
  pub process_identity : Option String

unfoldable pub assert_process_info : ProcessInfo → Result RunError (Unit {0})
assert_process_info info = do
  guard (not (info.pid == 0)) bad_pid
  guard (is_none info.pgid || is_positive info.pgid) bad_pgid
  guard (is_none info.process_identity || has_text info.process_identity) bad_identity

abbrev pub may_start : Option Fence → ℕ → List Lease → Run → Bool
may_start fence now leases r =
    is_active_run r && is_none r.cancel_requested_at && fence_sql fence true now leases r

abbrev trimmed : Option String → Option String
trimmed none = none
trimmed (some s) = some (trim s)

abbrev pub start_process : ProcessInfo → ℕ → Run → Run
start_process info now r = record r {
  process_pid = some info.pid;
  process_pgid = info.pgid;
  process_identity = trimmed info.process_identity;
  process_started_at = or_else r.process_started_at (some (datetime now));
  columns = set_terminated null r.columns;
}

unfoldable pub record_run_process :
    String
    → ProcessInfo
    → FenceOpts
    → ℕ
    → List Lease
    → List Run
    → Result RunError (List Run × Option Run)
record_run_process id info opts now leases runs = do
  assert_run_id id
  assert_process_info info
  fence ← normalize_fence opts false
  ok (update_run id (may_start fence now leases) (start_process info now) runs)

abbrev pub end_process : ℕ → Run → Run
end_process now r = record r {
  columns =
      set_terminated (or_cell (r.columns process_terminated_at) (moment (datetime now))) r.columns;
}

unfoldable pub record_run_process_terminated :
    String → FenceOpts → ℕ → List Lease → List Run → Result RunError (List Run × Option Run)
record_run_process_terminated id opts now leases runs = do
  assert_run_id id
  fence ← normalize_fence opts false
  ok (update_run id (fence_sql fence false now leases) (end_process now) runs)

abbrev pub request_agent_cancel : ℕ → Run → Run
request_agent_cancel now r = record r {
  agent_cancel_requested_at = or_else r.agent_cancel_requested_at (some (datetime now));
}

unfoldable pub mark_agent_cancellation_requested :
    String → FenceOpts → ℕ → List Lease → List Run → Result RunError (List Run × Option Run)
mark_agent_cancellation_requested id opts now leases runs = do
  assert_run_id id
  fence ← normalize_fence opts false
  ok (update_run id (may_write fence true now leases) (request_agent_cancel now) runs)
