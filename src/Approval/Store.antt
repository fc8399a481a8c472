-- ===== src/Approval/Store.antt =====
-- The tables that the approvals are decided over, what runs.js does to a run that ends with its
-- approval, and the small statements of approval-state.js on a run or a dispatch.
use Prim.Native.String.{◌++◌}
use openclaw_scheduler.Base.{
  ℕ, String, Bool, true, false, not, ◌&&◌, ◌||◌, List, Option, none, some, ◌==◌, if◌then◌else◌,
  or_else, filled, Result, ok, guard,
}
use openclaw_scheduler.Base.Table.{modify, returning}
use openclaw_scheduler.Job.Row.{Job, job_key, find_job}
use openclaw_scheduler.Dispatch.Row.{Dispatch, DispatchStatus, dispatch_key, get_dispatch}
use openclaw_scheduler.Run.Row.{
  Run, RunStatus, FinishColumn, Cell, Datum, run_key, find_run, is_waiting, summary, error_message,
}
use openclaw_scheduler.Run.Ops.{elapsed}
use openclaw_scheduler.Ledger.{Entry}
use openclaw_scheduler.Approval.Row.{Approval, find_approval, normalize_text, max_text}
use openclaw_scheduler.Approval.Binding.{ApprovalError, Payload, Actor}

pub record Store : Type 0 where
  pub approvals : List Approval
  pub runs : List Run
  pub dispatches : List Dispatch
  pub jobs : List Job
  pub ledger : List Entry

-- The clock, and what the code calls outside of the repository: sha256, the cron parser, the
-- account that the operating system reports, and whether the evidence of a run can be built.
pub record Env : Type 0 where
  pub now : ℕ
  pub digest : Payload → String
  pub next_cron : String → Option String → ℕ → Option ℕ
  pub actor : Actor
  pub has_evidence : Run → Bool

pub data Reason : Type 0 where
  not_found already_resolved concurrent_transition already_dispatched already_dispatching : Reason
  not_approved association_mismatch job_unavailable binding_mismatch : Reason
  dispatch_not_claimed scope_mismatch not_dispatching already_deferred : Reason
  already_cancelled terminal : Reason

pub record Outcome : Type 0 where
  pub changed : Bool
  pub approval : Option Approval
  pub reason : Option Reason

abbrev pub unchanged : Reason → Option Approval → Outcome
unchanged why a = record { changed = false; approval = a; reason = some why }

-- `{ changed: info.changes === 1, approval: approvalRow(db, id), reason: … }`
unfoldable pub outcome_of : Bool → String → Store → Outcome
outcome_of changed id s = record {
  changed = changed;
  approval = find_approval id s.approvals;
  reason = if changed then none else some Reason.concurrent_transition;
}

abbrev pub job_of : Approval → Store → Option Job
job_of a s = find_job a.job_id s.jobs

abbrev pub dispatch_named : Option String → Store → Option Dispatch
dispatch_named none s = none
dispatch_named (some id) s = get_dispatch id s.dispatches

abbrev pub dispatch_of : Approval → Store → Option Dispatch
dispatch_of a s = dispatch_named (filled a.dispatch_queue_id) s

-- `status IN ('pending', 'claimed', 'awaiting_approval')`
abbrev pub is_unsettled : DispatchStatus → Bool
is_unsettled DispatchStatus.pending = true
is_unsettled DispatchStatus.claimed = true
is_unsettled DispatchStatus.awaiting_approval = true
is_unsettled _ = false

abbrev pub is_awaiting : DispatchStatus → Bool
is_awaiting DispatchStatus.awaiting_approval = true
is_awaiting _ = false

abbrev pub set_error : Cell → (FinishColumn → Cell) → FinishColumn → Cell
set_error v columns error_message = v
set_error v columns c = columns c

abbrev pub set_text : Cell → (FinishColumn → Cell) → FinishColumn → Cell
set_text v columns summary = v
set_text v columns c = columns c

abbrev pub texts : String → Cell
texts s = Cell.value (Datum.text s)

-- quarantineRunRecovery with allowPreExecution.
abbrev pub block_row : String → ℕ → Run → Run
block_row reason now r = record r {
  status = RunStatus.recovery_blocked;
  finished_at = some now;
  terminal_transition_at = some now;
  duration_ms = elapsed r.started_at now;
  columns = set_error (texts reason) (set_text (texts reason) r.columns);
}

abbrev pub can_block : Run → Bool
can_block r = is_waiting r.status

abbrev pub disable_job : ℕ → Job → Job
disable_job now j = record j {
  enabled = false;
  last_run_at = some now;
  last_status = some "recovery_blocked";
}

abbrev pub fail_dispatch : String → ℕ → Dispatch → Dispatch
fail_dispatch reason now d = record d {
  status = DispatchStatus.failed;
  processed_at = or_else d.processed_at (some now);
  claim_expires_at = none;
  last_error = some reason;
}

abbrev pub can_settle : Dispatch → Bool
can_settle d = is_unsettled d.status

abbrev pub always {ℓ} : {A : Type ℓ} → A → Bool
always a = true

abbrev failed_dispatch : Option String → String → ℕ → List Dispatch → List Dispatch
failed_dispatch none reason now q = q
failed_dispatch (some id) reason now q =
    modify dispatch_key id can_settle (fail_dispatch reason now) q

unfoldable pub quarantine_run_recovery : String → String → ℕ → Store → Store
quarantine_run_recovery run_id reason now s =
    elim (returning run_key run_id can_block (block_row reason now) s.runs) [
      | none ↦ s
      | some updated ↦ record s {
        runs = modify run_key run_id can_block (block_row reason now) s.runs;
        jobs = modify job_key updated.job_id always (disable_job now) s.jobs;
        dispatches = failed_dispatch (filled updated.dispatch_queue_id) reason now s.dispatches;
      }
    ]

-- `Number(job?.handoff_version) === 4`
abbrev pub is_v4 : Option Job → Bool
is_v4 none = false
is_v4 (some j) = j.handoff_version == 4

abbrev pub wants_evidence : Option Run → Bool
wants_evidence none = false
wants_evidence (some r) = r.evidence_required

abbrev tail_of : Option String → String
tail_of none = "; run quarantined for operator recovery"
tail_of (some message) = "; " ++ message ++ "; run quarantined for operator recovery"

unfoldable pub quarantine_reason : String → String → String
unfolding normalize_text
quarantine_reason intended message =
    "Handoff v4 "
    ++ intended
    ++ " terminal evidence requires asynchronous artifact-bound verification"
    ++ tail_of (normalize_text max_text (some message) none)

-- Whether quarantineSynchronousV4TerminalEvidence takes the run over.
abbrev pub is_quarantined : Option Job → String → Store → Bool
is_quarantined j run_id s = is_v4 j && wants_evidence (find_run run_id s.runs)

-- persistTerminalEvidence of the approval's own run, which has just been given the status. The
-- columns of the evidence are not among those of Run.Row.
unfoldable pub persist_terminal_evidence :
    Env → Option Job → Option Run → Result ApprovalError (Unit {0})
persist_terminal_evidence env none r = ok tt
persist_terminal_evidence env (some j) none = ok tt
persist_terminal_evidence env (some j) (some r) =
    guard (not r.evidence_required || env.has_evidence r) ApprovalError.evidence_failed
