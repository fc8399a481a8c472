-- ===== src/Approval/Recover.antt =====
-- The recovery of approvals whose dispatch was interrupted (approval-state.js).
use openclaw_scheduler.Base.{
  ℕ, ◌+◌, String, Bool, true, false, not, ◌&&◌, ◌||◌, List, [], ◌∷◌, map, Option, none, some,
  str_eq, ltb, if◌then◌else◌, or_else, filled, holds_text, keep, any_of, is_some, filled_or,
  datetime, Result, ok, ◌>>=◌,
}
use openclaw_scheduler.Base.Table.{modify}
use openclaw_scheduler.Dispatch.Row.{Dispatch, DispatchStatus, get_dispatch}
use openclaw_scheduler.Run.Row.{Run, RunStatus, run_key}
use openclaw_scheduler.Approval.Row.{Approval, ApprovalStatus, is_dispatched}
use openclaw_scheduler.Approval.Binding.{ApprovalError}
use openclaw_scheduler.Approval.Store.{Store, Env, job_of, is_v4, can_settle}
use openclaw_scheduler.Approval.Effects.{finish_dispatched_approval_run, on_dispatch}
use openclaw_scheduler.Approval.Verdict.{run_named}
use openclaw_scheduler.Approval.Decide.{write_approval, written_approval}
use openclaw_scheduler.Approval.Cancel.{cancel_approval_in_transaction}
use openclaw_scheduler.Approval.Gate.{is_started}

abbrev is_approved_run : RunStatus → Bool
is_approved_run RunStatus.approved = true
is_approved_run _ = false

abbrev was_approved : Option Run → Bool
was_approved none = false
was_approved (some r) = is_approved_run r.status

-- `a.status = 'dispatched' AND r.status = 'approved'`
abbrev pub is_historical : Store → Approval → Bool
is_historical s a = is_dispatched a.status && was_approved (run_named a.run_id s)

abbrev drop_evidence : Run → Run
drop_evidence r = record r { evidence_required = false }

abbrev pub without_evidence : Option String → Store → Store
without_evidence none s = s
without_evidence (some run_id) s = record s {
  runs = modify run_key run_id (λ r. is_approved_run r.status) drop_evidence s.runs;
}

-- Whether finishDispatchedApprovalRun changes a row: its return value.
abbrev finishes : Approval → Store → Bool
finishes a s = was_approved (run_named (filled a.run_id) s)

abbrev add_if : Bool → ℕ → ℕ
add_if true n = n + 1
add_if false n = n

abbrev pub prepared : Approval → Store → Store
prepared a s = if is_v4 (job_of a s) then s else without_evidence a.run_id s

unfoldable pub repair_each : Env → List Approval → Store → Result ApprovalError (Store × ℕ)
unfolding finish_dispatched_approval_run
repair_each env [] s = ok (s, 0)
repair_each env (a ∷ rest) s = do
  s' ←
      finish_dispatched_approval_run env a
        "Legacy approval gate repaired after its execution dispatch completed" (prepared a s)
  (s'', recovered) ← repair_each env rest s'
  ok (s'', add_if (finishes a (prepared a s)) recovered)

-- A row of the second SELECT: the approval, its dispatch, and whether an execution run used it.
pub record Interrupted : Type 0 where
  pub approval : Approval
  pub queue : Option Dispatch
  pub has_execution_run : Bool

abbrev used_by : Approval → Run → Bool
used_by a r =
    elim a.dispatch_queue_id [ none ↦ false | some id ↦ holds_text r.dispatch_queue_id id ]
    && not (holds_text (some r.id) (filled_or a.run_id String.[]))
    && str_eq r.job_id a.job_id
    && holds_text r.approval_used a.id

abbrev queue_of : Option String → Store → Option Dispatch
queue_of none s = none
queue_of (some id) s = get_dispatch id s.dispatches

abbrev interrupted : Store → Approval → Interrupted
interrupted s a = record {
  approval = a;
  queue = queue_of a.dispatch_queue_id s;
  has_execution_run = any_of (used_by a) s.runs;
}

abbrev is_done : Option Dispatch → Bool
is_done (some d) = elim d.status [ DispatchStatus.done ↦ true | _ ↦ false ]
is_done none = false

abbrev is_lost_status : DispatchStatus → Bool
is_lost_status DispatchStatus.cancelled = true
is_lost_status DispatchStatus.failed = true
is_lost_status _ = false

abbrev is_lost : Option Dispatch → Bool
is_lost none = false
is_lost (some d) = is_lost_status d.status

-- The expiry carries milliseconds and the time does not, so as texts an expiry in the same second
-- is the greater.
abbrev has_lapsed : ℕ → Option ℕ → Bool
has_lapsed now none = false
has_lapsed now (some t) = ltb t (datetime now)

abbrev is_open_status : ℕ → DispatchStatus → Option ℕ → Bool
is_open_status now DispatchStatus.pending t = true
is_open_status now DispatchStatus.awaiting_approval t = true
is_open_status now DispatchStatus.claimed t = has_lapsed now t
is_open_status now _ t = false

-- `recoverableQueue`
abbrev is_recoverable : ℕ → Option Dispatch → Bool
is_recoverable now none = false
is_recoverable now (some d) = is_open_status now d.status d.claim_expires_at

-- What the loop does with a row.
pub data Remedy : Type 0 where
  complete withdraw reopen leave : Remedy

unfoldable pub remedy : ℕ → Interrupted → Remedy
remedy now i =
    if i.has_execution_run || is_done i.queue
    then complete
    else if not (is_some (filled i.approval.dispatch_queue_id)) || is_lost i.queue
    then withdraw
    else if is_recoverable now i.queue
    then reopen
    else leave

abbrev pub complete_row : ℕ → Approval → Approval
complete_row now a = record a {
  status = ApprovalStatus.dispatched;
  dispatched_at = or_else a.dispatched_at (some (datetime now));
  decision_version = a.decision_version + 1;
}

abbrev pub reopen_row : Approval → Approval
reopen_row a = record a {
  status = ApprovalStatus.approved;
  decision_version = a.decision_version + 1;
}

abbrev pub back_to_queue : Dispatch → Dispatch
back_to_queue d = record d {
  status = DispatchStatus.pending;
  claimed_at = none;
  claim_owner = none;
  claim_token = none;
  claim_expires_at = none;
}

abbrev pub completed : Env → Approval → Option Approval → Store → Result ApprovalError (Store × ℕ)
completed env a none s = ok (s, 0)
completed env a (some row) s = do
  s' ←
      finish_dispatched_approval_run env a
        "Approval dispatch recovered after execution had already started" s
  ok (s', 1)

abbrev pub reopened : Approval → Option Approval → Store → Store × ℕ
reopened a none s = (s, 0)
reopened a (some row) s = (on_dispatch a.dispatch_queue_id can_settle back_to_queue s, 1)

unfoldable pub recover_one : Env → Remedy → Approval → Store → Result ApprovalError (Store × ℕ)
unfolding finish_dispatched_approval_run cancel_approval_in_transaction
recover_one env complete a s =
    completed env a (written_approval a.id is_started (complete_row env.now) s)
      (write_approval a.id is_started (complete_row env.now) s)
recover_one env withdraw a s = do
  (s', o) ←
      cancel_approval_in_transaction env (some a)
        (some "Approved dispatch was cancelled before execution") "scheduler" s
  ok (s', if o.changed then 1 else 0)
recover_one env reopen a s = ok (
    reopened a (written_approval a.id is_started reopen_row s)
      (write_approval a.id is_started reopen_row s))
recover_one env leave a s = ok (s, 0)

unfoldable pub recover_each : Env → List Interrupted → Store → Result ApprovalError (Store × ℕ)
unfolding recover_one remedy
recover_each env [] s = ok (s, 0)
recover_each env (i ∷ rest) s = do
  (s', n) ← recover_one env (remedy env.now i) i.approval s
  (s'', recovered) ← recover_each env rest s'
  ok (s'', n + recovered)

abbrev pub interrupted_rows : Store → List Interrupted
interrupted_rows s = map (interrupted s) (keep is_started s.approvals)

-- recoverInterruptedApprovalDispatches
unfoldable pub recover_interrupted_approval_dispatches :
    Env → Store → Result ApprovalError (Store × ℕ)
unfolding repair_each recover_each
recover_interrupted_approval_dispatches env s = do
  (s', repaired) ← repair_each env (keep (is_historical s) s.approvals) s
  (s'', recovered) ← recover_each env (interrupted_rows s') s'
  ok (s'', repaired + recovered)
