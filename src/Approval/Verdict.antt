-- ===== src/Approval/Verdict.antt =====
-- Who may decide a pending approval, and what stands against it (approval-state.js).
use Prim.Native.String.{◌++◌}
use openclaw_scheduler.Base.{
  ℕ, String, Bool, true, false, not, ◌&&◌, Option, none, some, if◌then◌else◌, or_else, filled,
  is_filled, datetime, Result, ok, ◌>>=◌,
}
use openclaw_scheduler.Job.Row.{Job}
use openclaw_scheduler.Dispatch.Row.{Dispatch, DispatchStatus}
use openclaw_scheduler.Run.Row.{Run, RunStatus, find_run}
use openclaw_scheduler.Approval.Row.{Approval, ApprovalStatus, is_approved}
use openclaw_scheduler.Approval.Binding.{ApprovalError, Actor, is_bound, approver_matches_scope}
use openclaw_scheduler.Approval.Store.{Store, Env, job_of, dispatch_of}
use openclaw_scheduler.Approval.Effects.{is_gated}

-- `opts` of transitionPendingApproval.
pub record DecisionOpts : Type 0 where
  pub resolved_by : Option String
  pub notes : Option String
  pub reason : Option String
  pub actor : Option Actor
  pub automatic : Bool

-- `[APPROVED, REJECTED].includes(status)`
abbrev is_verdict : ApprovalStatus → Bool
is_verdict ApprovalStatus.approved = true
is_verdict ApprovalStatus.rejected = true
is_verdict _ = false

-- Whether the caller satisfies the scope that the approval names.
abbrev pub is_entitled : DecisionOpts → Option String → Bool
is_entitled opts none = true
is_entitled opts (some scope) = not opts.automatic && approver_matches_scope opts.actor scope

unfoldable pub may_decide : Approval → ApprovalStatus → DecisionOpts → Bool
may_decide a status opts =
    if is_verdict status then is_entitled opts (filled a.approver_scope) else true

unfoldable pub status_text : RunStatus → String
status_text RunStatus.pending = "pending"
status_text RunStatus.running = "running"
status_text RunStatus.awaiting_approval = "awaiting_approval"
status_text RunStatus.approved = "approved"
status_text RunStatus.ok = "ok"
status_text RunStatus.error = "error"
status_text RunStatus.timeout = "timeout"
status_text RunStatus.skipped = "skipped"
status_text RunStatus.cancelled = "cancelled"
status_text RunStatus.crashed = "crashed"
status_text RunStatus.recovery_blocked = "recovery_blocked"

abbrev pub run_named : Option String → Store → Option Run
run_named none s = none
run_named (some id) s = find_run id s.runs

-- `run && !['awaiting_approval', 'pending'].includes(run.status)`
unfoldable pub run_objection : Option Run → Option String
unfolding status_text
run_objection none = none
run_objection (some r) =
    if is_gated r.status then none else some ("Approval run is already " ++ status_text r.status)

abbrev dispatch_objection : Option Dispatch → Option String
dispatch_objection none = none
dispatch_objection (some d) = elim d.status [
  | DispatchStatus.cancelled ↦ some "Dispatch was cancelled before approval"
  | _ ↦ none
]

abbrev pub binding_objection : Option String → String → String
binding_objection hash changed =
    if is_filled hash then changed else "Approval has no immutable execution binding"

abbrev job_objection : Env → Approval → Job → Store → Result ApprovalError (Option String)
job_objection env a j s = if not j.enabled then ok (some "Job disabled before approval") else do
  bound ← is_bound env.digest a.binding_hash j (dispatch_of a s) s.jobs
  ok (
      if not bound
      then some (
          binding_objection a.binding_hash
            "Job execution contract changed after approval was requested")
      else or_else (run_objection (run_named (filled a.run_id) s))
          (dispatch_objection (dispatch_of a s)))

-- `forcedReason`: why an approval that is granted becomes a cancellation.
unfoldable pub forced_reason :
    Env → Approval → ApprovalStatus → Store → Result ApprovalError (Option String)
unfolding run_objection is_bound
forced_reason env a status s =
    if is_approved status
    then elim (job_of a s) [
      | none ↦ ok (some "Job deleted before approval")
      | some j ↦ job_objection env a j s
    ]
    else ok none

abbrev pub default_reason : ApprovalStatus → String
default_reason ApprovalStatus.rejected = "Rejected by operator"
default_reason ApprovalStatus.timed_out = "Approval timed out"
default_reason ApprovalStatus.cancelled = "Approval cancelled"
default_reason _ = "Approval granted"

abbrev pub set_if : Bool → ℕ → Option ℕ → Option ℕ
set_if true now old = some (datetime now)
set_if false now old = old

abbrev pub is_withdrawn : ApprovalStatus → Bool
is_withdrawn ApprovalStatus.cancelled = true
is_withdrawn ApprovalStatus.timed_out = true
is_withdrawn _ = false
