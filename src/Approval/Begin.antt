-- ===== src/Approval/Begin.antt =====
-- beginApprovalDispatch (approval-state.js).
use openclaw_scheduler.Base.{
  ℕ, ◌+◌, String, Bool, true, false, not, ◌&&◌, Option, none, some, str_eq, if◌then◌else◌, or_else,
  filled, same_text, holds_text, datetime, Result, ok, ◌>>=◌,
}
use openclaw_scheduler.Job.Row.{Job}
use openclaw_scheduler.Dispatch.Row.{Dispatch, is_claimed, get_dispatch}
use openclaw_scheduler.Run.Row.{Run, find_run}
use openclaw_scheduler.Approval.Row.{
  Approval, ApprovalStatus, is_approved, is_dispatching, is_dispatched, is_granted, text_or,
  get_approval_for_dispatch,
}
use openclaw_scheduler.Approval.Binding.{ApprovalError, Actor, is_bound, approver_matches_scope}
use openclaw_scheduler.Approval.Store.{Store, Env, Reason, Outcome, unchanged, job_of, can_settle}
use openclaw_scheduler.Approval.Effects.{cancel_row, on_dispatch}
use openclaw_scheduler.Approval.Verdict.{binding_objection}
use openclaw_scheduler.Approval.Decide.{after_write, write_approval, written_approval}
use openclaw_scheduler.Approval.Cancel.{cancel_approval_in_transaction}

abbrev run_mismatch : Approval → String → Option Run → Option String
run_mismatch a run_id none = some "Approval gate run no longer exists"
run_mismatch a run_id (some r) =
    if not (str_eq r.job_id a.job_id)
    then some "Approval gate run belongs to a different job"
    else if not (same_text r.dispatch_queue_id a.dispatch_queue_id)
    then some "Approval gate run belongs to a different dispatch"
    else none

-- approvalAssociationMismatch
unfoldable pub approval_association_mismatch : Approval → Option Dispatch → Store → Option String
approval_association_mismatch a none s = some "Approval dispatch no longer exists"
approval_association_mismatch a (some d) s =
    if not (str_eq d.job_id a.job_id)
    then some "Approval dispatch belongs to a different job"
    else elim (filled a.run_id) [
      | none ↦ none
      | some run_id ↦ run_mismatch a run_id (find_run run_id s.runs)
    ]

abbrev pub can_corrupt : Approval → Bool
can_corrupt a = is_granted a.status

abbrev pub corrupt_row : String → ℕ → Approval → Approval
corrupt_row reason now a = record a {
  status = ApprovalStatus.cancelled;
  resolved_at = or_else a.resolved_at (some (datetime now));
  resolved_by = or_else a.resolved_by (some "scheduler");
  cancelled_reason = some reason;
  notes = or_else a.notes (some reason);
  decision_version = a.decision_version + 1;
}

abbrev pub id_of : Option Dispatch → Option String
id_of none = none
id_of (some d) = some d.id

-- cancelCorruptApprovalAssociation
unfoldable pub cancel_corrupt_approval_association :
    Env → Approval → Option Dispatch → String → Store → Result ApprovalError (Store × Outcome)
unfolding text_or after_write
cancel_corrupt_approval_association env a dispatch reason s =
    let why = text_or (some reason) "Approval association is invalid" in
    let f = corrupt_row why env.now in
    after_write a.id (written_approval a.id can_corrupt f s) (write_approval a.id can_corrupt f s)
      λ row. ok (
        on_dispatch (id_of dispatch) can_settle (cancel_row why env.now)
          (write_approval a.id can_corrupt f s))

abbrev pub with_reason : Reason → Store × Outcome → Store × Outcome
with_reason why (s, o) = (s, record o { reason = some why })

abbrev pub refuse :
    Reason → Result ApprovalError (Store × Outcome) → Result ApprovalError (Store × Outcome)
refuse why cancelled = cancelled >>= λ r. ok (with_reason why r)

abbrev pub can_begin : Approval → Bool
can_begin a = is_approved a.status

abbrev pub begin_row : Approval → Approval
begin_row a = record a {
  status = ApprovalStatus.dispatching;
  decision_version = a.decision_version + 1;
}

abbrev pub actor_or : Option Actor → Actor → Actor
actor_or none account = account
actor_or (some actor) account = actor

-- The actor that begins is the one that decided, and still satisfies the scope.
unfoldable pub has_scope : Actor → Approval → Bool
has_scope actor a = elim (filled a.approver_scope) [
  | none ↦ true
  | some scope ↦
      holds_text a.resolved_by actor.canonical && approver_matches_scope (some actor) scope
]

abbrev pub no_job : Option Job → String
no_job none = "Job deleted before approved dispatch"
no_job (some j) = "Job disabled before approved dispatch"

abbrev pub is_claimed_dispatch : Option Dispatch → Bool
is_claimed_dispatch none = false
is_claimed_dispatch (some d) = is_claimed d.status

unfoldable pub begin_claimed :
    Env → Option Actor → Approval → Store → Result ApprovalError (Store × Outcome)
unfolding has_scope cancel_approval_in_transaction after_write
begin_claimed env actor a s =
    if has_scope (actor_or actor env.actor) a
    then after_write a.id (written_approval a.id can_begin begin_row s)
        (write_approval a.id can_begin begin_row s)
        (λ row. ok (write_approval a.id can_begin begin_row s))
    else refuse Reason.scope_mismatch (
        cancel_approval_in_transaction env (some a)
          (some "Authenticated approval actor no longer satisfies the required scope") "scheduler"
          s)

unfoldable pub begin_bound :
    Env
    → Option Actor
    → Approval
    → Option Dispatch
    → Bool
    → Store
    → Result ApprovalError (Store × Outcome)
unfolding begin_claimed
begin_bound env actor a dispatch bound s =
    if not bound
    then refuse Reason.binding_mismatch (
        cancel_approval_in_transaction env (some a)
          (some (
            binding_objection a.binding_hash
              "Job execution contract changed after approval was granted"))
          "scheduler" s)
    else if not (is_claimed_dispatch dispatch)
    then ok (s, unchanged Reason.dispatch_not_claimed (some a))
    else begin_claimed env actor a s

abbrev pub available : Option Job → Option Job
available none = none
available (some j) = if j.enabled then some j else none

unfoldable pub begin_approved :
    Env → Option Actor → Approval → Option Dispatch → Store → Result ApprovalError (Store × Outcome)
unfolding approval_association_mismatch cancel_corrupt_approval_association begin_bound is_bound
begin_approved env actor a dispatch s = elim (approval_association_mismatch a dispatch s) [
  | some reason ↦
      refuse Reason.association_mismatch
        (cancel_corrupt_approval_association env a dispatch reason s)
  | none ↦ elim (available (job_of a s)) [
    | none ↦
        refuse Reason.job_unavailable
          (cancel_approval_in_transaction env (some a) (some (no_job (job_of a s))) "scheduler" s)
    | some j ↦ do
      bound ← is_bound env.digest a.binding_hash j dispatch s.jobs
      begin_bound env actor a dispatch bound s
  ]
]

-- beginApprovalDispatch
unfoldable pub begin_approval_dispatch :
    Env → String → Option Actor → Store → Result ApprovalError (Store × Outcome)
unfolding get_approval_for_dispatch begin_approved
begin_approval_dispatch env dispatch_id actor s =
    elim (get_approval_for_dispatch false dispatch_id s.approvals) [
      | none ↦ ok (s, unchanged Reason.not_found none)
      | some a ↦
          if is_dispatched a.status
          then ok (s, unchanged Reason.already_dispatched (some a))
          else if is_dispatching a.status
          then ok (s, unchanged Reason.already_dispatching (some a))
          else if not (is_approved a.status)
          then ok (s, unchanged Reason.not_approved (some a))
          else begin_approved env actor a (get_dispatch dispatch_id s.dispatches) s
    ]
