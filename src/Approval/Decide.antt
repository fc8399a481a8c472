-- ===== src/Approval/Decide.antt =====
-- The decision on a pending approval, and what follows it (approval-state.js).
use openclaw_scheduler.Base.{
  ℕ, ◌+◌, String, Bool, true, false, Option, none, some, if◌then◌else◌, or_else, datetime, Result,
  ok, guard, ◌>>=◌, ◌>>◌,
}
use openclaw_scheduler.Base.Table.{modify, returning}
use openclaw_scheduler.Job.Row.{Job}
use openclaw_scheduler.Dispatch.Row.{Dispatch, is_pending as is_queued}
use openclaw_scheduler.Approval.Row.{
  Approval, ApprovalStatus, approval_key, find_approval, is_pending, is_approved, is_rejected,
  is_decision, normalize_text, max_text, text_or,
}
use openclaw_scheduler.Approval.Binding.{ApprovalError}
use openclaw_scheduler.Approval.Store.{
  Store, Env, Reason, Outcome, unchanged, outcome_of, job_of, dispatch_of,
}
use openclaw_scheduler.Approval.Effects.{
  finish_approval_run, release_approval_dispatch, cancel_approval_dispatch,
  consume_approval_occurrence,
}
use openclaw_scheduler.Approval.Verdict.{
  DecisionOpts, default_reason, forced_reason, is_withdrawn, may_decide, set_if,
}

-- pendingTransitionSql
abbrev pub decide_row : ApprovalStatus → Option String → String → ℕ → Approval → Approval
decide_row status resolved_by reason now a = record a {
  status = status;
  resolved_at = some (datetime now);
  resolved_by = resolved_by;
  notes = some reason;
  decision_version = a.decision_version + 1;
  approved_at = set_if (is_approved status) now a.approved_at;
  rejected_at = set_if (is_rejected status) now a.rejected_at;
  cancelled_reason = if is_withdrawn status then some reason else a.cancelled_reason;
}

abbrev pub is_undecided : Approval → Bool
is_undecided a = is_pending a.status

-- What releaseApprovalDispatch must have left, where it changed no row.
abbrev pub is_released : Option Dispatch → Bool
is_released none = true
is_released (some d) = is_queued d.status

abbrev released_or_err : Approval → Store → Result ApprovalError Store
released_or_err a released = do
  guard (is_released (dispatch_of a released)) ApprovalError.not_released
  ok released

abbrev settled :
    Env
    → Approval
    → ApprovalStatus
    → String
    → Option Job
    → Option Dispatch
    → Store
    → Result ApprovalError Store
settled env a status reason job dispatch finished =
    if is_approved status
    then released_or_err a (release_approval_dispatch a env.now finished)
    else ok (
        consume_approval_occurrence env job dispatch
          (cancel_approval_dispatch a reason env.now finished))

-- What follows the decision in the same transaction; `job` and `dispatch` were read before it.
unfoldable pub settle :
    Env
    → Approval
    → ApprovalStatus
    → String
    → Option Job
    → Option Dispatch
    → Store
    → Result ApprovalError Store
unfolding finish_approval_run release_approval_dispatch cancel_approval_dispatch
    consume_approval_occurrence
settle env a status reason job dispatch s = do
  finished ← finish_approval_run env a status reason s
  settled env a status reason job dispatch finished

-- An UPDATE of one approval with a guard: the store, and the row that was written.
abbrev pub write_approval : String → (Approval → Bool) → (Approval → Approval) → Store → Store
write_approval id guarded f s = record s {
  approvals = modify approval_key id guarded f s.approvals;
}

abbrev pub written_approval :
    String → (Approval → Bool) → (Approval → Approval) → Store → Option Approval
written_approval id guarded f s = returning approval_key id guarded f s.approvals

-- `effectiveStatus`
abbrev pub effective_status : Option String → ApprovalStatus → ApprovalStatus
effective_status none status = status
effective_status (some _) status = ApprovalStatus.cancelled

-- What the branches after the update do, if it wrote a row.
unfoldable pub after_write :
    String
    → Option Approval
    → Store
    → (Approval → Result ApprovalError Store)
    → Result ApprovalError (Store × Outcome)
after_write id none s body = ok (s, outcome_of false id s)
after_write id (some row) s body = do s' ← body row; ok (s', outcome_of true id s')

-- The update with its values, and what follows it.
unfoldable pub decided :
    Env
    → String
    → Approval
    → ApprovalStatus
    → Option String
    → String
    → Store
    → Result ApprovalError (Store × Outcome)
unfolding settle after_write
decided env id a effective resolved_by reason s =
    let f = decide_row effective resolved_by reason env.now in
    after_write id (written_approval id is_undecided f s) (write_approval id is_undecided f s)
      λ row.
        settle env row effective reason (job_of a s) (dispatch_of a s)
          (write_approval id is_undecided f s)

-- `normalizeText(forcedReason ?? opts.reason ?? notes, defaultReason)`
unfoldable pub reason_of : Option String → DecisionOpts → ApprovalStatus → String
unfolding normalize_text text_or
reason_of forced opts effective =
    text_or (or_else forced (or_else opts.reason (normalize_text max_text opts.notes none)))
      (default_reason effective)

unfoldable pub decide :
    Env
    → String
    → Approval
    → ApprovalStatus
    → DecisionOpts
    → Store
    → Result ApprovalError (Store × Outcome)
unfolding may_decide forced_reason normalize_text reason_of decided
decide env id a status opts s = do
  guard (may_decide a status opts) ApprovalError.scope_mismatch
  forced ← forced_reason env a status s
  guard (is_decision (effective_status forced status)) ApprovalError.bad_transition
  decided env id a (effective_status forced status) (normalize_text 200 opts.resolved_by none)
      (reason_of forced opts (effective_status forced status)) s

-- transitionPendingApproval
unfoldable pub transition_pending_approval :
    Env → String → ApprovalStatus → DecisionOpts → Store → Result ApprovalError (Store × Outcome)
unfolding decide
transition_pending_approval env id status opts s = elim (find_approval id s.approvals) [
  | none ↦ ok (s, unchanged Reason.not_found none)
  | some a ↦
      if is_undecided a
      then decide env id a status opts s
      else ok (s, unchanged Reason.already_resolved (some a))
]
