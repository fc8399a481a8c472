-- ===== src/Approval/Cancel.antt =====
-- The cancellation of active approvals (approval-state.js).
use openclaw_scheduler.Base.{
  ℕ, ◌+◌, String, Bool, true, not, ◌&&◌, List, [], ◌∷◌, map, Option, none, some, str_eq,
  if◌then◌else◌, or_else, keep, datetime, Result, ok, ◌>>=◌, sort_by,
}
use openclaw_scheduler.Job.Row.{Job}
use openclaw_scheduler.Approval.Row.{
  Approval, ApprovalStatus, find_approval, is_cancelled, is_active, normalize_text, text_or,
  get_approval_for_dispatch,
}
use openclaw_scheduler.Approval.Binding.{ApprovalError}
use openclaw_scheduler.Approval.Store.{Store, Env, Reason, Outcome, unchanged, job_of, dispatch_of}
use openclaw_scheduler.Approval.Decide.{after_write, write_approval, written_approval, settle}

abbrev pub can_cancel : Approval → Bool
can_cancel a = is_active a.status

abbrev pub cancel_approval_row : Option String → String → ℕ → Approval → Approval
cancel_approval_row resolved_by reason now a = record a {
  status = ApprovalStatus.cancelled;
  resolved_at = or_else a.resolved_at (some (datetime now));
  resolved_by = or_else resolved_by a.resolved_by;
  cancelled_reason = some reason;
  notes = or_else a.notes (some reason);
  decision_version = a.decision_version + 1;
}

-- The run, the dispatch and the occurrence of a cancelled approval; the row, the job and the
-- dispatch are read after the update.
abbrev after_cancel : Env → String → Store → Approval → Result ApprovalError Store
after_cancel env reason s row =
    settle env row ApprovalStatus.cancelled reason (job_of row s) (dispatch_of row s) s

unfoldable pub cancel_row_of :
    Env → Approval → Option String → String → Store → Result ApprovalError (Store × Outcome)
unfolding normalize_text text_or settle after_write
cancel_row_of env a reason resolved_by s =
    let why = text_or reason "Approval cancelled" in
    let f =
      cancel_approval_row (normalize_text 200 (some resolved_by) (some "scheduler")) why env.now in
    after_write a.id (written_approval a.id can_cancel f s) (write_approval a.id can_cancel f s)
      (after_cancel env why (write_approval a.id can_cancel f s))

-- cancelApprovalInTransaction
unfoldable pub cancel_approval_in_transaction :
    Env → Option Approval → Option String → String → Store → Result ApprovalError (Store × Outcome)
unfolding cancel_row_of
cancel_approval_in_transaction env none reason resolved_by s =
    ok (s, unchanged Reason.not_found none)
cancel_approval_in_transaction env (some a) reason resolved_by s =
    if is_cancelled a.status
    then ok (s, unchanged Reason.already_cancelled (some a))
    else if is_active a.status
    then cancel_row_of env a reason resolved_by s
    else ok (s, unchanged Reason.terminal (some a))

-- cancelApproval and cancelApprovalForDispatch; `resolved_by` is 'scheduler' where none is given.
unfoldable pub cancel_approval :
    Env → String → Option String → String → Store → Result ApprovalError (Store × Outcome)
unfolding cancel_approval_in_transaction
cancel_approval env id reason resolved_by s =
    cancel_approval_in_transaction env (find_approval id s.approvals) reason resolved_by s

unfoldable pub cancel_approval_for_dispatch :
    Env → String → Option String → String → Store → Result ApprovalError (Store × Outcome)
unfolding cancel_approval_in_transaction get_approval_for_dispatch
cancel_approval_for_dispatch env dispatch_id reason resolved_by s =
    cancel_approval_in_transaction env (get_approval_for_dispatch true dispatch_id s.approvals)
      reason resolved_by s

abbrev tally : Outcome → ℕ → ℕ
tally o n = if o.changed then n + 1 else n

-- The loop over the rows that were selected, each with its reason.
unfoldable pub cancel_each :
    Env → String → List (Approval × String) → Store → Result ApprovalError (Store × ℕ)
unfolding cancel_approval_in_transaction
cancel_each env resolved_by [] s = ok (s, 0)
cancel_each env resolved_by ((a, reason) ∷ rest) s = do
  (s', o) ← cancel_approval_in_transaction env (some a) (some reason) resolved_by s
  (s'', changed) ← cancel_each env resolved_by rest s'
  ok (s'', tally o changed)

abbrev requested : Approval → ℕ
requested a = a.requested_at

abbrev is_active_of : String → Approval → Bool
is_active_of job_id a = str_eq a.job_id job_id && is_active a.status

abbrev pub rows_for_job : String → String → Store → List (Approval × String)
rows_for_job job_id reason s =
    map (λ a. (a, reason)) (sort_by requested (keep (is_active_of job_id) s.approvals))

-- cancelApprovalsForJob
unfoldable pub cancel_approvals_for_job :
    Env → String → String → String → Store → Result ApprovalError (Store × ℕ)
unfolding cancel_each sort_by
cancel_approvals_for_job env job_id reason resolved_by s =
    cancel_each env resolved_by (rows_for_job job_id reason s) s

abbrev is_unavailable : Option Job → Bool
is_unavailable none = true
is_unavailable (some j) = not j.enabled

abbrev unavailable_reason : Option Job → String
unavailable_reason none = "Job deleted before approval completed"
unavailable_reason (some j) = "Job disabled before approval completed"

abbrev pub unavailable_rows : Store → List (Approval × String)
unavailable_rows s =
    map (λ a. (a, unavailable_reason (job_of a s)))
      (sort_by requested
        (keep (λ a. is_active a.status && is_unavailable (job_of a s)) s.approvals))

-- cancelUnavailableJobApprovals
unfoldable pub cancel_unavailable_job_approvals : Env → Store → Result ApprovalError (Store × ℕ)
unfolding cancel_each sort_by
cancel_unavailable_job_approvals env s = cancel_each env "scheduler" (unavailable_rows s) s
