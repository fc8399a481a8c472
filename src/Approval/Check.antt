-- ===== src/Approval/Check.antt =====
-- The resolution of an approval by a caller, the timeouts, and the queries (approval.js), with the
-- round of the dispatcher over them (dispatcher-approvals.js).
use openclaw_scheduler.Base.{
  julian, day, ℕ, ◌+◌, ◌*◌, ◌-◌, String, Bool, true, false, not, ◌&&◌, ◌||◌, List, [], ◌∷◌, Option,
  none, some, str_eq, ltb, leb, if◌then◌else◌, or_else, filled, is_filled, keep, count_of,
  trimmed_or, datetime, Result, guard, ◌>>◌, written,
}
use openclaw_scheduler.Job.Row.{Job}
use openclaw_scheduler.Approval.Row.{Approval, ApprovalStatus, is_pending, is_decision, latest}
use openclaw_scheduler.Approval.Binding.{ApprovalError, Actor}
use openclaw_scheduler.Approval.Store.{Store, Env, Outcome, job_of}
use openclaw_scheduler.Approval.Verdict.{DecisionOpts}
use openclaw_scheduler.Approval.Decide.{transition_pending_approval}
use openclaw_scheduler.Approval.Cancel.{cancel_approval, cancel_unavailable_job_approvals}
use openclaw_scheduler.Approval.Recover.{recover_interrupted_approval_dispatches}

abbrev pub canonical_of : Bool → Option String → Actor → String
canonical_of true resolved_by account = trimmed_or resolved_by "scheduler"
canonical_of false resolved_by account = account.canonical

abbrev account_if : Bool → Actor → Option Actor
account_if true account = none
account_if false account = some account

abbrev pub decision_opts : Bool → Option String → Option String → Actor → DecisionOpts
decision_opts automatic resolved_by notes account = record {
  resolved_by = some (canonical_of automatic resolved_by account);
  notes = filled notes;
  reason = filled notes;
  actor = account_if automatic account;
  automatic = automatic;
}

-- resolveApproval; the approval of the outcome is what it returns.
unfoldable pub resolve_approval :
    Env
    → String
    → ApprovalStatus
    → Option String
    → Option String
    → Bool
    → Store
    → Result ApprovalError (Store × Outcome)
unfolding transition_pending_approval cancel_approval
resolve_approval env id status resolved_by notes automatic s = do
  guard (is_decision status) ApprovalError.bad_transition
  elim status [
    | ApprovalStatus.cancelled ↦
        cancel_approval env id (or_else (filled notes) (some "Approval cancelled"))
          (canonical_of automatic resolved_by env.actor) s
    | other ↦
        transition_pending_approval env id other
          (decision_opts automatic resolved_by notes env.actor) s
  ]

-- getPendingApproval
abbrev is_pending_of : String → Approval → Bool
is_pending_of job_id a = str_eq a.job_id job_id && is_pending a.status

unfoldable pub get_pending_approval : String → Store → Option Approval
unfolding latest
get_pending_approval job_id s = latest (is_pending_of job_id) s.approvals

-- countPendingApprovalsForJob
unfoldable pub count_pending_approvals_for_job : String → Store → ℕ
count_pending_approvals_for_job job_id s = count_of (is_pending_of job_id) s.approvals

abbrev has_expired : ℕ → Option ℕ → Bool
has_expired now none = false
has_expired now (some t) = leb t (datetime now)

-- `(julianday('now') - julianday(requested_at)) * 86400 > approval_timeout_s`
abbrev has_waited : ℕ → ℕ → Option ℕ → Bool
has_waited now since none = false
has_waited now since (some seconds) =
    ltb (seconds * day + 86400 * julian since) (86400 * julian now)

unfoldable pub is_timed_out : ℕ → Option Job → Approval → Bool
is_timed_out now none a = false
is_timed_out now (some j) a =
    is_pending a.status
    && (has_expired now a.expires_at || has_waited now a.requested_at j.approval_timeout_s)

-- getTimedOutApprovals
unfoldable pub get_timed_out_approvals : Env → Store → List Approval
unfolding is_timed_out
get_timed_out_approvals env s = keep (λ a. is_timed_out env.now (job_of a s) a) s.approvals

abbrev is_prunable : ApprovalStatus → Bool
is_prunable ApprovalStatus.rejected = true
is_prunable ApprovalStatus.timed_out = true
is_prunable ApprovalStatus.cancelled = true
is_prunable ApprovalStatus.dispatched = true
is_prunable _ = false

abbrev is_before : ℕ → Option ℕ → Bool
is_before t none = false
is_before t (some r) = ltb r t

-- pruneApprovals, with its retention in milliseconds.
abbrev is_pruned : ℕ → ℕ → Approval → Bool
is_pruned retention now a =
    is_prunable a.status && is_before (datetime now - retention) a.resolved_at

unfoldable pub prune_approvals : ℕ → ℕ → Store → Store
prune_approvals retention now s = record s {
  approvals = keep (λ a. not (is_pruned retention now a)) s.approvals;
}

-- The policy for an approval that timed out: the status, who decided and why.
pub record Policy : Type 0 where
  pub status : ApprovalStatus
  pub by : String
  pub notes : String

abbrev policy_of : Bool → Bool → Policy
policy_of true true = record {
  status = ApprovalStatus.timed_out;
  by = "timeout";
  notes = "Scoped approval timed out; automatic approval cannot satisfy an approver scope";
}
policy_of false true = record {
  status = ApprovalStatus.approved;
  by = "timeout";
  notes = "Approval granted by timeout auto-approve policy";
}
policy_of scoped false = record {
  status = ApprovalStatus.timed_out;
  by = "timeout";
  notes = "Approval timed out and was rejected by policy";
}

abbrev withdrawal : String → Policy
withdrawal notes = record { status = ApprovalStatus.cancelled; by = "scheduler"; notes = notes }

-- `auto_approve` tells the jobs whose `approval_auto` is 'approve'.
unfoldable pub timeout_policy : (Job → Bool) → Approval → Option Job → Policy
timeout_policy auto_approve a none = withdrawal "Job deleted before approval timeout"
timeout_policy auto_approve a (some j) =
    if j.enabled
    then policy_of (is_filled a.approver_scope || is_filled j.approval_approver_scope)
        (auto_approve j)
    else withdrawal "Job disabled before approval timeout"

-- One timed-out approval; a throw is logged and leaves the tables as they were.
unfoldable pub time_out_one : Env → (Job → Bool) → Approval → Store → Store
unfolding timeout_policy resolve_approval
time_out_one env auto_approve a s =
    let p = timeout_policy auto_approve a (job_of a s) in
    written s (resolve_approval env a.id p.status (some p.by) (some p.notes) true s)

unfoldable pub time_out_each : Env → (Job → Bool) → List Approval → Store → Store
unfolding time_out_one
time_out_each env auto_approve [] s = s
time_out_each env auto_approve (a ∷ rest) s =
    time_out_each env auto_approve rest (time_out_one env auto_approve a s)

-- checkApprovals
unfoldable pub check_approvals : Env → (Job → Bool) → Store → Store
unfolding recover_interrupted_approval_dispatches cancel_unavailable_job_approvals
    get_timed_out_approvals time_out_each
check_approvals env auto_approve s =
    let recovered = written s (recover_interrupted_approval_dispatches env s) in
    let cancelled = written recovered (cancel_unavailable_job_approvals env recovered) in
    time_out_each env auto_approve (get_timed_out_approvals env cancelled) cancelled
