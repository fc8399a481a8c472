-- ===== src/Approval/Request.antt =====
-- The checks of createApproval, and the row that it would insert (approval.js).
use openclaw_scheduler.Base.{
  ℕ, ◌+◌, ◌*◌, String, Bool, true, false, not, ◌&&◌, ◌||◌, Option, none, some, str_eq, ◌==◌,
  if◌then◌else◌, or_else, filled, same_text, holds_text, datetime, Result, ok, err,
}
use openclaw_scheduler.Job.Row.{Job}
use openclaw_scheduler.Dispatch.Row.{Dispatch}
use openclaw_scheduler.Run.Row.{Run, find_run}
use openclaw_scheduler.Approval.Row.{
  Approval, ApprovalStatus, GateKind, same_gate, is_active, latest,
}
use openclaw_scheduler.Approval.Binding.{ApprovalError}
use openclaw_scheduler.Approval.Store.{Store}

-- `opts`: the context is the text that is stored.
pub record CreateOpts : Type 0 where
  pub gate_kind : GateKind
  pub timeout_s : Option ℕ
  pub expires_at : Option ℕ
  pub risk_level : Option String
  pub approver_scope : Option String
  pub decision_context : Option String
  pub release_key : Option String

abbrev pub required_job : Option Job → Result ApprovalError Job
required_job none = err ApprovalError.job_missing
required_job (some j) = if j.enabled then ok j else err ApprovalError.job_disabled

-- The dispatch and the run that are named exist and belong to the job, and to each other.
abbrev pub is_own_dispatch : String → Option String → Option Dispatch → Bool
is_own_dispatch job_id none d = true
is_own_dispatch job_id (some id) none = false
is_own_dispatch job_id (some id) (some d) = str_eq d.job_id job_id

abbrev pub is_own_run : String → Option String → Option Run → Bool
is_own_run job_id none r = true
is_own_run job_id (some id) none = false
is_own_run job_id (some id) (some r) = str_eq r.job_id job_id

abbrev pub is_same_dispatch : Option String → Option Run → Option Dispatch → Bool
is_same_dispatch dispatch_id (some r) (some d) = same_text r.dispatch_queue_id dispatch_id
is_same_dispatch dispatch_id _ _ = true

abbrev pub source_of : Option Dispatch → Option String
source_of none = none
source_of (some d) = filled d.source_run_id

abbrev pub source_artifact_of : Option Dispatch → Option String
source_artifact_of none = none
source_artifact_of (some d) = filled d.source_run_handoff_artifact_digest

abbrev pub run_source_of : Option Run → Option String
run_source_of none = none
run_source_of (some r) = filled r.source_run_id

abbrev pub run_source_artifact_of : Option Run → Option String
run_source_artifact_of none = none
run_source_artifact_of (some r) = filled r.source_run_handoff_artifact_digest

abbrev waits_for : String → GateKind → Approval → Bool
waits_for dispatch_id gate a =
    holds_text a.dispatch_queue_id dispatch_id && same_gate a.gate_kind gate && is_active a.status

abbrev pub existing_approval : Option String → GateKind → Store → Option Approval
existing_approval none gate s = none
existing_approval (some id) gate s = latest (waits_for id gate) s.approvals

-- The reuse of an active approval of the same dispatch.
abbrev pub is_same_request : Job → Option String → Option String → Option Dispatch → Approval → Bool
is_same_request j run_id dispatch_id dispatch a =
    str_eq a.job_id j.id
    && same_text (filled a.run_id) run_id
    && same_text a.dispatch_queue_id dispatch_id
    && (not (j.handoff_version == 4)
        || (same_text a.handoff_artifact_digest j.handoff_artifact_digest
            && same_text a.source_run_id (source_of dispatch)
            && same_text a.source_run_handoff_artifact_digest (source_artifact_of dispatch)))

abbrev is_run_of : Approval → Option Run → Bool
is_run_of a none = false
is_run_of a (some r) = str_eq r.job_id a.job_id && same_text r.dispatch_queue_id a.dispatch_queue_id

abbrev pub has_own_run : Approval → Store → Bool
has_own_run a s = elim (filled a.run_id) [
  | none ↦ true
  | some run_id ↦ is_run_of a (find_run run_id s.runs)
]

abbrev positive : Option ℕ → Option ℕ
positive none = none
positive (some n) = if n == 0 then none else some n

abbrev expiry : CreateOpts → Job → ℕ → Option ℕ
expiry opts j now = elim (positive opts.expires_at) [
  | some t ↦ some (datetime t)
  | none ↦ elim (positive (or_else opts.timeout_s j.approval_timeout_s)) [
    | none ↦ none
    | some seconds ↦ some (datetime (now + seconds * 1000))
  ]
]

abbrev if_v4 : Job → Option String → Option String
if_v4 j value = if j.handoff_version == 4 then value else none

abbrev pub new_approval :
    String
    → Job
    → Option String
    → Option String
    → CreateOpts
    → String
    → Option Dispatch
    → Option Run
    → ℕ
    → Approval
new_approval id j run_id dispatch_id opts hash dispatch run now = record {
  id = id;
  job_id = j.id;
  run_id = run_id;
  dispatch_queue_id = dispatch_id;
  status = ApprovalStatus.pending;
  requested_at = datetime now;
  resolved_at = none;
  resolved_by = none;
  notes = none;
  decision_version = 0;
  cancelled_reason = none;
  expires_at = expiry opts j now;
  approved_at = none;
  rejected_at = none;
  dispatched_at = none;
  risk_level = or_else (filled opts.risk_level) (filled j.approval_risk_level);
  approver_scope = or_else opts.approver_scope j.approval_approver_scope;
  binding_hash = some hash;
  gate_kind = opts.gate_kind;
  decision_context = opts.decision_context;
  handoff_artifact_digest = if_v4 j j.handoff_artifact_digest;
  source_run_id = if_v4 j (or_else (source_of dispatch) (run_source_of run));
  source_run_handoff_artifact_digest =
      if_v4 j (or_else (source_artifact_of dispatch) (run_source_artifact_of run));
}

abbrev pub dispatch_artifact : Option Dispatch → Option String
dispatch_artifact none = none
dispatch_artifact (some d) = d.handoff_artifact_digest

abbrev pub has_artifact : Option String → Option Run → Bool
has_artifact artifact none = true
has_artifact artifact (some r) = same_text r.handoff_artifact_digest artifact
