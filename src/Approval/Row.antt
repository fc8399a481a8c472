-- ===== src/Approval/Row.antt =====
-- The rows of the approvals table, their states, and texts as they are stored (approval-state.js).
use openclaw_scheduler.Base.{
  ℕ, String, Bool, true, false, ◌&&◌, List, [], ◌∷◌, Option, none, some, ltb, if◌then◌else◌,
  holds_text, trim, slice, is_blank,
}
use openclaw_scheduler.Base.Table.{find}

-- APPROVAL_STATUSES
pub data ApprovalStatus : Type 0 where
  pending approved rejected timed_out cancelled dispatching dispatched : ApprovalStatus

abbrev pub is_pending : ApprovalStatus → Bool
is_pending ApprovalStatus.pending = true
is_pending _ = false

abbrev pub is_approved : ApprovalStatus → Bool
is_approved ApprovalStatus.approved = true
is_approved _ = false

abbrev pub is_dispatching : ApprovalStatus → Bool
is_dispatching ApprovalStatus.dispatching = true
is_dispatching _ = false

abbrev pub is_dispatched : ApprovalStatus → Bool
is_dispatched ApprovalStatus.dispatched = true
is_dispatched _ = false

abbrev pub is_rejected : ApprovalStatus → Bool
is_rejected ApprovalStatus.rejected = true
is_rejected _ = false

abbrev pub is_cancelled : ApprovalStatus → Bool
is_cancelled ApprovalStatus.cancelled = true
is_cancelled _ = false

-- ACTIVE_STATUSES
abbrev pub is_active : ApprovalStatus → Bool
is_active ApprovalStatus.pending = true
is_active ApprovalStatus.approved = true
is_active ApprovalStatus.dispatching = true
is_active _ = false

-- PENDING_DECISIONS
abbrev pub is_decision : ApprovalStatus → Bool
is_decision ApprovalStatus.approved = true
is_decision ApprovalStatus.rejected = true
is_decision ApprovalStatus.timed_out = true
is_decision ApprovalStatus.cancelled = true
is_decision _ = false

-- `status IN ('approved', 'dispatching')`
abbrev pub is_granted : ApprovalStatus → Bool
is_granted ApprovalStatus.approved = true
is_granted ApprovalStatus.dispatching = true
is_granted _ = false

pub data GateKind : Type 0 where
  job authorization : GateKind

abbrev pub same_gate : GateKind → GateKind → Bool
same_gate GateKind.job GateKind.job = true
same_gate GateKind.authorization GateKind.authorization = true
same_gate _ _ = false

pub record Approval : Type 0 where
  pub id : String
  pub job_id : String
  pub run_id : Option String
  pub dispatch_queue_id : Option String
  pub status : ApprovalStatus
  pub requested_at : ℕ
  pub resolved_at : Option ℕ
  pub resolved_by : Option String
  pub notes : Option String
  pub decision_version : ℕ
  pub cancelled_reason : Option String
  pub expires_at : Option ℕ
  pub approved_at : Option ℕ
  pub rejected_at : Option ℕ
  pub dispatched_at : Option ℕ
  pub risk_level : Option String
  pub approver_scope : Option String
  pub binding_hash : Option String
  pub gate_kind : GateKind
  pub decision_context : Option String
  pub handoff_artifact_digest : Option String
  pub source_run_id : Option String
  pub source_run_handoff_artifact_digest : Option String

abbrev pub approval_key : Approval → String
approval_key a = a.id

-- approvalRow
abbrev pub find_approval : String → List Approval → Option Approval
find_approval = find approval_key

-- … WHERE p ORDER BY requested_at DESC, rowid DESC LIMIT 1, over rows in the order of their rowids.
unfoldable pub latest : (Approval → Bool) → List Approval → Option Approval
latest p [] = none
latest p (a ∷ rest) = elim (latest p rest) [
  | none ↦ if p a then some a else none
  | some b ↦ if p a && ltb b.requested_at a.requested_at then some a else some b
]

-- getApprovalForDispatch
abbrev pub concerns : Bool → String → Approval → Bool
concerns active_only dispatch_id a =
    holds_text a.dispatch_queue_id dispatch_id && (if active_only then is_active a.status else true)

unfoldable pub get_approval_for_dispatch : Bool → String → List Approval → Option Approval
unfolding latest
get_approval_for_dispatch active_only dispatch_id = latest (concerns active_only dispatch_id)

-- normalizeText
unfoldable pub normalize_text : ℕ → Option String → Option String → Option String
unfolding trim is_blank slice
normalize_text max_length value fallback = elim value [
  | none ↦ fallback
  | some s ↦ let text = some (slice max_length (trim s)) in if is_blank s then fallback else text
]

abbrev pub max_text : ℕ
max_text = 4000

-- normalizeText(value, 'fallback')
unfoldable pub text_or : Option String → String → String
unfolding normalize_text
text_or value fallback = elim (normalize_text max_text value none) [ none ↦ fallback | some s ↦ s ]
