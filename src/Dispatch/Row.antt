-- ===== src/Dispatch/Row.antt =====
-- The rows of job_dispatch_queue, and the texts that name their kinds and states.
use openclaw_scheduler.Base.{
  ℕ, String, Bool, true, false, List, Option, none, some, str_eq, if◌then◌else◌,
}
use openclaw_scheduler.Base.Table.{find}

-- VALID_DISPATCH_KINDS
pub data DispatchKind : Type 0 where
  manual chain retry schedule at : DispatchKind

-- VALID_DISPATCH_STATUSES
pub data DispatchStatus : Type 0 where
  pending claimed awaiting_approval done cancelled failed : DispatchStatus

-- What assertKind and assertStatus let through.
unfoldable pub parse_kind : String → Option DispatchKind
parse_kind s =
    if str_eq s "manual"
    then some manual
    else if str_eq s "chain"
    then some chain
    else if str_eq s "retry"
    then some retry
    else if str_eq s "schedule"
    then some schedule
    else if str_eq s "at"
    then some at
    else none

unfoldable pub parse_status : String → Option DispatchStatus
parse_status s =
    if str_eq s "pending"
    then some pending
    else if str_eq s "claimed"
    then some claimed
    else if str_eq s "awaiting_approval"
    then some awaiting_approval
    else if str_eq s "done"
    then some done
    else if str_eq s "cancelled"
    then some cancelled
    else if str_eq s "failed"
    then some failed
    else none

abbrev pub same_kind : DispatchKind → DispatchKind → Bool
same_kind manual manual = true
same_kind chain chain = true
same_kind retry retry = true
same_kind schedule schedule = true
same_kind at at = true
same_kind _ _ = false

abbrev pub is_pending : DispatchStatus → Bool
is_pending pending = true
is_pending _ = false

abbrev pub is_claimed : DispatchStatus → Bool
is_claimed claimed = true
is_claimed _ = false

-- `['done', 'cancelled', 'failed'].includes(status)`
abbrev pub is_settled : DispatchStatus → Bool
is_settled done = true
is_settled cancelled = true
is_settled failed = true
is_settled _ = false

-- `status IN ('pending', 'awaiting_approval')`
abbrev pub is_unclaimed : DispatchStatus → Bool
is_unclaimed pending = true
is_unclaimed awaiting_approval = true
is_unclaimed _ = false

-- `status IN ('claimed', 'awaiting_approval')`
abbrev pub is_releasable : DispatchStatus → Bool
is_releasable claimed = true
is_releasable awaiting_approval = true
is_releasable _ = false

pub record Dispatch : Type 0 where
  pub id : String
  pub job_id : String
  pub dispatch_kind : DispatchKind
  pub status : DispatchStatus
  pub scheduled_for : ℕ
  pub binding_scheduled_for : ℕ
  pub source_run_id : Option String
  pub retry_of_run_id : Option String
  pub created_at : ℕ
  pub claimed_at : Option ℕ
  pub processed_at : Option ℕ
  pub claim_owner : Option String
  pub claim_token : Option String
  pub claim_expires_at : Option ℕ
  pub attempt_count : ℕ
  pub last_error : Option String
  pub replay_of_run_id : Option String
  pub handoff_artifact_digest : Option String
  pub source_run_handoff_artifact_digest : Option String

abbrev pub dispatch_key : Dispatch → String
dispatch_key d = d.id

-- getDispatch
abbrev pub get_dispatch : String → List Dispatch → Option Dispatch
get_dispatch = find dispatch_key
