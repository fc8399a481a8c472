-- ===== src/Approval/Binding.antt =====
-- What an approval is bound to, and who may approve (approval-binding.js).
use Prim.Native.Char.{Char, code}
use Prim.Native.String.{◌++◌}
use openclaw_scheduler.Base.{
  ℕ, zero, suc, String, Bool, true, false, not, ◌||◌, List, [], ◌∷◌, map, Option, none, some,
  str_eq, ◌==◌, if◌then◌else◌, any_of, filled, is_filled, Result, ok, err, guard, ◌>>=◌, ◌>>◌,
}
use openclaw_scheduler.Job.Row.{Job, TriggerOn, ScheduleKind, find_job}
use openclaw_scheduler.Dispatch.Row.{Dispatch, DispatchKind}

pub data ApprovalError : Type 0 where
  lineage_cycle lineage_missing lineage_too_long artifact_required : ApprovalError
  scope_mismatch bad_transition not_released evidence_failed bad_run_id : ApprovalError
  job_missing job_disabled association_mismatch source_mismatch : ApprovalError

-- stableJob: the columns that are not in DYNAMIC_JOB_FIELDS.
pub record StableJob : Type 0 where
  pub id : String
  pub enabled : Bool
  pub parent_id : Option String
  pub trigger_on : Option TriggerOn
  pub trigger_condition : Option String
  pub trigger_delay_s : ℕ
  pub max_trigger_fanout : ℕ
  pub max_queued_dispatches : ℕ
  pub max_retries : ℕ
  pub schedule_kind : ScheduleKind
  pub schedule_cron : Option String
  pub handoff_version : ℕ
  pub handoff_artifact_digest : Option String
  pub effective_task_hash : Option String
  pub schedule_tz : Option String
  pub approval_timeout_s : Option ℕ
  pub approval_risk_level : Option String
  pub approval_approver_scope : Option String
  pub contract : String

unfoldable pub stable_job : Job → StableJob
stable_job j = record {
  id = j.id;
  enabled = j.enabled;
  parent_id = j.parent_id;
  trigger_on = j.trigger_on;
  trigger_condition = j.trigger_condition;
  trigger_delay_s = j.trigger_delay_s;
  max_trigger_fanout = j.max_trigger_fanout;
  max_queued_dispatches = j.max_queued_dispatches;
  max_retries = j.max_retries;
  schedule_kind = j.schedule_kind;
  schedule_cron = j.schedule_cron;
  handoff_version = j.handoff_version;
  handoff_artifact_digest = j.handoff_artifact_digest;
  effective_task_hash = j.effective_task_hash;
  schedule_tz = j.schedule_tz;
  approval_timeout_s = j.approval_timeout_s;
  approval_risk_level = j.approval_risk_level;
  approval_approver_scope = j.approval_approver_scope;
  contract = j.contract;
}

-- stableDispatch
pub record StableDispatch : Type 0 where
  pub id : Option String
  pub job_id : Option String
  pub dispatch_kind : DispatchKind
  pub scheduled_for : ℕ
  pub source_run_id : Option String
  pub retry_of_run_id : Option String
  pub replay_of_run_id : Option String
  pub handoff_artifact_digest : Option String
  pub source_run_handoff_artifact_digest : Option String

unfoldable pub stable_dispatch : Option Dispatch → Option StableDispatch
stable_dispatch none = none
stable_dispatch (some d) = some (record {
  id = filled (some d.id);
  job_id = filled (some d.job_id);
  dispatch_kind = d.dispatch_kind;
  scheduled_for = d.binding_scheduled_for;
  source_run_id = filled d.source_run_id;
  retry_of_run_id = filled d.retry_of_run_id;
  replay_of_run_id = filled d.replay_of_run_id;
  handoff_artifact_digest = filled d.handoff_artifact_digest;
  source_run_handoff_artifact_digest = filled d.source_run_handoff_artifact_digest;
})

-- What approvalBindingPayload builds.
pub data Payload : Type 0 where
  v3 : StableJob → List StableJob → Option StableDispatch → Payload
  v4 :
      String
      → String
      → Option String
      → List (String × Option String)
      → Option StableDispatch
      → Payload

abbrev ancestor : Job → String × Option String
ancestor j = (j.id, filled j.handoff_artifact_digest)

unfoldable pub approval_binding_payload :
    Job → List Job → Option Dispatch → Result ApprovalError Payload
unfolding stable_job stable_dispatch
approval_binding_payload j lineage dispatch =
    if j.handoff_version == 4
    then elim (filled j.handoff_artifact_digest) [
      | none ↦ err artifact_required
      | some artifact ↦
          ok (
            v4 j.id artifact j.effective_task_hash (map ancestor lineage)
              (stable_dispatch dispatch))
    ]
    else ok (v3 (stable_job j) (map stable_job lineage) (stable_dispatch dispatch))

abbrev seen_before : String → List String → Bool
seen_before id = any_of (λ s. str_eq s id)

unfoldable pub found_parent : Option Job → Result ApprovalError Job
found_parent none = err lineage_missing
found_parent (some j) = ok j

-- `while (parentId)`. `room` is how many more jobs the lineage may take.
unfoldable pub lineage_from :
    ℕ → List String → Option String → List Job → Result ApprovalError (List Job)
unfolding found_parent
lineage_from room seen none jobs = ok []
lineage_from zero seen (some parent_id) jobs = do
  guard (not (seen_before parent_id seen)) lineage_cycle
  parent ← found_parent (find_job parent_id jobs)
  err lineage_too_long
lineage_from (suc room) seen (some parent_id) jobs = do
  guard (not (seen_before parent_id seen)) lineage_cycle
  parent ← found_parent (find_job parent_id jobs)
  rest ← lineage_from room (parent_id ∷ seen) (filled parent.parent_id) jobs
  ok (parent ∷ rest)

abbrev pub max_lineage : ℕ
max_lineage = 64

unfoldable pub load_approval_binding_lineage : Job → List Job → Result ApprovalError (List Job)
unfolding lineage_from
load_approval_binding_lineage j jobs =
    lineage_from max_lineage (j.id ∷ []) (filled j.parent_id) jobs

-- `digest` is sha256 of the canonical JSON text of a payload.
unfoldable pub approval_binding_hash :
    (Payload → String) → Job → Option Dispatch → List Job → Result ApprovalError String
unfolding load_approval_binding_lineage approval_binding_payload
approval_binding_hash digest j dispatch jobs = do
  lineage ← load_approval_binding_lineage j jobs
  payload ← approval_binding_payload j lineage dispatch
  ok (digest payload)

-- `!binding_hash || approvalBindingHashForDb(…) !== binding_hash`, negated.
unfoldable pub is_bound :
    (Payload → String)
    → Option String
    → Job
    → Option Dispatch
    → List Job
    → Result ApprovalError Bool
unfolding approval_binding_hash
is_bound digest expected j dispatch jobs = elim (filled expected) [
  | none ↦ ok false
  | some h ↦ do actual ← approval_binding_hash digest j dispatch jobs; ok (str_eq actual h)
]

-- A person whom the operating system has authenticated.
pub record Actor : Type 0 where
  pub canonical : String
  pub aliases : List String

-- getAuthenticatedApprovalActor; `uid` is the decimal text of the user's number, where there is one.
unfoldable pub authenticated_actor : String → Option String → Actor
authenticated_actor username none =
    let canonical = "local-user:" ++ username in
    record {
      canonical = canonical;
      aliases = canonical ∷ username ∷ ("user:" ++ username) ∷ ("principal:" ++ username) ∷ [];
    }
authenticated_actor username (some uid) =
    let canonical = "local-user:" ++ uid in
    record {
      canonical = canonical;
      aliases =
          canonical
          ∷ username
          ∷ ("user:" ++ username)
          ∷ ("principal:" ++ username)
          ∷ ("uid:" ++ uid)
          ∷ ("principal:local-user:" ++ uid)
          ∷ [];
    }

abbrev longer_kind : Char → Option (String × String) → Option (String × String)
longer_kind c none = none
longer_kind c (some (kind, expected)) = some (String.◌∷◌ c kind, expected)

-- The text before the first colon and the text after it.
unfoldable pub split_scope : String → Option (String × String)
split_scope String.[] = none
split_scope (String.◌∷◌ c s) =
    let rest = longer_kind c (split_scope s) in if code c == b':' then some (String.[], s) else rest

abbrev pub has_alias : Actor → String → Bool
has_alias actor name = any_of (λ a. str_eq a name) actor.aliases

-- `kind === 'principal' || kind === 'user' || kind === 'exact'`
abbrev is_named_kind : String → Bool
is_named_kind kind = str_eq kind "principal" || str_eq kind "user" || str_eq kind "exact"

abbrev scope_parts : String → String × String
scope_parts scope = elim (split_scope scope) [ none ↦ ("exact", scope) | some parts ↦ parts ]

abbrev matches_parts : Actor → String → String × String → Bool
matches_parts actor scope (kind, expected) =
    if not (is_filled (some expected))
    then false
    else if is_named_kind kind
    then has_alias actor expected || has_alias actor (kind ++ ":" ++ expected)
    else has_alias actor scope

-- approverMatchesScope for an authenticated actor, or none.
unfoldable pub approver_matches_scope : Option Actor → String → Bool
unfolding split_scope
approver_matches_scope actor scope = elim (filled (some scope)) [
  | none ↦ true
  | some _ ↦ elim actor [ none ↦ false | some a ↦ matches_parts a scope (scope_parts scope) ]
]
