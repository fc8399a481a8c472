-- ===== src/Dispatch/Enqueue.antt =====
-- enqueueDispatch of dispatch-queue.js. `fresh` is the text that randomUUID would return.
use openclaw_scheduler.Base.{
  ℕ, ◌-◌, String, Bool, true, not, ◌&&◌, List, [], ◌∷◌, ◌++◌, Option, none, some, ◌==◌, str_eq,
  if◌then◌else◌, filled, filled_or, is_filled, is_some, is_none, same_text, datetime, Result, ok,
  err, guard, ◌>>=◌, ◌>>◌,
}
use openclaw_scheduler.Run.Row.{Run, find_run}
use openclaw_scheduler.Job.Row.{Job, find_job}
use openclaw_scheduler.Dispatch.Row.{
  Dispatch, DispatchKind, DispatchStatus, get_dispatch, same_kind, parse_kind,
}
use openclaw_scheduler.Dispatch.Claim.{
  DispatchError, bad_kind, job_not_found, artifact_required, source_run_missing,
  source_artifact_required, source_artifact_mismatch, different_invocation, different_binding,
  not_enqueued, assert_status, time_or,
}

pub record EnqueueOpts : Type 0 where
  pub id : Option String
  pub kind : Option String
  pub status : Option String
  pub scheduled_for : Option ℕ
  pub source_run_id : Option String
  pub retry_of_run_id : Option String
  pub claimed_at : Option ℕ
  pub processed_at : Option ℕ
  pub claim_owner : Option String
  pub claim_token : Option String
  pub claim_expires_at : Option ℕ
  pub attempt_count : Option ℕ
  pub last_error : Option String
  pub replay_of_run_id : Option String
  pub source_run_handoff_artifact_digest : Option String

pub record Binding : Type 0 where
  pub artifact_digest : Option String
  pub source_run_id : Option String
  pub source_artifact_digest : Option String

abbrev valid_kind : Option DispatchKind → Result DispatchError DispatchKind
valid_kind none = err bad_kind
valid_kind (some k) = ok k

unfoldable pub assert_kind : String → Result DispatchError DispatchKind
unfolding parse_kind
assert_kind s = valid_kind (parse_kind s)

unfoldable pub found_job : Option Job → Result DispatchError Job
found_job none = err job_not_found
found_job (some j) = ok j

abbrev pub is_v4 : Job → Bool
is_v4 j = j.handoff_version == 4

-- SELECT … FROM runs WHERE id = ?, with a falsy id finding nothing.
abbrev source_run : Option String → List Run → Option Run
source_run none runs = none
source_run (some id) runs = find_run id runs

abbrev digest_of : Option Run → Option String
digest_of none = none
digest_of (some r) = r.handoff_artifact_digest

abbrev matches_request : Option String → Option String → Bool
matches_request none digest = true
matches_request (some d) digest = same_text (some d) digest

-- The artifacts that a handoff v4 dispatch is bound to, or why it may not be.
unfoldable pub bind_artifacts : EnqueueOpts → Job → List Run → Result DispatchError Binding
bind_artifacts opts job runs = do
  let v4 = is_v4 job
  let artifact = if v4 then job.handoff_artifact_digest else none
  guard (not (v4 && not (is_filled artifact))) artifact_required
  let source_id = filled opts.source_run_id
  let source = source_run source_id runs
  guard (not (v4 && is_some source_id && is_none source)) source_run_missing
  let digest = if v4 then digest_of source else none
  guard (not (v4 && is_some source && not (is_filled digest))) source_artifact_required
  guard (not (v4 && not (matches_request (filled opts.source_run_handoff_artifact_digest) digest)))
      source_artifact_mismatch
  ok (record {
    artifact_digest = artifact;
    source_run_id = source_id;
    source_artifact_digest = digest;
  })

abbrev pub same_invocation : Dispatch → String → DispatchKind → Bool
same_invocation d job_id kind = str_eq d.job_id job_id && same_kind d.dispatch_kind kind

abbrev pub same_binding : Dispatch → Binding → Bool
same_binding d b =
    same_text d.handoff_artifact_digest b.artifact_digest
    && same_text d.source_run_id b.source_run_id
    && same_text d.source_run_handoff_artifact_digest b.source_artifact_digest

unfoldable pub verify_idempotent_dispatch :
    Dispatch → String → DispatchKind → Binding → Result DispatchError Dispatch
verify_idempotent_dispatch existing job_id kind binding = do
  guard (same_invocation existing job_id kind) different_invocation
  guard (same_binding existing binding) different_binding
  ok existing

abbrev count_or_zero : Option ℕ → ℕ
count_or_zero none = 0
count_or_zero (some n) = n

abbrev pub new_dispatch :
    String → String → DispatchKind → DispatchStatus → Binding → EnqueueOpts → ℕ → Dispatch
new_dispatch id job_id kind status binding opts now = record {
  id = id;
  job_id = job_id;
  dispatch_kind = kind;
  status = status;
  scheduled_for = time_or opts.scheduled_for (datetime (now - 1000));
  binding_scheduled_for = time_or opts.scheduled_for (datetime (now - 1000));
  source_run_id = filled opts.source_run_id;
  retry_of_run_id = filled opts.retry_of_run_id;
  created_at = datetime now;
  claimed_at = opts.claimed_at;
  processed_at = opts.processed_at;
  claim_owner = filled opts.claim_owner;
  claim_token = filled opts.claim_token;
  claim_expires_at = opts.claim_expires_at;
  attempt_count = count_or_zero opts.attempt_count;
  last_error = filled opts.last_error;
  replay_of_run_id = filled opts.replay_of_run_id;
  handoff_artifact_digest = binding.artifact_digest;
  source_run_handoff_artifact_digest = binding.source_artifact_digest;
}

-- INSERT … ON CONFLICT(id) DO NOTHING
abbrev pub insert_dispatch : Dispatch → List Dispatch → List Dispatch
insert_dispatch d q = elim (get_dispatch d.id q) [ none ↦ q ++ d ∷ [] | some _ ↦ q ]

unfoldable pub inserted : Option Dispatch → Result DispatchError Dispatch
inserted none = err not_enqueued
inserted (some d) = ok d

-- `opts.id ? getDispatch(id) : null`
abbrev pub existing_for : Option String → List Dispatch → Option Dispatch
existing_for none q = none
existing_for (some id) q = get_dispatch id q

-- A known id is returned as it stands if it names the same work; another is inserted.
unfoldable pub enqueue_row :
    Option Dispatch
    → Dispatch
    → Binding
    → List Dispatch
    → Result DispatchError (List Dispatch × Dispatch)
unfolding verify_idempotent_dispatch
enqueue_row (some existing) d binding q = do
  same ← verify_idempotent_dispatch existing d.job_id d.dispatch_kind binding
  ok (q, same)
enqueue_row none d binding q = do
  let rows = insert_dispatch d q
  row ← inserted (get_dispatch d.id rows)
  same ← verify_idempotent_dispatch row d.job_id d.dispatch_kind binding
  ok (rows, same)

unfoldable pub enqueue_dispatch :
    String
    → EnqueueOpts
    → String
    → ℕ
    → List Job
    → List Run
    → List Dispatch
    → Result DispatchError (List Dispatch × Dispatch)
enqueue_dispatch job_id opts fresh now jobs runs q = do
  let id = filled_or opts.id fresh
  kind ← assert_kind (filled_or opts.kind "manual")
  status ← assert_status (filled_or opts.status "pending")
  job ← found_job (find_job job_id jobs)
  binding ← bind_artifacts opts job runs
  enqueue_row (existing_for (filled opts.id) q)
      (new_dispatch id job_id kind status binding opts now) binding q
