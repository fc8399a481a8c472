-- ===== src/Run/Tests.antt =====
-- Runs of the run table at concrete inputs.
use mathlib.Core.Option
use openclaw_scheduler.Base.{
  false, Option, ℕ, ◌≡◌, refl, ◌⊎◌, List, [], ◌∷◌, none, some, arith, ok, is_blank, trim,
  trimmed_or,
}
use openclaw_scheduler.Base.Table.{find, modify, returning}
use openclaw_scheduler.Lease.{Lease, acquires, call_lease, acquire_dispatcher_lease, upsert_lease}
use openclaw_scheduler.Run.Row.{Run, RunStatus, null, find_run}
use openclaw_scheduler.Run.Fence.{FenceOpts, Fence, normalize_fence}
use openclaw_scheduler.Run.Ops.{request_run_cancellation}
use openclaw_scheduler.Run.Terminal.{Fields, Transition, transition_run_terminal}
use openclaw_scheduler.Run.Calls.{
  Event, Store, lease_call, run_call, requests_cancel, finishes, call_run, run_events, step,
}
use openclaw_scheduler.Run.Histories.{ended_for_ever, cancellation_binds, owner_for_ever}
use openclaw_scheduler.Base.{holds_text, holds_num}
use openclaw_scheduler.Lease.{is_held}
use openclaw_scheduler.Run.Fence.{assert_run_id, fence_sql, is_owned_by}
use openclaw_scheduler.Run.Terminal.{assert_terminal, transition}
use openclaw_scheduler.Run.Cas.{Verdict, transition_outcome}
use openclaw_scheduler.Run.Stale.{by_finish, stale_dispatcher_writes_nothing}

abbrev active_run : Run
active_run = record {
  id = "r1";
  job_id = "j1";
  status = RunStatus.running;
  started_at = some 1000;
  finished_at = none;
  duration_ms = none;
  terminal_transition_at = none;
  dispatcher_owner = some "a";
  dispatcher_token = some 3;
  dispatch_started_at = some 1000;
  dispatched_at = some 1000;
  cancel_requested_at = none;
  cancel_requested_by = none;
  cancel_reason = none;
  agent_cancel_requested_at = none;
  process_pid = some 77;
  process_pgid = none;
  process_identity = none;
  process_started_at = some 1000;
  dispatch_queue_id = none;
  handoff_artifact_digest = none;
  source_run_id = none;
  source_run_handoff_artifact_digest = none;
  idempotency_key = none;
  evidence_required = false;
  approval_used = none;
  columns = λ c. null;
}

abbrev ended_run : Run
ended_run = record active_run { status = RunStatus.error; finished_at = some 4000 }

abbrev asked_run : Run
asked_run = record active_run { cancel_requested_at = some 2000 }

abbrev lease_of_b : Lease
lease_of_b = record {
  name = "scheduler-dispatcher";
  owner_id = "b";
  fencing_token = 4;
  acquired_at = 3000;
  renewed_at = 3000;
  expires_at = 33000;
}

abbrev lease_of_a : Lease
lease_of_a = record lease_of_b { owner_id = "a"; fencing_token = 3 }

abbrev fence_of_a : Fence
fence_of_a = record { owner_id = "a"; fencing_token = 3; lease_name = "scheduler-dispatcher" }

abbrev opts_of_a : FenceOpts
opts_of_a = record {
  owner_id = some "a";
  dispatcher_owner_camel = none;
  dispatcher_owner = none;
  fencing_token = some 3;
  dispatcher_token_camel = none;
  dispatcher_token = none;
  lease_name = none;
}

abbrev no_fields : Fields
no_fields = record { duration_ms = none; field = λ c. none }

abbrev history : List (ℕ × Event)
history =
    (5000, run_call (requests_cancel "r1" none none))
    ∷ (6000, run_call (finishes "r1" RunStatus.ok no_fields opts_of_a))
    ∷ (7000, lease_call (acquires "scheduler-dispatcher" "a" 1000))
    ∷ []

abbrev store_of : Lease → Run → Store
store_of l r = record { leases = l ∷ []; runs = r ∷ [] }

ended_for_ever_example :
    (r' : Run) × (find_run "r1" (run_events history (store_of lease_of_a ended_run)).runs ≡ some r')
    × (r'.status ≡ RunStatus.error)
    × (r'.finished_at ≡ some 4000)
    × (r'.duration_ms ≡ none)
    × (r'.terminal_transition_at ≡ none)
unfolding find
ended_for_ever_example =
    ended_for_ever "r1" history (store_of lease_of_a ended_run) ended_run refl refl

cancellation_binds_example :
    (r' : Run) × (find_run "r1" (run_events history (store_of lease_of_a asked_run)).runs ≡ some r')
    × (r'.cancel_requested_at ≡ some 2000)
    × ((r'.status ≡ RunStatus.running) ⊎ (r'.status ≡ RunStatus.cancelled))
    × (r'.process_pid ≡ some 77)
unfolding find
cancellation_binds_example =
    cancellation_binds "r1" history (store_of lease_of_a asked_run) asked_run 2000 refl refl

-- The cancellation of the history above overrides the status `ok` that its owner reports.
cancelled_in_the_end :
    Option.map {B = RunStatus × Option ℕ}
      (λ r. (r.status, r.duration_ms))
      (find_run "r1" (run_events history (store_of lease_of_a active_run)).runs)
    ≡ some (RunStatus.cancelled, some 5000)
unfolding run_events step call_run call_lease find modify returning is_blank
    request_run_cancellation transition_run_terminal normalize_fence trim trimmed_or
    acquire_dispatcher_lease upsert_lease assert_run_id assert_terminal transition fence_sql
    is_owned_by holds_text holds_num is_held
cancelled_in_the_end = refl

owner_for_ever_example :
    (r' : Run) × (find_run "r1" (run_events history (store_of lease_of_b active_run)).runs
      ≡ some r')
    × (r'.dispatcher_owner ≡ some "a")
    × (r'.dispatcher_token ≡ some 3)
unfolding find
owner_for_ever_example =
    owner_for_ever "r1" history (store_of lease_of_b active_run) active_run "a" 3 refl refl refl

transition_outcome_example :
    (rows : List Run) × (t : Transition) × (transition_run_terminal "r1" RunStatus.ok no_fields
        opts_of_a 6000
        (lease_of_a ∷ [])
        (active_run ∷ [])
      ≡ ok (rows, t))
    × Verdict "r1" RunStatus.ok fence_of_a 6000
        (lease_of_a ∷ [])
        (active_run ∷ [])
        active_run
        rows
        t
unfolding find is_blank normalize_fence trim trimmed_or
transition_outcome_example =
    transition_outcome "r1" RunStatus.ok no_fields opts_of_a fence_of_a 6000 (lease_of_a ∷ [])
      (active_run ∷ []) active_run refl refl refl refl

stale_dispatcher_writes_nothing_example :
    let s' = run_events history (store_of lease_of_b active_run) in
    call_run 9000 s'.leases (finishes "r1" RunStatus.ok no_fields opts_of_a) s'.runs ≡ s'.runs
unfolding find is_blank normalize_fence trim trimmed_or
stale_dispatcher_writes_nothing_example =
    stale_dispatcher_writes_nothing opts_of_a fence_of_a 9000 history
      (store_of lease_of_b active_run) lease_of_b (finishes "r1" RunStatus.ok no_fields opts_of_a)
      refl refl refl (omega arith) (by_finish "r1" RunStatus.ok no_fields)
