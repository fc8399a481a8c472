-- ===== src/Dispatch/Tests.antt =====
-- The dispatch queue at concrete inputs.
use openclaw_scheduler.Base.{
  ℕ, ◌+◌, ◌≡◌, refl, true, List, [], ◌∷◌, none, some, arith, ok, is_blank, datetime, same_text,
}
use openclaw_scheduler.Base.Table.{find, modify, returning}
use openclaw_scheduler.Job.Row.{Job, ScheduleKind, has_enabled}
use openclaw_scheduler.Dispatch.Row.{
  Dispatch, DispatchKind, DispatchStatus, get_dispatch, parse_kind, parse_status,
}
use openclaw_scheduler.Dispatch.Claim.{
  ClaimOpts, Identity, claim_dispatch, normalize_claim_identity, claim_expiry, assert_status,
}
use openclaw_scheduler.Dispatch.Queue.{get_due_dispatches}
use openclaw_scheduler.Dispatch.Enqueue.{
  EnqueueOpts, enqueue_dispatch, enqueue_row, assert_kind, found_job, bind_artifacts, inserted,
  verify_idempotent_dispatch,
}
use openclaw_scheduler.Dispatch.Calls.{
  DispatchCall, claims, recovers, reads_due, Moment, run_dispatches,
}
use openclaw_scheduler.Dispatch.Histories.{IsLaterDispatch}
use openclaw_scheduler.Dispatch.Exclusive.{IsHeld, claim_undisturbed, claim_once}
use openclaw_scheduler.Dispatch.Due.{IsReading, due_selection}
use openclaw_scheduler.Dispatch.Idempotent.{enqueue_idempotent}

abbrev waiting : Dispatch
waiting = record {
  id = "d1";
  job_id = "j1";
  dispatch_kind = DispatchKind.manual;
  status = DispatchStatus.pending;
  scheduled_for = 4000;
  binding_scheduled_for = 4000;
  source_run_id = none;
  retry_of_run_id = none;
  created_at = 4000;
  claimed_at = none;
  processed_at = none;
  claim_owner = none;
  claim_token = none;
  claim_expires_at = none;
  attempt_count = 0;
  last_error = none;
  replay_of_run_id = none;
  handoff_artifact_digest = none;
  source_run_handoff_artifact_digest = none;
}

abbrev claimed_row : Dispatch
claimed_row = record waiting {
  status = DispatchStatus.claimed;
  claimed_at = some 5000;
  claim_owner = some "a";
  claim_token = some "t";
  claim_expires_at = some 35000;
  attempt_count = 1;
}

abbrev job : Job
job = record {
  id = "j1";
  enabled = true;
  parent_id = none;
  trigger_on = none;
  trigger_condition = none;
  trigger_delay_s = 0;
  max_trigger_fanout = 0;
  max_queued_dispatches = 0;
  queued_count = 0;
  max_retries = 0;
  schedule_kind = ScheduleKind.cron;
  schedule_cron = none;
  next_run_at = none;
  last_run_at = none;
  last_status = none;
  handoff_version = 3;
  handoff_artifact_digest = none;
  effective_task_hash = none;
  schedule_tz = none;
  approval_timeout_s = none;
  approval_risk_level = none;
  approval_approver_scope = none;
  updated_at = none;
  contract = "run";
}

abbrev opts_of_a : ClaimOpts
opts_of_a = record {
  owner_id = some "a";
  claim_owner_camel = none;
  claim_owner = none;
  claim_token_camel = some "t";
  claim_token = none;
  lease_ms = none;
  last_error = none;
}

abbrev opts_of_b : ClaimOpts
opts_of_b = record opts_of_a { owner_id = some "b"; claim_token_camel = none }

abbrev a_by_t : Identity
a_by_t = record { owner = "a"; token = "t" }

abbrev moment : ℕ → Moment
moment now = record { now = now; jobs = job ∷ []; runs = [] }

abbrev calls_of_others : List (Moment × DispatchCall)
calls_of_others =
    (moment 6000, claims "d1" opts_of_b "u")
    ∷ (moment 7000, recovers none)
    ∷ (moment 8000, reads_due 10)
    ∷ []

claim_once_example :
    (before : Dispatch) × (get_dispatch "d1" (waiting ∷ []) ≡ some before)
    × (before.status ≡ DispatchStatus.pending)
    × (has_enabled before.job_id (job ∷ []) ≡ true)
    × (get_dispatch "d1" (claimed_row ∷ []) ≡ some claimed_row)
    × IsHeld a_by_t 35000 claimed_row
    × (1 ≡ before.attempt_count + 1)
    × (claim_dispatch "d1" opts_of_b "u" 6000 (job ∷ []) (claimed_row ∷ [])
        ≡ ok (claimed_row ∷ [], none))
unfolding find modify returning is_blank normalize_claim_identity claim_expiry claim_dispatch
    datetime has_enabled
claim_once_example =
    claim_once "d1" opts_of_a opts_of_b "f" "u" 5000 6000 35000 36000 a_by_t
      (some (record { owner = "b"; token = "u" })) (job ∷ []) (job ∷ []) (waiting ∷ [])
      (claimed_row ∷ []) claimed_row refl refl refl refl refl

claim_undisturbed_example :
    get_dispatch "d1" (run_dispatches calls_of_others (claimed_row ∷ [])) ≡ some claimed_row
unfolding find
claim_undisturbed_example =
    claim_undisturbed "d1" a_by_t 35000 calls_of_others (claimed_row ∷ []) claimed_row refl
      (record { claimed = refl; owned = refl; token = refl; until = refl })
      ((omega arith, tt), ((omega arith, tt), ((omega arith, tt), tt)))

due_selection_example :
    (rows due : List Dispatch) × (get_due_dispatches 10 5000 [] (job ∷ []) (waiting ∷ [])
      ≡ ok (rows, due))
    × IsReading 10 5000 [] (job ∷ []) (waiting ∷ []) rows due
due_selection_example = due_selection 10 5000 [] (job ∷ []) (waiting ∷ []) (omega arith)

abbrev enqueue_opts : EnqueueOpts
enqueue_opts = record {
  id = some "d1";
  kind = none;
  status = none;
  scheduled_for = some 4000;
  source_run_id = none;
  retry_of_run_id = none;
  claimed_at = none;
  processed_at = none;
  claim_owner = none;
  claim_token = none;
  claim_expires_at = none;
  attempt_count = none;
  last_error = none;
  replay_of_run_id = none;
  source_run_handoff_artifact_digest = none;
}

-- The dispatch is claimed between the two calls.
abbrev taken : List (Moment × DispatchCall)
taken = (moment 5000, claims "d1" opts_of_a "f") ∷ []

enqueue_idempotent_example :
    (get_dispatch "d1" (waiting ∷ []) ≡ some waiting)
    × (e : Dispatch) × (get_dispatch "d1" (run_dispatches taken (waiting ∷ [])) ≡ some e)
    × IsLaterDispatch waiting e
    × (enqueue_dispatch "j1" enqueue_opts "g" 9000
          (job ∷ [])
          []
          (run_dispatches taken (waiting ∷ []))
        ≡ ok (run_dispatches taken (waiting ∷ []), e))
unfolding enqueue_dispatch enqueue_row assert_kind assert_status parse_kind parse_status found_job
    bind_artifacts inserted verify_idempotent_dispatch find datetime same_text
enqueue_idempotent_example =
    enqueue_idempotent "j1" enqueue_opts "f" "g" "d1" 4000 9000 (job ∷ []) [] [] (waiting ∷ [])
      waiting taken refl refl
