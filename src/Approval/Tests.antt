-- ===== src/Approval/Tests.antt =====
-- Approvals at concrete inputs.
use openclaw_scheduler.Base.{
  datetime, holds_text, ◌≡◌, refl, String, true, false, List, [], ◌∷◌, none, some, ok,
}
use openclaw_scheduler.Base.Table.{find, modify, returning}
use openclaw_scheduler.Job.Row.{Job, ScheduleKind, find_job}
use openclaw_scheduler.Dispatch.Row.{
  Dispatch, DispatchKind, DispatchStatus, get_dispatch, is_settled,
}
use openclaw_scheduler.Dispatch.Calls.{DispatchCall, claims, Moment, run_dispatches}
use openclaw_scheduler.Approval.Row.{
  Approval, ApprovalStatus, GateKind, find_approval, get_approval_for_dispatch,
}
use openclaw_scheduler.Approval.Binding.{Payload, Actor, approver_matches_scope}
use openclaw_scheduler.Approval.Store.{Store, Env, Outcome, outcome_of}
use openclaw_scheduler.Approval.Verdict.{DecisionOpts}
use openclaw_scheduler.Approval.Decide.{transition_pending_approval}
use openclaw_scheduler.Approval.Begin.{begin_approval_dispatch}
use openclaw_scheduler.Approval.Request.{CreateOpts}
use openclaw_scheduler.Approval.Create.{Created, create_approval}
use openclaw_scheduler.Approval.Check.{resolve_approval}
use openclaw_scheduler.Approval.Histories.{ApprovalCall, resolves, checks, elsewhere, run_approvals}
use openclaw_scheduler.Approval.Final.{IsLaterApproval, approval_for_ever}
use openclaw_scheduler.Approval.Consent.{is_withheld, no_grant_without_consent}
use openclaw_scheduler.Approval.Bound.{IsBegun, begin_requires}
use openclaw_scheduler.Approval.Contract.{contract_of, starts_what_was_requested}
use openclaw_scheduler.Approval.Withdrawn.{refused_dispatch_never_runs}

abbrev job : Job
job = record {
  id = "j1";
  enabled = true;
  parent_id = none;
  trigger_on = none;
  trigger_condition = none;
  trigger_delay_s = 0;
  max_trigger_fanout = 0;
  max_queued_dispatches = 0;
  queued_count = 0;
  max_retries = 0;
  schedule_kind = ScheduleKind.cron;
  schedule_cron = none;
  next_run_at = none;
  last_run_at = none;
  last_status = none;
  handoff_version = 3;
  handoff_artifact_digest = none;
  effective_task_hash = none;
  schedule_tz = none;
  approval_timeout_s = some 60;
  approval_risk_level = none;
  approval_approver_scope = some "user:ann";
  updated_at = none;
  contract = "run";
}

abbrev claimed_dispatch : Dispatch
claimed_dispatch = record {
  id = "d1";
  job_id = "j1";
  dispatch_kind = DispatchKind.manual;
  status = DispatchStatus.claimed;
  scheduled_for = 4000;
  binding_scheduled_for = 4000;
  source_run_id = none;
  retry_of_run_id = none;
  created_at = 4000;
  claimed_at = some 4000;
  processed_at = none;
  claim_owner = none;
  claim_token = none;
  claim_expires_at = none;
  attempt_count = 1;
  last_error = none;
  replay_of_run_id = none;
  handoff_artifact_digest = none;
  source_run_handoff_artifact_digest = none;
}

abbrev ann : Actor
ann = record { canonical = "local-user:7"; aliases = "ann" ∷ "user:ann" ∷ [] }

abbrev digest : Payload → String
digest (Payload.v3 j lineage d) = j.contract
digest (Payload.v4 id artifact task lineage d) = artifact

abbrev env : Env
env = record {
  now = 5000;
  digest = digest;
  next_cron = λ cron tz t. none;
  actor = ann;
  has_evidence = λ r. true;
}

abbrev opts : CreateOpts
opts = record {
  gate_kind = GateKind.job;
  timeout_s = none;
  expires_at = none;
  risk_level = none;
  approver_scope = none;
  decision_context = none;
  release_key = none;
}

abbrev asked : Approval
asked = record {
  id = "a1";
  job_id = "j1";
  run_id = none;
  dispatch_queue_id = some "d1";
  status = ApprovalStatus.pending;
  requested_at = 5000;
  resolved_at = none;
  resolved_by = none;
  notes = none;
  decision_version = 0;
  cancelled_reason = none;
  expires_at = some 65000;
  approved_at = none;
  rejected_at = none;
  dispatched_at = none;
  risk_level = none;
  approver_scope = some "user:ann";
  binding_hash = some "run";
  gate_kind = GateKind.job;
  decision_context = none;
  handoff_artifact_digest = none;
  source_run_id = none;
  source_run_handoff_artifact_digest = none;
}

abbrev before : Store
before = record {
  approvals = [];
  runs = [];
  dispatches = claimed_dispatch ∷ [];
  jobs = job ∷ [];
  ledger = [];
}

abbrev requested : Store
requested = record before {
  approvals = asked ∷ [];
  dispatches = record claimed_dispatch { status = DispatchStatus.awaiting_approval } ∷ [];
}

abbrev created : Created
created = record { approval = asked; deduped = false }

creates_asked : create_approval env "a1" "j1" none (some "d1") opts before ≡ ok (requested, created)
unfolding create_approval find modify datetime
creates_asked = refl

-- Ann approves, the queue hands the dispatch out again, and it starts.
abbrev approving : List (Env × ApprovalCall)
approving =
    (env, resolves "a1" ApprovalStatus.approved none none false)
    ∷ (env, elsewhere [] (claimed_dispatch ∷ []) (job ∷ []) [])
    ∷ []

abbrev approved : Approval
approved = record asked {
  status = ApprovalStatus.approved;
  resolved_at = some 5000;
  resolved_by = some "local-user:7";
  notes = some "Approval granted";
  decision_version = 1;
  approved_at = some 5000;
}

abbrev granted : Store
granted = record requested { approvals = approved ∷ []; dispatches = claimed_dispatch ∷ [] }

approves : run_approvals approving requested ≡ granted
unfolding run_approvals resolve_approval approver_matches_scope find modify returning datetime
approves = refl

abbrev begun : Store
begun = record granted {
  approvals = record approved { status = ApprovalStatus.dispatching; decision_version = 2 } ∷ [];
}

abbrev started : Outcome
started = record {
  changed = true;
  approval = some (record approved { status = ApprovalStatus.dispatching; decision_version = 2 });
  reason = none;
}

begins_granted : begin_approval_dispatch env "d1" none granted ≡ ok (begun, started)
unfolding begin_approval_dispatch approver_matches_scope find modify returning holds_text outcome_of
begins_granted = refl

approval_for_ever_example :
    (b : Approval) × (find_approval "a1" (run_approvals approving requested).approvals ≡ some b)
    × IsLaterApproval asked b
unfolding find
approval_for_ever_example = approval_for_ever "a1" approving requested asked refl

-- The timeouts and a stranger's attempt grant nothing.
abbrev stranger : Actor
stranger = record { canonical = "local-user:9"; aliases = "eve" ∷ [] }

abbrev waiting_for_ann : List (Env × ApprovalCall)
waiting_for_ann =
    (record env { now = 90000 }, checks (λ j. true))
    ∷ (record env { actor = stranger }, resolves "a1" ApprovalStatus.approved none none false)
    ∷ []

no_grant_without_consent_example :
    (b : Approval) × (find_approval "a1" (run_approvals waiting_for_ann requested).approvals
      ≡ some b)
    × (is_withheld b.status ≡ true)
unfolding find approver_matches_scope
no_grant_without_consent_example =
    no_grant_without_consent "a1" "user:ann" waiting_for_ann requested asked refl refl refl
      (refl, (refl, tt))

begin_requires_example :
    (a : Approval) × (d : Dispatch) × (j : Job) × (h : String) × IsBegun env "d1" none granted begun
      a d j h
begin_requires_example = begin_requires env "d1" none granted begins_granted refl

begins_approved :
    begin_approval_dispatch env "d1" none (run_approvals approving requested) ≡ ok (begun, started)
begins_approved = rw approves begins_granted

starts_what_was_requested_example :
    (j : Job) × (j' : Job) × (d : Dispatch) × (p : Payload) × (p' : Payload) × (find_job "j1"
        before.jobs
      ≡ some j)
    × (contract_of j (some claimed_dispatch) before.jobs ≡ ok p)
    × (find_job "j1" (run_approvals approving requested).jobs ≡ some j')
    × (contract_of j' (some d) (run_approvals approving requested).jobs ≡ ok p')
    × (digest p ≡ digest p')
unfolding find get_approval_for_dispatch holds_text
starts_what_was_requested_example =
    starts_what_was_requested env env "a1" "j1" none (some "d1") opts before requested created
      approving "d1" none begun started approved refl refl creates_asked refl begins_approved refl
      (rw approves refl) (rw approves refl)

-- Ann refuses: the dispatch is cancelled, and no later claim takes it.
abbrev refusal : DecisionOpts
refusal = record {
  resolved_by = some "local-user:7";
  notes = none;
  reason = none;
  actor = some ann;
  automatic = false;
}

abbrev refused : Approval
refused = record asked {
  status = ApprovalStatus.rejected;
  resolved_at = some 5000;
  resolved_by = some "local-user:7";
  notes = some "Rejected by operator";
  decision_version = 1;
  rejected_at = some 5000;
}

abbrev dropped : Dispatch
dropped = record claimed_dispatch {
  status = DispatchStatus.cancelled;
  processed_at = some 5000;
  last_error = some "Rejected by operator";
}

abbrev rejected : Store
rejected = record requested { approvals = refused ∷ []; dispatches = dropped ∷ [] }

abbrev rejection : Outcome
rejection = record { changed = true; approval = some refused; reason = none }

rejects :
    transition_pending_approval env "a1" ApprovalStatus.rejected refusal requested
    ≡ ok (rejected, rejection)
unfolding transition_pending_approval approver_matches_scope find modify returning datetime
    outcome_of
rejects = refl

abbrev later_claim : List (Moment × DispatchCall)
later_claim =
    (
      record { now = 6000; jobs = job ∷ []; runs = [] },
      claims "d1"
          (record {
            owner_id = some "x";
            claim_owner_camel = none;
            claim_owner = none;
            claim_token_camel = none;
            claim_token = none;
            lease_ms = none;
            last_error = none;
          })
          "token",
    )
    ∷ []

refused_dispatch_never_runs_example :
    (e : Dispatch) × (get_dispatch "d1" (run_dispatches later_claim rejected.dispatches) ≡ some e)
    × (e.status ≡ DispatchStatus.cancelled)
    × (is_settled e.status ≡ true)
unfolding find
refused_dispatch_never_runs_example =
    refused_dispatch_never_runs env "a1" ApprovalStatus.rejected refusal requested rejected
      rejection refused "d1" dropped later_claim rejects refl refl refl refl refl
