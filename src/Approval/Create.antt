-- ===== src/Approval/Create.antt =====
-- The creation of an approval (approval.js, createApproval).
use openclaw_scheduler.Base.{
  String, Bool, true, false, not, ◌&&◌, [], ◌∷◌, ◌++◌, Option, none, some, str_eq, ◌==◌,
  if◌then◌else◌, filled, same_text, holds_text, keep, Result, ok, guard, ◌>>=◌, ◌>>◌,
}
use openclaw_scheduler.Base.Table.{modify}
use openclaw_scheduler.Job.Row.{Job, find_job}
use openclaw_scheduler.Dispatch.Row.{Dispatch, DispatchStatus}
use openclaw_scheduler.Run.Row.{Run, RunStatus, run_key}
use openclaw_scheduler.Ledger.{Entry, is_claimed}
use openclaw_scheduler.Approval.Row.{Approval, latest}
use openclaw_scheduler.Approval.Binding.{ApprovalError, approval_binding_hash}
use openclaw_scheduler.Approval.Store.{Store, Env, dispatch_named}
use openclaw_scheduler.Approval.Verdict.{run_named}
use openclaw_scheduler.Approval.Effects.{on_dispatch}
use openclaw_scheduler.Approval.Request.{
  CreateOpts, dispatch_artifact, existing_approval, has_artifact, has_own_run, is_own_dispatch,
  is_own_run, is_same_dispatch, is_same_request, new_approval, required_job, run_source_artifact_of,
  run_source_of, source_artifact_of, source_of,
}

-- The checks of a version 4 handoff, which stand after the insertion and roll it back.
abbrev assert_artifacts : Job → Option Dispatch → Option Run → Result ApprovalError (Unit {0})
assert_artifacts j dispatch run = do
  guard
      (same_text (dispatch_artifact dispatch) j.handoff_artifact_digest
        && has_artifact j.handoff_artifact_digest run)
      ApprovalError.association_mismatch
  guard
      (same_text (source_of dispatch) (run_source_of run)
        && same_text (source_artifact_of dispatch) (run_source_artifact_of run))
      ApprovalError.source_mismatch

unfoldable pub assert_v4 : Job → Option Dispatch → Option Run → Result ApprovalError (Unit {0})
assert_v4 j dispatch run = if j.handoff_version == 4 then assert_artifacts j dispatch run else ok tt

abbrev can_gate_run : Run → Bool
can_gate_run r = elim r.status [ RunStatus.pending ↦ true | RunStatus.running ↦ true | _ ↦ false ]

abbrev gate_run : Run → Run
gate_run r = record r {
  status = RunStatus.awaiting_approval;
  dispatcher_owner = none;
  dispatcher_token = none;
}

abbrev pub gated : Option String → Store → Store
gated none s = s
gated (some run_id) s = record s { runs = modify run_key run_id can_gate_run gate_run s.runs }

abbrev is_awaiting_with : String → Run → Bool
is_awaiting_with key r =
    elim r.status [ RunStatus.awaiting_approval ↦ true | _ ↦ false ]
    && holds_text r.idempotency_key key

abbrev drop_key : Run → Run
drop_key r = record r { idempotency_key = none }

abbrev is_claim_of : String → String → Entry → Bool
is_claim_of key run_id e = str_eq e.key key && str_eq e.run_id run_id && is_claimed e.status

-- The idempotency claim of a run that waits for approval is given up.
unfoldable pub released : Option String → Option String → Store → Store
released (some key) (some run_id) s = record s {
  ledger = keep (λ e. not (is_claim_of key run_id e)) s.ledger;
  runs = modify run_key run_id (is_awaiting_with key) drop_key s.runs;
}
released _ _ s = s

abbrev pub can_gate_dispatch : Dispatch → Bool
can_gate_dispatch d = elim d.status [
  | DispatchStatus.pending ↦ true
  | DispatchStatus.claimed ↦ true
  | _ ↦ false
]

abbrev pub gate_dispatch : Dispatch → Dispatch
gate_dispatch d = record d {
  status = DispatchStatus.awaiting_approval;
  claim_owner = none;
  claim_token = none;
  claim_expires_at = none;
}

pub record Created : Type 0 where
  pub approval : Approval
  pub deduped : Bool

unfoldable pub insert_approval :
    Env
    → String
    → Job
    → Option String
    → Option String
    → CreateOpts
    → Option Dispatch
    → Option Run
    → Store
    → Result ApprovalError (Store × Created)
unfolding approval_binding_hash assert_v4 released
insert_approval env id j run_id dispatch_id opts dispatch run s = do
  hash ← approval_binding_hash env.digest j dispatch s.jobs
  let a = new_approval id j run_id dispatch_id opts hash dispatch run env.now
  assert_v4 j dispatch run
  ok (
    on_dispatch dispatch_id can_gate_dispatch gate_dispatch (
        released (filled opts.release_key) run_id
          (gated run_id (record s { approvals = s.approvals ++ a ∷ [] }))),
    record { approval = a; deduped = false },
  )

-- createApproval; `fresh` is the id that randomUUID returns, an id of no row, and an empty id of a
-- run or of a dispatch counts as none.
unfoldable pub create_approval :
    Env
    → String
    → String
    → Option String
    → Option String
    → CreateOpts
    → Store
    → Result ApprovalError (Store × Created)
unfolding insert_approval latest
create_approval env fresh job_id run dispatch opts s = do
  let run_id = filled run
  let dispatch_id = filled dispatch
  j ← required_job (find_job job_id s.jobs)
  let d = dispatch_named dispatch_id s
  guard (is_own_dispatch job_id dispatch_id d) ApprovalError.association_mismatch
  let r = run_named run_id s
  guard (is_own_run job_id run_id r) ApprovalError.association_mismatch
  guard (is_same_dispatch dispatch_id r d) ApprovalError.association_mismatch
  elim (existing_approval dispatch_id opts.gate_kind s) [
    | none ↦ insert_approval env fresh j run_id dispatch_id opts d r s
    | some a ↦ do
      guard (is_same_request j run_id dispatch_id d a) ApprovalError.association_mismatch
      guard (has_own_run a s) ApprovalError.association_mismatch
      ok (s, record { approval = a; deduped = true })
  ]
