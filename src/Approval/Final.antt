-- ===== src/Approval/Final.antt =====
-- An approval over every history of calls (approval-state.js).
use openclaw_scheduler.Base.{
  ◌≤◌, ◌≡◌, ◌∙◌, String, Bool, true, false, List, [], ◌∷◌, some, All, arith,
}
use openclaw_scheduler.Approval.Row.{Approval, ApprovalStatus, find_approval}
use openclaw_scheduler.Approval.Store.{Store, Env}
use openclaw_scheduler.Approval.Calls.{Allows}
use openclaw_scheduler.Approval.Histories.{
  ApprovalCall, creates, decides, resolves, begins, marks, defers, cancels, cancels_for_dispatch,
  cancels_for_job, cancels_unavailable, recovers, checks, elsewhere, DecidesBy, run_approvals,
  run-Kept,
}

-- No transition leaves these.
abbrev pub is_final : ApprovalStatus → Bool
is_final ApprovalStatus.rejected = true
is_final ApprovalStatus.timed_out = true
is_final ApprovalStatus.cancelled = true
is_final ApprovalStatus.dispatched = true
is_final _ = false

-- What is fixed when an approval is requested, what its version tells, and what its end fixes.
pub record IsLaterApproval (a b : Approval) : Type 0 where
  pub job_kept : b.job_id ≡ a.job_id
  pub run_kept : b.run_id ≡ a.run_id
  pub dispatch_kept : b.dispatch_queue_id ≡ a.dispatch_queue_id
  pub scope_kept : b.approver_scope ≡ a.approver_scope
  pub binding_kept : b.binding_hash ≡ a.binding_hash
  pub gate_kept : b.gate_kind ≡ a.gate_kind
  pub version_le : a.decision_version ≤ b.decision_version
  pub version_tells : b.decision_version ≡ a.decision_version → b ≡ a
  pub final_kept : is_final a.status ≡ true → b ≡ a

stays : (a : Approval) → IsLaterApproval a a
stays a = ground arith

composes : (a b c : Approval) → IsLaterApproval a b → IsLaterApproval b c → IsLaterApproval a c
composes a b c p q = record {
  job_kept = q.job_kept ∙ p.job_kept;
  run_kept = q.run_kept ∙ p.run_kept;
  dispatch_kept = q.dispatch_kept ∙ p.dispatch_kept;
  scope_kept = q.scope_kept ∙ p.scope_kept;
  binding_kept = q.binding_kept ∙ p.binding_kept;
  gate_kept = q.gate_kept ∙ p.gate_kept;
  version_le = omega arith;
  version_tells = λ e. q.version_tells (omega arith) ∙ p.version_tells (omega arith);
  final_kept = λ h. q.final_kept (rw (p.final_kept h) h) ∙ p.final_kept h;
}

allows : Allows IsLaterApproval
allows = record {
  stays = stays;
  composes = composes;
  cancels = λ by why now a. ground arith;
  corrupts = λ why now a. ground arith;
  begins = λ a. ground arith;
  marks = λ notes now a. ground arith;
  defers = λ notes a. ground arith;
  completes = λ now a. ground arith;
  reopens = λ a. ground arith;
}

later-Decides : (env : Env) (c : ApprovalCall) → DecidesBy IsLaterApproval env c
later-Decides env (creates fresh job_id run dispatch opts) = tt
later-Decides env (decides id status opts) = λ a forced by reason now e may valid. ground arith
later-Decides env (resolves id status by notes automatic) =
    λ a forced by reason now e may valid. ground arith
later-Decides env (begins dispatch_id actor) = tt
later-Decides env (marks dispatch_id notes) = tt
later-Decides env (defers dispatch_id reason t) = tt
later-Decides env (cancels id reason by) = tt
later-Decides env (cancels_for_dispatch dispatch_id reason by) = tt
later-Decides env (cancels_for_job job_id reason by) = tt
later-Decides env cancels_unavailable = tt
later-Decides env recovers = tt
later-Decides env (checks auto_approve) =
    λ id status by notes a forced decider reason now e may valid. ground arith
later-Decides env (elsewhere runs dispatches jobs ledger) = tt

All-Decides : (cs : List (Env × ApprovalCall)) → All (λ c. DecidesBy IsLaterApproval c.0 c.1) cs
All-Decides [] = tt
All-Decides ((env, c) ∷ cs) = (later-Decides env c, All-Decides cs)

-- Whatever calls on the approvals follow, while no approval is pruned and no job, run or dispatch
-- that an approval names is deleted: an approval is not lost, and keeps its job, run, dispatch,
-- scope, binding and gate; its version never falls, and while the version is the same the whole row
-- is; once it is rejected, timed out, cancelled or dispatched, the row does not change.
pub approval_for_ever :
    (id : String) (cs : List (Env × ApprovalCall)) (s : Store) (a : Approval)
    → find_approval id s.approvals ≡ some a
    → (b : Approval) × (find_approval id (run_approvals cs s).approvals ≡ some b)
      × IsLaterApproval a b
approval_for_ever id cs s a found = run-Kept IsLaterApproval allows id cs s (All-Decides cs) a found
