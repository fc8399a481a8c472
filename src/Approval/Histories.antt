-- ===== src/Approval/Histories.antt =====
-- Histories of calls on the approvals, in which the other tables change between the calls
-- (approval.js, approval-state.js, dispatcher-approvals.js), and the references of an approval stay.
use openclaw_scheduler.Base.{
  ℕ, ◌≡◌, refl, String, Bool, true, ◌&&◌, List, [], ◌∷◌, Option, none, some, is_some, every,
  if◌then◌else◌, written, All, arith,
}
use openclaw_scheduler.Job.Row.{Job, find_job}
use openclaw_scheduler.Dispatch.Row.{Dispatch, get_dispatch}
use openclaw_scheduler.Run.Row.{Run, find_run}
use openclaw_scheduler.Ledger.{Entry}
use openclaw_scheduler.Approval.Row.{
  Approval, ApprovalStatus, find_approval, get_approval_for_dispatch,
}
use openclaw_scheduler.Approval.Binding.{Actor}
use openclaw_scheduler.Approval.Store.{Store, Env}
use openclaw_scheduler.Approval.Verdict.{DecisionOpts}
use openclaw_scheduler.Approval.Decide.{transition_pending_approval}
use openclaw_scheduler.Approval.Cancel.{
  cancel_approval, cancel_approval_for_dispatch, cancel_approvals_for_job,
  cancel_unavailable_job_approvals,
}
use openclaw_scheduler.Approval.Begin.{begin_approval_dispatch}
use openclaw_scheduler.Approval.Gate.{mark_approval_dispatched, defer_approval_dispatch}
use openclaw_scheduler.Approval.Recover.{recover_interrupted_approval_dispatches}
use openclaw_scheduler.Approval.Request.{CreateOpts}
use openclaw_scheduler.Approval.Create.{create_approval}
use openclaw_scheduler.Approval.Check.{resolve_approval, decision_opts, check_approvals}
use openclaw_scheduler.Approval.Cancel.{rows_for_job}
use openclaw_scheduler.Approval.Calls.{
  Allows, Decides, Kept, same-Kept, trans-Kept, written-Kept, transition-Kept,
}
use openclaw_scheduler.Approval.Keeps.{cancel-Kept, cancel_each-Kept}
use openclaw_scheduler.Approval.Uses.{begin-Kept, mark-Kept, defer-Kept}
use openclaw_scheduler.Approval.Rounds.{
  DecidesAutomatically, create-Kept, resolve-Kept, unavailable-Kept, recovers-Kept, check-Kept,
}

pub data ApprovalCall : Type 0 where
  creates : String → String → Option String → Option String → CreateOpts → ApprovalCall
  decides : String → ApprovalStatus → DecisionOpts → ApprovalCall
  resolves : String → ApprovalStatus → Option String → Option String → Bool → ApprovalCall
  begins : String → Option Actor → ApprovalCall
  marks : String → Option String → ApprovalCall
  defers : String → Option String → Option ℕ → ApprovalCall
  cancels : String → Option String → String → ApprovalCall
  cancels_for_dispatch : String → Option String → String → ApprovalCall
  cancels_for_job : String → String → String → ApprovalCall
  cancels_unavailable : ApprovalCall
  recovers : ApprovalCall
  checks : (Job → Bool) → ApprovalCall
  -- The rest of the program writes the other tables, and deletes no row that an approval names.
  elsewhere : List Run → List Dispatch → List Job → List Entry → ApprovalCall

-- A foreign key: NULL, or a row that is there.
abbrev is_there : (String → Bool) → Option String → Bool
is_there has none = true
is_there has (some id) = has id

-- Whether the rows that an approval names are there: its job, its run and its dispatch. When one of
-- them is deleted, the foreign keys of `approvals` delete the approval or clear the name.
unfoldable pub has_references : List Run → List Dispatch → List Job → Approval → Bool
has_references runs dispatches jobs a =
    is_some (find_job a.job_id jobs)
    && is_there (λ id. is_some (find_run id runs)) a.run_id
    && is_there (λ id. is_some (get_dispatch id dispatches)) a.dispatch_queue_id

-- The other tables after a write that leaves the foreign keys of `approvals` alone. A write for
-- which they would act is not modelled, and leaves the tables as they are.
unfoldable pub write_elsewhere : List Run → List Dispatch → List Job → List Entry → Store → Store
unfolding has_references
write_elsewhere runs dispatches jobs ledger s =
    if every (has_references runs dispatches jobs) s.approvals
    then record s { runs = runs; dispatches = dispatches; jobs = jobs; ledger = ledger }
    else s

unfoldable pub call_approval : Env → ApprovalCall → Store → Store
unfolding write_elsewhere
call_approval env (creates fresh job_id run dispatch opts) s =
    written s (create_approval env fresh job_id run dispatch opts s)
call_approval env (decides id status opts) s =
    written s (transition_pending_approval env id status opts s)
call_approval env (resolves id status by notes automatic) s =
    written s (resolve_approval env id status by notes automatic s)
call_approval env (begins dispatch_id actor) s =
    written s (begin_approval_dispatch env dispatch_id actor s)
call_approval env (marks dispatch_id notes) s =
    written s (mark_approval_dispatched env dispatch_id notes s)
call_approval env (defers dispatch_id reason t) s =
    written s (defer_approval_dispatch dispatch_id reason t s)
call_approval env (cancels id reason by) s = written s (cancel_approval env id reason by s)
call_approval env (cancels_for_dispatch dispatch_id reason by) s =
    written s (cancel_approval_for_dispatch env dispatch_id reason by s)
call_approval env (cancels_for_job job_id reason by) s =
    written s (cancel_approvals_for_job env job_id reason by s)
call_approval env cancels_unavailable s = written s (cancel_unavailable_job_approvals env s)
call_approval env recovers s = written s (recover_interrupted_approval_dispatches env s)
call_approval env (checks auto_approve) s = check_approvals env auto_approve s
call_approval env (elsewhere runs dispatches jobs ledger) s =
    write_elsewhere runs dispatches jobs ledger s

unfoldable pub run_approvals : List (Env × ApprovalCall) → Store → Store
unfolding call_approval
run_approvals [] s = s
run_approvals ((env, c) ∷ cs) s = run_approvals cs (call_approval env c s)

-- What a call has to allow of its decisions.
abbrev pub DecidesBy : (Approval → Approval → Type 0) → Env → ApprovalCall → Type 0
DecidesBy R env (decides id status opts) = Decides R id status opts
DecidesBy R env (resolves id status by notes automatic) =
    Decides R id status (decision_opts automatic by notes env.actor)
DecidesBy R env (checks auto_approve) = DecidesAutomatically R env
DecidesBy R env _ = Unit

elsewhere-approvals :
    (runs : List Run) (dispatches : List Dispatch) (jobs : List Job) (ledger : List Entry)
    (s : Store)
    → (write_elsewhere runs dispatches jobs ledger s).approvals ≡ s.approvals
unfolding write_elsewhere
elsewhere-approvals runs dispatches jobs ledger s = ground arith

module _ (R : Approval → Approval → Type 0) (allows : Allows R) (j : String) where
  call-Kept :
      (env : Env) (c : ApprovalCall) (s : Store)
      → DecidesBy R env c
      → Kept R allows j s (call_approval env c s)
  unfolding call_approval cancel_approval cancel_approval_for_dispatch cancel_approvals_for_job
  call-Kept env (creates fresh job_id run dispatch opts) s decide =
      written-Kept R allows j s (create_approval env fresh job_id run dispatch opts s)
        λ t c. create-Kept R allows j env fresh job_id run dispatch opts s
  call-Kept env (decides id status opts) s decide =
      written-Kept R allows j s (transition_pending_approval env id status opts s)
        λ t o. transition-Kept R allows j env id status opts s decide
  call-Kept env (resolves id status by notes automatic) s decide =
      written-Kept R allows j s (resolve_approval env id status by notes automatic s)
        λ t o. resolve-Kept R allows j env id status by notes automatic s decide
  call-Kept env (begins dispatch_id actor) s decide =
      written-Kept R allows j s (begin_approval_dispatch env dispatch_id actor s)
        λ t o. begin-Kept R allows j env dispatch_id actor s
  call-Kept env (marks dispatch_id notes) s decide =
      written-Kept R allows j s (mark_approval_dispatched env dispatch_id notes s)
        λ t o. mark-Kept R allows j env dispatch_id notes s
  call-Kept env (defers dispatch_id reason t) s decide =
      written-Kept R allows j s (defer_approval_dispatch dispatch_id reason t s)
        λ u o. defer-Kept R allows j dispatch_id reason t s
  call-Kept env (cancels id reason by) s decide =
      written-Kept R allows j s (cancel_approval env id reason by s)
        λ t o. cancel-Kept R allows j env (find_approval id s.approvals) reason by s
  call-Kept env (cancels_for_dispatch dispatch_id reason by) s decide =
      written-Kept R allows j s (cancel_approval_for_dispatch env dispatch_id reason by s) λ t o.
        cancel-Kept R allows j env (get_approval_for_dispatch true dispatch_id s.approvals) reason
          by s
  call-Kept env (cancels_for_job job_id reason by) s decide =
      written-Kept R allows j s (cancel_approvals_for_job env job_id reason by s)
        λ t n. cancel_each-Kept R allows j env by (rows_for_job job_id reason s) s
  call-Kept env cancels_unavailable s decide = unavailable-Kept R allows j env s
  call-Kept env recovers s decide = recovers-Kept R allows j env s
  call-Kept env (checks auto_approve) s decide = check-Kept R allows j env auto_approve s decide
  call-Kept env (elsewhere runs dispatches jobs ledger) s decide =
      same-Kept R allows j s (write_elsewhere runs dispatches jobs ledger s)
        (elsewhere-approvals runs dispatches jobs ledger s)

  -- A relation that every write allows is kept along a history.
  pub run-Kept :
      (cs : List (Env × ApprovalCall)) (s : Store)
      → All (λ c. DecidesBy R c.0 c.1) cs
      → Kept R allows j s (run_approvals cs s)
  unfolding run_approvals
  run-Kept [] s decide = same-Kept R allows j s s refl
  run-Kept ((env, c) ∷ cs) s (first, rest) =
      let t = call_approval env c s in
      trans-Kept R allows j s t (run_approvals cs t) (call-Kept env c s first) (run-Kept cs t rest)
