-- ===== src/Approval/Consent.antt =====
-- An approval with a scope is granted only by an actor that satisfies it (approval-state.js,
-- approval-binding.js).
use openclaw_scheduler.Base.{
  ◌≡◌, ◌∙◌, String, Bool, true, false, ◌&&◌, List, [], ◌∷◌, some, All, arith, str_eq, eq_iff,
  filled,
}
use openclaw_scheduler.Base.Table.{find-key}
use openclaw_scheduler.Approval.Row.{
  Approval, ApprovalStatus, approval_key, find_approval, is_approved,
}
use openclaw_scheduler.Approval.Store.{Store, Env}
use openclaw_scheduler.Approval.Verdict.{DecisionOpts, is_entitled, may_decide}
use openclaw_scheduler.Approval.Check.{decision_opts}
use openclaw_scheduler.Approval.Calls.{Allows, Decides}
use openclaw_scheduler.Approval.Histories.{
  ApprovalCall, creates, decides, resolves, begins, marks, defers, cancels, cancels_for_dispatch,
  cancels_for_job, cancels_unavailable, recovers, checks, elsewhere, DecidesBy, run_approvals,
  run-Kept,
}

-- Not granted: no dispatch may start under these.
abbrev pub is_withheld : ApprovalStatus → Bool
is_withheld ApprovalStatus.pending = true
is_withheld ApprovalStatus.rejected = true
is_withheld ApprovalStatus.timed_out = true
is_withheld ApprovalStatus.cancelled = true
is_withheld _ = false

-- The call asks to approve `id`, for an actor who satisfies the scope and not by itself.
abbrev pub grants : String → String → String → ApprovalStatus → DecisionOpts → Bool
grants id scope asked status opts =
    str_eq asked id && is_approved status && is_entitled opts (some scope)

abbrev pub consents : String → String → Env × ApprovalCall → Bool
consents id scope (env, decides asked status opts) = grants id scope asked status opts
consents id scope (env, resolves asked status by notes automatic) =
    grants id scope asked status (decision_opts automatic by notes env.actor)
consents id scope _ = false

module _ (id scope : String) where
  record StaysWithheld (a b : Approval) : Type 0 where
    pub id_kept : b.id ≡ a.id
    pub scope_kept : b.approver_scope ≡ a.approver_scope
    pub withheld_kept :
        a.id ≡ id
        → filled a.approver_scope ≡ some scope
        → is_withheld a.status ≡ true
        → is_withheld b.status ≡ true

  composes : (a b c : Approval) → StaysWithheld a b → StaysWithheld b c → StaysWithheld a c
  composes a b c p q = record {
    id_kept = q.id_kept ∙ p.id_kept;
    scope_kept = q.scope_kept ∙ p.scope_kept;
    withheld_kept = λ mine scoped withheld.
        q.withheld_kept (p.id_kept ∙ mine) (rw p.scope_kept scoped)
          (p.withheld_kept mine scoped withheld);
  }

  allows : Allows StaysWithheld
  allows = record {
    stays = λ a. ground arith;
    composes = composes;
    cancels = λ by why now a. ground arith;
    corrupts = λ why now a. ground arith;
    begins = λ a. ground arith;
    marks = λ notes now a. ground arith;
    defers = λ notes a. ground arith;
    completes = λ now a. ground arith;
    reopens = λ a. ground arith;
  }

  withheld-Decides :
      (asked : String) (status : ApprovalStatus) (opts : DecisionOpts)
      → grants id scope asked status opts ≡ false
      → Decides StaysWithheld asked status opts
  unfolding may_decide
  withheld-Decides asked status opts no_grant a forced by reason now e may valid =
      ground (arith, eq_iff asked id)

  call-Decides :
      (env : Env) (c : ApprovalCall)
      → consents id scope (env, c) ≡ false
      → DecidesBy StaysWithheld env c
  call-Decides env (creates fresh job_id run dispatch opts) h = tt
  call-Decides env (decides asked status opts) h = withheld-Decides asked status opts h
  call-Decides env (resolves asked status by notes automatic) h =
      withheld-Decides asked status (decision_opts automatic by notes env.actor) h
  call-Decides env (begins dispatch_id actor) h = tt
  call-Decides env (marks dispatch_id notes) h = tt
  call-Decides env (defers dispatch_id reason t) h = tt
  call-Decides env (cancels asked reason by) h = tt
  call-Decides env (cancels_for_dispatch dispatch_id reason by) h = tt
  call-Decides env (cancels_for_job job_id reason by) h = tt
  call-Decides env cancels_unavailable h = tt
  call-Decides env recovers h = tt
  call-Decides env (checks auto_approve) h = λ asked status by notes.
      withheld-Decides asked status (decision_opts true by notes env.actor) (ground arith)
  call-Decides env (elsewhere runs dispatches jobs ledger) h = tt

  All-Decides :
      (cs : List (Env × ApprovalCall))
      → All (λ c. consents id scope c ≡ false) cs
      → All (λ c. DecidesBy StaysWithheld c.0 c.1) cs
  All-Decides [] h = tt
  All-Decides ((env, c) ∷ cs) (first, rest) = (call-Decides env c first, All-Decides cs rest)

-- An approval with a scope that has not been granted (pending, rejected, timed out or cancelled)
-- is not approved, dispatching or dispatched after any history of calls, the timeouts with their
-- automatic approvals included, in which no job, run or dispatch that an approval names is deleted,
-- unless some call in it asks to approve it for an authenticated actor who satisfies the scope.
pub no_grant_without_consent :
    (id scope : String) (cs : List (Env × ApprovalCall)) (s : Store) (a : Approval)
    → find_approval id s.approvals ≡ some a
    → filled a.approver_scope ≡ some scope
    → is_withheld a.status ≡ true
    → All (λ c. consents id scope c ≡ false) cs
    → (b : Approval) × (find_approval id (run_approvals cs s).approvals ≡ some b)
      × (is_withheld b.status ≡ true)
no_grant_without_consent id scope cs s a found scoped withheld no_consent =
    let (b, there, moved) =
      run-Kept (StaysWithheld id scope) (allows id scope) id cs s
        (All-Decides id scope cs no_consent) a found in
    (b, there, moved.withheld_kept (find-key approval_key id s.approvals found) scoped withheld)
