-- ===== src/Approval/Rounds.antt =====
-- What creating, resolving and timing out may write to one approval (approval.js,
-- dispatcher-approvals.js).
use openclaw_scheduler.Base.{
  ◌≡◌, ◌∙◌, refl, String, Bool, true, List, [], ◌∷◌, ◌++◌, Option, none, some, inl, inr,
  Option-cases, ok, guard, >>=-eq-ok, written, filled, or_else, arith,
}
use openclaw_scheduler.Base.Table.Follows.{append-Follows}
use openclaw_scheduler.Job.Row.{Job, find_job}
use openclaw_scheduler.Dispatch.Row.{Dispatch}
use openclaw_scheduler.Run.Row.{Run}
use openclaw_scheduler.Approval.Row.{Approval, ApprovalStatus, approval_key, find_approval}
use openclaw_scheduler.Approval.Binding.{ApprovalError, approval_binding_hash}
use openclaw_scheduler.Approval.Store.{Store, Env, Outcome, job_of, dispatch_named}
use openclaw_scheduler.Approval.Effects.{on_dispatch}
use openclaw_scheduler.Approval.Verdict.{run_named}
use openclaw_scheduler.Approval.Cancel.{cancel_approval, cancel_unavailable_job_approvals}
use openclaw_scheduler.Approval.Recover.{recover_interrupted_approval_dispatches}
use openclaw_scheduler.Approval.Request.{
  CreateOpts, new_approval, required_job, is_own_dispatch, is_own_run, is_same_dispatch,
  existing_approval,
}
use openclaw_scheduler.Approval.Create.{
  Created, create_approval, insert_approval, assert_v4, gated, released, can_gate_dispatch,
  gate_dispatch,
}
use openclaw_scheduler.Approval.Check.{
  resolve_approval, decision_opts, canonical_of, time_out_one, time_out_each, timeout_policy,
  check_approvals, get_timed_out_approvals,
}
use openclaw_scheduler.Approval.Cancel.{unavailable_rows}
use openclaw_scheduler.Approval.Frame.{SameApprovals, on_dispatch-SameApprovals}
use openclaw_scheduler.Approval.Calls.{
  Allows, Decides, Kept, same-Kept, trans-Kept, written-Kept, transition-Kept,
}
use openclaw_scheduler.Approval.Keeps.{cancel-Kept, cancel_each-Kept}
use openclaw_scheduler.Approval.Recovers.{recover-Kept}

-- The scheduler may take every decision.
abbrev pub DecidesAutomatically : (Approval → Approval → Type 0) → Env → Type 0
DecidesAutomatically R env =
    (id : String) (status : ApprovalStatus) (by notes : Option String)
    → Decides R id status (decision_opts true by notes env.actor)

gated-SameApprovals : (id : Option String) (s : Store) → SameApprovals s (gated id s)
gated-SameApprovals none s = refl
gated-SameApprovals (some id) s = refl

released-SameApprovals :
    (key run_id : Option String) (s : Store) → SameApprovals s (released key run_id s)
unfolding released
released-SameApprovals none run_id s = refl
released-SameApprovals (some key) none s = refl
released-SameApprovals (some key) (some run_id) s = refl

-- What the insertion leaves of the approvals.
pub insert-approvals :
    (run_id dispatch_id : Option String) (opts : CreateOpts) (a : Approval) (s : Store)
    → (on_dispatch dispatch_id can_gate_dispatch gate_dispatch (
        released
          (filled opts.release_key)
          run_id
          (gated run_id (record s { approvals = s.approvals ++ a ∷ [] })))).approvals
      ≡ s.approvals ++ a ∷ []
insert-approvals run_id dispatch_id opts a s =
    let u : Store = record s { approvals = s.approvals ++ a ∷ [] } in
    on_dispatch-SameApprovals dispatch_id can_gate_dispatch gate_dispatch
      (released (filled opts.release_key) run_id (gated run_id u))
    ∙ released-SameApprovals (filled opts.release_key) run_id (gated run_id u)
    ∙ gated-SameApprovals run_id u

module _ (R : Approval → Approval → Type 0) (allows : Allows R) (j : String) where
  insert-Kept :
      (env : Env) (fresh : String) (job : Job) (run_id dispatch_id : Option String)
      (opts : CreateOpts) (d : Option Dispatch) (r : Option Run) (s : Store) {t : Store}
      {c : Created}
      → insert_approval env fresh job run_id dispatch_id opts d r s ≡ ok (t, c)
      → Kept R allows j s t
  unfolding insert_approval
  insert-Kept env fresh job run_id dispatch_id opts d r s {t} e =
      let (hash, _, e1) = >>=-eq-ok (approval_binding_hash env.digest job d s.jobs) _ e in
      let (_, _, e2) = >>=-eq-ok (assert_v4 job d r) _ e1 in
      let a : Approval = new_approval fresh job run_id dispatch_id opts hash d r env.now in
      let u : Store = record s { approvals = s.approvals ++ a ∷ [] } in
      let same : t.approvals ≡ s.approvals ++ a ∷ [] =
        ground (arith, insert-approvals run_id dispatch_id opts a s) in
      trans-Kept R allows j s u t (append-Follows approval_key R allows.stays j s.approvals a)
        (same-Kept R allows j u t same)

  pub create-Kept :
      (env : Env) (fresh job_id : String) (run dispatch : Option String) (opts : CreateOpts)
      (s : Store) {t : Store} {c : Created}
      → create_approval env fresh job_id run dispatch opts s ≡ ok (t, c)
      → Kept R allows j s t
  unfolding create_approval
  create-Kept env fresh job_id run dispatch opts s {t} {c} e =
      let run_id = filled run in
      let dispatch_id = filled dispatch in
      let d = dispatch_named dispatch_id s in
      let r = run_named run_id s in
      let (job, _, e1) = >>=-eq-ok (required_job (find_job job_id s.jobs)) _ e in
      let (_, _, e2) =
        >>=-eq-ok (guard (is_own_dispatch job_id dispatch_id d) ApprovalError.association_mismatch)
          _ e1 in
      let (_, _, e3) =
        >>=-eq-ok (guard (is_own_run job_id run_id r) ApprovalError.association_mismatch) _ e2 in
      let (_, _, e4) =
        >>=-eq-ok (guard (is_same_dispatch dispatch_id r d) ApprovalError.association_mismatch) _
          e3 in
      elim (Option-cases (existing_approval dispatch_id opts.gate_kind s)) [
        | inl none_yet ↦
            insert-Kept env fresh job run_id dispatch_id opts d r s {t = t} {c = c} (ground arith)
        | inr (a, there) ↦ same-Kept R allows j s t (ground arith)
      ]

  pub resolve-Kept :
      (env : Env) (id : String) (status : ApprovalStatus) (by notes : Option String)
      (automatic : Bool) (s : Store) {t : Store} {o : Outcome}
      → Decides R id status (decision_opts automatic by notes env.actor)
      → resolve_approval env id status by notes automatic s ≡ ok (t, o)
      → Kept R allows j s t
  unfolding resolve_approval cancel_approval
  resolve-Kept env id ApprovalStatus.cancelled by notes automatic s decide e =
      cancel-Kept R allows j env (find_approval id s.approvals)
        (or_else (filled notes) (some "Approval cancelled")) (canonical_of automatic by env.actor) s
        e
  resolve-Kept env id ApprovalStatus.approved by notes automatic s decide e =
      transition-Kept R allows j env id ApprovalStatus.approved
        (decision_opts automatic by notes env.actor) s decide e
  resolve-Kept env id ApprovalStatus.rejected by notes automatic s decide e =
      transition-Kept R allows j env id ApprovalStatus.rejected
        (decision_opts automatic by notes env.actor) s decide e
  resolve-Kept env id ApprovalStatus.timed_out by notes automatic s decide e =
      transition-Kept R allows j env id ApprovalStatus.timed_out
        (decision_opts automatic by notes env.actor) s decide e
  resolve-Kept env id ApprovalStatus.pending by notes automatic s decide e = cc
  resolve-Kept env id ApprovalStatus.dispatching by notes automatic s decide e = cc
  resolve-Kept env id ApprovalStatus.dispatched by notes automatic s decide e = cc

  time_out_one-Kept :
      (env : Env) (auto_approve : Job → Bool) (a : Approval) (s : Store)
      → DecidesAutomatically R env
      → Kept R allows j s (time_out_one env auto_approve a s)
  unfolding time_out_one
  time_out_one-Kept env auto_approve a s decide =
      let p = timeout_policy auto_approve a (job_of a s) in
      written-Kept R allows j s
        (resolve_approval env a.id p.status (some p.by) (some p.notes) true s)
        λ t o.
          resolve-Kept env a.id p.status (some p.by) (some p.notes) true s
            (decide a.id p.status (some p.by) (some p.notes))

  time_out_each-Kept :
      (env : Env) (auto_approve : Job → Bool) (rows : List Approval) (s : Store)
      → DecidesAutomatically R env
      → Kept R allows j s (time_out_each env auto_approve rows s)
  unfolding time_out_each
  time_out_each-Kept env auto_approve [] s decide = same-Kept R allows j s s refl
  time_out_each-Kept env auto_approve (a ∷ rows) s decide =
      let u = time_out_one env auto_approve a s in
      trans-Kept R allows j s u (time_out_each env auto_approve rows u)
        (time_out_one-Kept env auto_approve a s decide)
        (time_out_each-Kept env auto_approve rows u decide)

  pub unavailable-Kept :
      (env : Env) (s : Store)
      → Kept R allows j s (written s (cancel_unavailable_job_approvals env s))
  unfolding cancel_unavailable_job_approvals
  unavailable-Kept env s =
      written-Kept R allows j s (cancel_unavailable_job_approvals env s)
        λ t n. cancel_each-Kept R allows j env "scheduler" (unavailable_rows s) s

  pub recovers-Kept :
      (env : Env) (s : Store)
      → Kept R allows j s (written s (recover_interrupted_approval_dispatches env s))
  recovers-Kept env s =
      written-Kept R allows j s (recover_interrupted_approval_dispatches env s)
        λ t n. recover-Kept R allows j env s

  pub check-Kept :
      (env : Env) (auto_approve : Job → Bool) (s : Store)
      → DecidesAutomatically R env
      → Kept R allows j s (check_approvals env auto_approve s)
  unfolding check_approvals
  check-Kept env auto_approve s decide =
      let u = written s (recover_interrupted_approval_dispatches env s) in
      let v = written u (cancel_unavailable_job_approvals env u) in
      let w = time_out_each env auto_approve (get_timed_out_approvals env v) v in
      trans-Kept R allows j s u w (recovers-Kept env s) (
        trans-Kept R allows j u v w (unavailable-Kept env u)
          (time_out_each-Kept env auto_approve (get_timed_out_approvals env v) v decide))
