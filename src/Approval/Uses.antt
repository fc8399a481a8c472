-- ===== src/Approval/Uses.antt =====
-- What the use, the deferral and the recovery of an approval may write to it (approval-state.js).
use openclaw_scheduler.Base.{
  ℕ, ◌≡◌, refl, String, Bool, true, false, Option, none, inl, inr, Bool-cases, Option-cases, ok,
  ◌>>=◌, >>=-eq-ok, filled, filled_or, arith,
}
use openclaw_scheduler.Dispatch.Row.{Dispatch, get_dispatch}
use openclaw_scheduler.Approval.Row.{
  Approval, is_dispatching, is_approved, get_approval_for_dispatch, normalize_text, max_text,
}
use openclaw_scheduler.Approval.Binding.{Actor, is_bound}
use openclaw_scheduler.Approval.Store.{Store, Env, Reason, Outcome, job_of}
use openclaw_scheduler.Approval.Effects.{finish_dispatched_approval_run, on_dispatch}
use openclaw_scheduler.Approval.Verdict.{binding_objection}
use openclaw_scheduler.Approval.Decide.{write_approval}
use openclaw_scheduler.Approval.Begin.{
  can_begin, begin_row, begin_claimed, begin_bound, begin_approved, begin_approval_dispatch,
  approval_association_mismatch, cancel_corrupt_approval_association, available, has_scope,
  actor_or, is_claimed_dispatch, no_job,
}
use openclaw_scheduler.Approval.Gate.{
  is_claimed_row, requeue_row, is_started, mark_row, defer_row, mark_approval_dispatched,
  defer_approval_dispatch,
}
use openclaw_scheduler.Approval.Frame.{finish_dispatched-SameApprovals, on_dispatch-SameApprovals}
use openclaw_scheduler.Approval.Calls.{Allows, Kept, same-Kept, after_write-Kept}
use openclaw_scheduler.Approval.Keeps.{refuse-Kept, refuse_cancel-Kept, corrupt-Kept}

module _ (R : Approval → Approval → Type 0) (allows : Allows R) (j : String) where
  begin_claimed-Kept :
      (env : Env) (actor : Option Actor) (a : Approval) (s : Store) {t : Store} {o : Outcome}
      → begin_claimed env actor a s ≡ ok (t, o)
      → Kept R allows j s t
  unfolding begin_claimed
  begin_claimed-Kept env actor a s {t} {o} e =
      elim (Bool-cases (has_scope (actor_or actor env.actor) a)) [
        | inl may ↦
            after_write-Kept R allows j a.id can_begin begin_row (λ b. refl) s
              (λ row. ok (write_approval a.id can_begin begin_row s)) {t = t} {o = o}
              (λ b found. allows.begins b) (λ row u h. ground arith) (ground arith)
        | inr may_not ↦
            refuse_cancel-Kept R allows j Reason.scope_mismatch env a
              "Authenticated approval actor no longer satisfies the required scope" s {t = t}
              {o = o} (ground arith)
      ]

  begin_bound-Kept :
      (env : Env) (actor : Option Actor) (a : Approval) (d : Option Dispatch) (bound : Bool)
      (s : Store) {t : Store} {o : Outcome}
      → begin_bound env actor a d bound s ≡ ok (t, o)
      → Kept R allows j s t
  unfolding begin_bound
  begin_bound-Kept env actor a d false s e =
      refuse_cancel-Kept R allows j Reason.binding_mismatch env a
        (binding_objection a.binding_hash
          "Job execution contract changed after approval was granted")
        s e
  begin_bound-Kept env actor a d true s {t} {o} e = elim (Bool-cases (is_claimed_dispatch d)) [
    | inl claimed ↦ begin_claimed-Kept env actor a s {t = t} {o = o} (ground arith)
    | inr unclaimed ↦ same-Kept R allows j s t (ground arith)
  ]

  begin_approved-Kept :
      (env : Env) (actor : Option Actor) (a : Approval) (d : Option Dispatch) (s : Store)
      {t : Store} {o : Outcome}
      → begin_approved env actor a d s ≡ ok (t, o)
      → Kept R allows j s t
  unfolding begin_approved
  begin_approved-Kept env actor a d s {t} {o} e =
      elim (Option-cases (approval_association_mismatch a d s)) [
        | inr (why, wrong) ↦
            refuse-Kept R allows j Reason.association_mismatch
              (cancel_corrupt_approval_association env a d why s) s {t = t} {o = o}
              (λ u p. corrupt-Kept R allows j env a d why s) (ground arith)
        | inl right ↦ elim (Option-cases (available (job_of a s))) [
          | inl gone ↦
              refuse_cancel-Kept R allows j Reason.job_unavailable env a (no_job (job_of a s)) s
                {t = t} {o = o} (ground arith)
          | inr (job, there) ↦
              let body : (is_bound env.digest a.binding_hash job d s.jobs >>= λ bound.
              begin_bound env actor a d bound s)
                  ≡ ok (t, o) =
                ground arith in
              let (bound, _, rest) =
                >>=-eq-ok (is_bound env.digest a.binding_hash job d s.jobs) _ body in
              begin_bound-Kept env actor a d bound s rest
        ]
      ]

  pub begin-Kept :
      (env : Env) (dispatch_id : String) (actor : Option Actor) (s : Store) {t : Store}
      {o : Outcome}
      → begin_approval_dispatch env dispatch_id actor s ≡ ok (t, o)
      → Kept R allows j s t
  unfolding begin_approval_dispatch
  begin-Kept env dispatch_id actor s {t} {o} e =
      elim (Option-cases (get_approval_for_dispatch false dispatch_id s.approvals)) [
        | inl absent ↦ same-Kept R allows j s t (ground arith)
        | inr (a, found) ↦ elim (Bool-cases (is_approved a.status)) [
          | inl approved ↦
              begin_approved-Kept env actor a (get_dispatch dispatch_id s.dispatches) s {t = t}
                {o = o} (ground arith)
          | inr other ↦ same-Kept R allows j s t (ground arith)
        ]
      ]

  pub mark-Kept :
      (env : Env) (dispatch_id : String) (notes : Option String) (s : Store) {t : Store}
      {o : Outcome}
      → mark_approval_dispatched env dispatch_id notes s ≡ ok (t, o)
      → Kept R allows j s t
  unfolding mark_approval_dispatched
  mark-Kept env dispatch_id notes s {t} {o} e =
      elim (Option-cases (get_approval_for_dispatch false dispatch_id s.approvals)) [
        | inl absent ↦ same-Kept R allows j s t (ground arith)
        | inr (a, found) ↦ elim (Bool-cases (is_dispatching a.status)) [
          | inl started ↦
              let text : Option String = normalize_text max_text notes none in
              let f : Approval → Approval = mark_row text env.now in
              after_write-Kept R allows j a.id is_started f (λ b. refl) s
                (λ row.
                  finish_dispatched_approval_run env row
                    (filled_or text "Approval gate consumed by a separate execution run")
                    (write_approval a.id is_started f s))
                {t = t} {o = o} (λ b same. allows.marks text env.now b)
                (λ row u.
                  finish_dispatched-SameApprovals env row
                    (filled_or text "Approval gate consumed by a separate execution run")
                    (write_approval a.id is_started f s))
                (ground arith)
          | inr other ↦ same-Kept R allows j s t (ground arith)
        ]
      ]

  pub defer-Kept :
      (dispatch_id : String) (reason : Option String) (scheduled_for : Option ℕ) (s : Store)
      {t : Store} {o : Outcome}
      → defer_approval_dispatch dispatch_id reason scheduled_for s ≡ ok (t, o)
      → Kept R allows j s t
  unfolding defer_approval_dispatch
  defer-Kept dispatch_id reason scheduled_for s {t} {o} e =
      elim (Option-cases (get_approval_for_dispatch false dispatch_id s.approvals)) [
        | inl absent ↦ same-Kept R allows j s t (ground arith)
        | inr (a, found) ↦ elim (Bool-cases (is_dispatching a.status)) [
          | inl started ↦
              let f : Approval → Approval = defer_row (normalize_text max_text reason none) in
              let u : Store = write_approval a.id is_started f s in
              after_write-Kept R allows j a.id is_started f (λ b. refl) s
                (λ row. ok (
                  on_dispatch (filled a.dispatch_queue_id) is_claimed_row
                    (requeue_row scheduled_for) u))
                {t = t} {o = o} (λ b same. allows.defers _ b)
                (λ row v h. ground (
                  arith,
                  on_dispatch-SameApprovals (filled a.dispatch_queue_id) is_claimed_row
                      (requeue_row scheduled_for) u,
                ))
                (ground arith)
          | inr other ↦ same-Kept R allows j s t (ground arith)
        ]
      ]
