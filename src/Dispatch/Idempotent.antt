-- ===== src/Dispatch/Idempotent.antt =====
-- Enqueueing under a known id (enqueueDispatch of dispatch-queue.js).
use openclaw_scheduler.Base.{
  ℕ, ◌≡◌, refl, ◌∙◌, sym, ap, String, List, Option, none, some, ok, filled, filled_or, Result,
  ◌>>=◌, arith, Option-cases, inl, inr, >>=-eq-ok,
}
use openclaw_scheduler.Job.Row.{Job, find_job}
use openclaw_scheduler.Run.Row.{Run}
use openclaw_scheduler.Dispatch.Row.{Dispatch, DispatchKind, get_dispatch}
use openclaw_scheduler.Dispatch.Claim.{assert_status, DispatchError}
use openclaw_scheduler.Dispatch.Calls.{DispatchCall, Moment, run_dispatches}
use openclaw_scheduler.Dispatch.Histories.{IsLaterDispatch, dispatch_for_ever}
use openclaw_scheduler.Dispatch.Enqueue.{
  EnqueueOpts, Binding, enqueue_dispatch, enqueue_row, insert_dispatch, inserted, assert_kind,
  found_job, bind_artifacts, verify_idempotent_dispatch, new_dispatch, existing_for,
}

-- A verified row is returned as it is.
verify-same :
    (x r : Dispatch) (job_id : String) (kind : DispatchKind) (b : Binding)
    → verify_idempotent_dispatch x job_id kind b ≡ ok r
    → r ≡ x
unfolding verify_idempotent_dispatch
verify-same x r job_id kind b h = ground arith

inserted-some : (o : Option Dispatch) {r : Dispatch} → inserted o ≡ ok r → o ≡ some r
unfolding inserted
inserted-some none h = cc
inserted-some (some x) h = ground arith

module _ (d : Dispatch) (b : Binding) (q q' : List Dispatch) (r : Dispatch) where
  -- The row is found under the id, and passes the verification.
  abbrev IsRow : Type 0
  IsRow =
      (get_dispatch d.id q' ≡ some r)
      × (verify_idempotent_dispatch r d.job_id d.dispatch_kind b ≡ ok r)

  known-row :
      (x : Dispatch)
      → get_dispatch d.id q ≡ some x
      → enqueue_row (some x) d b q ≡ ok (q', r)
      → IsRow
  unfolding enqueue_row
  known-row x found h =
      let (same, v, is) = >>=-eq-ok (verify_idempotent_dispatch x d.job_id d.dispatch_kind b) _ h in
      let same_is : same ≡ x = verify-same x same d.job_id d.dispatch_kind b v in
      let r_is : r ≡ x = ground arith in
      let q_is : q' ≡ q = ground arith in (rw (q_is, r_is) found, rw r_is (v ∙ ap ok same_is))

  new-row : enqueue_row none d b q ≡ ok (q', r) → IsRow
  unfolding enqueue_row
  new-row h =
      let (row, i, h') = >>=-eq-ok (inserted (get_dispatch d.id (insert_dispatch d q))) _ h in
      let (same, v, is) =
        >>=-eq-ok (verify_idempotent_dispatch row d.job_id d.dispatch_kind b) _ h' in
      let same_is : same ≡ row = verify-same row same d.job_id d.dispatch_kind b v in
      let r_is : r ≡ row = ground arith in
      let q_is : q' ≡ insert_dispatch d q = ground arith in
      (rw (q_is, r_is) (inserted-some _ i), rw r_is (v ∙ ap ok same_is))

  enqueue_row-row : enqueue_row (get_dispatch d.id q) d b q ≡ ok (q', r) → IsRow
  enqueue_row-row h = elim (Option-cases (get_dispatch d.id q)) [
    | inl e ↦ new-row (rw e at h)
    | inr (x, e) ↦ known-row x e (rw e at h)
  ]

filled_or-named :
    (o : Option String) (fresh id : String) → filled o ≡ some id → filled_or o fresh ≡ id
filled_or-named none fresh id h = cc
filled_or-named (some String.[]) fresh id h = cc
filled_or-named (some (String.◌∷◌ c s)) fresh id h = ground arith

-- A row that is later than a verified one is verified too.
verify-later :
    (r e : Dispatch) (job_id : String) (kind : DispatchKind) (b : Binding)
    → IsLaterDispatch r e
    → verify_idempotent_dispatch r job_id kind b ≡ ok r
    → verify_idempotent_dispatch e job_id kind b ≡ ok e
unfolding verify_idempotent_dispatch
verify-later r e job_id kind b later h = ground (
  arith, later.job_kept, later.kind_kept, later.source_kept, later.artifact_kept,
  later.source_artifact_kept,
)

-- What was stored is verified by a second call, whatever row that call would insert, and so is what
-- became of it.
again :
    (d d' : Dispatch) (b : Binding) (q q' q2 : List Dispatch) (r e : Dispatch)
    → d'.job_id ≡ d.job_id
    → d'.dispatch_kind ≡ d.dispatch_kind
    → enqueue_row (get_dispatch d.id q) d b q ≡ ok (q', r)
    → IsLaterDispatch r e
    → enqueue_row (some e) d' b q2 ≡ ok (q2, e)
unfolding enqueue_row
again d d' b q q' q2 r e e2 e3 h later =
    let (found, verified) = enqueue_row-row d b q q' r h in
    let still = verify-later r e d.job_id d.dispatch_kind b later verified in
    rw (e2, e3, still) refl

-- enqueue_dispatch, with the id and the row that is found under it.
enqueue_as :
    String
    → Option Dispatch
    → String
    → EnqueueOpts
    → ℕ
    → List Job
    → List Run
    → List Dispatch
    → Result DispatchError (List Dispatch × Dispatch)
enqueue_as id existing job_id opts now jobs runs q = do
  kind ← assert_kind (filled_or opts.kind "manual")
  status ← assert_status (filled_or opts.status "pending")
  job ← found_job (find_job job_id jobs)
  binding ← bind_artifacts opts job runs
  enqueue_row existing (new_dispatch id job_id kind status binding opts now) binding q

enqueue-named :
    (job_id : String) (opts : EnqueueOpts) (fresh id : String) (now : ℕ) (jobs : List Job)
    (runs : List Run) (q : List Dispatch)
    → filled opts.id ≡ some id
    → enqueue_dispatch job_id opts fresh now jobs runs q
      ≡ enqueue_as id (get_dispatch id q) job_id opts now jobs runs q
unfolding enqueue_dispatch enqueue_as
enqueue-named job_id opts fresh id now jobs runs q named =
    ap (λ i. enqueue_as i (existing_for (filled opts.id) q) job_id opts now jobs runs q)
      (filled_or-named opts.id fresh id named)
    ∙ ap (λ o. enqueue_as id (existing_for o q) job_id opts now jobs runs q) named

-- The row is found under the id, and a second call is answered with what became of it.
enqueue_as-again :
    (id job_id : String) (opts : EnqueueOpts) (now : ℕ) (jobs : List Job) (runs : List Run)
    (q q' : List Dispatch) (r : Dispatch)
    → enqueue_as id (get_dispatch id q) job_id opts now jobs runs q ≡ ok (q', r)
    → (get_dispatch id q' ≡ some r)
      × ((now' : ℕ) (q2 : List Dispatch) (e : Dispatch)
          → IsLaterDispatch r e
          → enqueue_as id (some e) job_id opts now' jobs runs q2 ≡ ok (q2, e))
unfolding enqueue_as
enqueue_as-again id job_id opts now jobs runs q q' r h =
    let (kind, k, h1) = >>=-eq-ok (assert_kind (filled_or opts.kind "manual")) _ h in
    let (status, s, h2) = >>=-eq-ok (assert_status (filled_or opts.status "pending")) _ h1 in
    let (job, j, h3) = >>=-eq-ok (found_job (find_job job_id jobs)) _ h2 in
    let (binding, b, h4) = >>=-eq-ok (bind_artifacts opts job runs) _ h3 in
    (
      (enqueue_row-row (new_dispatch id job_id kind status binding opts now) binding q q' r h4).0,
      λ now' q2 e later.
          rw (k, s, j, b)
            (again (new_dispatch id job_id kind status binding opts now)
              (new_dispatch id job_id kind status binding opts now') binding q q' q2 r e refl refl
              h4 later),
    )

-- Enqueueing again under the same id for the same work, after any calls of dispatch-queue.js, at
-- any time and with any generated id, inserts nothing and returns the row that the first call
-- inserted or found, as it has become: its job, kind, occurrence, source run and artifacts are the
-- same. The jobs and the runs are, at the second call, as at the first: that a job is deleted, or
-- that the artifact of a run changes, is excepted.
pub enqueue_idempotent :
    (job_id : String) (opts : EnqueueOpts) (fresh fresh' id : String) (now now' : ℕ)
    (jobs : List Job) (runs : List Run) (q q' : List Dispatch) (r : Dispatch)
    (cs : List (Moment × DispatchCall))
    → filled opts.id ≡ some id
    → enqueue_dispatch job_id opts fresh now jobs runs q ≡ ok (q', r)
    → let q2 = run_dispatches cs q' in
      (get_dispatch id q' ≡ some r)
      × (e : Dispatch) × (get_dispatch id q2 ≡ some e)
      × IsLaterDispatch r e
      × (enqueue_dispatch job_id opts fresh' now' jobs runs q2 ≡ ok (q2, e))
enqueue_idempotent job_id opts fresh fresh' id now now' jobs runs q q' r cs named h =
    let first = sym (enqueue-named job_id opts fresh id now jobs runs q named) ∙ h in
    let (found, second) = enqueue_as-again id job_id opts now jobs runs q q' r first in
    let q2 = run_dispatches cs q' in
    let (e, there, later) = dispatch_for_ever id cs q' r found in
    (
      found,
      e,
      there,
      later,
      enqueue-named job_id opts fresh' id now' jobs runs q2 named
          ∙ ap (λ o. enqueue_as id o job_id opts now' jobs runs q2) there
          ∙ second now' q2 e later,
    )
