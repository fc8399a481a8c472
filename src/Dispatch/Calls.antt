-- ===== src/Dispatch/Calls.antt =====
-- Histories of the dispatch queue (dispatch-queue.js): what a call leaves of the table, beside the
-- jobs and runs as they stand at its moment.
use openclaw_scheduler.Base.{
  ℕ, ◌≡◌, refl, ap, ◌∙◌, String, Bool, true, false, List, [], ◌∷◌, ◌++◌, Option, none, some, ok,
  written, written-bind, guard, filled_or, All, Option-cases, inl, inr,
}
use openclaw_scheduler.Base.Table.{modify, patch}
use openclaw_scheduler.Base.Table.Follows.{
  Follows, refl-Follows, trans-Follows, modify-Follows, update_where-Follows, append-Follows,
}
use openclaw_scheduler.Run.Row.{Run}
use openclaw_scheduler.Job.Row.{Job, find_job}
use openclaw_scheduler.Dispatch.Row.{Dispatch, DispatchStatus, dispatch_key, get_dispatch}
use openclaw_scheduler.Dispatch.Claim.{
  ClaimOpts, Identity, claim_dispatch, renew_dispatch_claim, release_dispatch, set_dispatch_status,
  normalize_claim_identity, claim_expiry, require_identity, require_identity-some, assert_status,
  may_claim, claim_row, may_renew, extend_claim, may_release, release_row, may_set, set_row,
}
use openclaw_scheduler.Dispatch.Queue.{
  swept, assert_limit, recover_stale_dispatch_claims, cancel_disabled_dispatches,
  get_due_dispatches, is_stale_claim, recover_row, is_orphan, cancel_row,
}
use openclaw_scheduler.Dispatch.Enqueue.{
  EnqueueOpts, insert_dispatch, inserted, found_job, Binding, enqueue_dispatch, enqueue_row,
  assert_kind, bind_artifacts, verify_idempotent_dispatch,
}

pub data DispatchCall : Type 0 where
  enqueues : String → EnqueueOpts → String → DispatchCall
  claims : String → ClaimOpts → String → DispatchCall
  renews : String → ClaimOpts → DispatchCall
  releases : String → Option ℕ → ClaimOpts → DispatchCall
  sets : String → String → ClaimOpts → DispatchCall
  recovers : Option String → DispatchCall
  cancels_disabled : DispatchCall
  reads_due : ℕ → DispatchCall

-- The clock and the other tables at a call.
pub record Moment : Type 0 where
  pub now : ℕ
  pub jobs : List Job
  pub runs : List Run

unfoldable pub call_dispatch : Moment → DispatchCall → List Dispatch → List Dispatch
call_dispatch m (enqueues job_id opts fresh) q =
    written q (enqueue_dispatch job_id opts fresh m.now m.jobs m.runs q)
call_dispatch m (claims id opts fresh) q = written q (claim_dispatch id opts fresh m.now m.jobs q)
call_dispatch m (renews id opts) q = written q (renew_dispatch_claim id opts m.now q)
call_dispatch m (releases id scheduled_for opts) q =
    written q (release_dispatch id scheduled_for opts q)
call_dispatch m (sets id status opts) q = written q (set_dispatch_status id status opts m.now q)
call_dispatch m (recovers reason) q = (recover_stale_dispatch_claims reason m.now m.runs q).0
call_dispatch m cancels_disabled q = (cancel_disabled_dispatches m.now m.jobs q).0
call_dispatch m (reads_due limit) q = written q (get_due_dispatches limit m.now m.runs m.jobs q)

unfoldable pub run_dispatches : List (Moment × DispatchCall) → List Dispatch → List Dispatch
run_dispatches [] q = q
run_dispatches ((m, c) ∷ cs) q = run_dispatches cs (call_dispatch m c q)

module _ (P : List Dispatch → Type 0) (q : List Dispatch) (kept : P q)
    (added : (d : Dispatch) → P (q ++ d ∷ [])) where
  insert-cases : (d : Dispatch) → P (insert_dispatch d q)
  insert-cases d = elim (Option-cases (get_dispatch d.id q)) [
    | inl e ↦ rw (e, insert_dispatch) (added d)
    | inr (x, e) ↦ rw (e, insert_dispatch) kept
  ]

  enqueue_row-cases :
      (o : Option Dispatch) (d : Dispatch) (b : Binding) → P (written q (enqueue_row o d b q))
  unfolding enqueue_row
  enqueue_row-cases (some x) d b =
      written-bind P q (verify_idempotent_dispatch x d.job_id d.dispatch_kind b) _ kept λ _ _. kept
  enqueue_row-cases none d b =
      written-bind P q (inserted (get_dispatch d.id (insert_dispatch d q))) _ kept λ row _.
        written-bind P q (verify_idempotent_dispatch row d.job_id d.dispatch_kind b) _ kept
          λ _ _. insert-cases d

  -- An insertion adds at most one row, at the end.
  enqueue-cases :
      (job_id : String) (opts : EnqueueOpts) (fresh : String) (now : ℕ) (jobs : List Job)
      (runs : List Run)
      → P (written q (enqueue_dispatch job_id opts fresh now jobs runs q))
  unfolding enqueue_dispatch
  enqueue-cases job_id opts fresh now jobs runs =
      written-bind P q (assert_kind (filled_or opts.kind "manual")) _ kept λ kind _.
        written-bind P q (assert_status (filled_or opts.status "pending")) _ kept λ status _.
          written-bind P q (found_job (find_job job_id jobs)) _ kept λ job _.
            written-bind P q (bind_artifacts opts job runs) _ kept
              λ binding _. enqueue_row-cases _ _ binding

-- What each call may write to one row.
module _ (R : Dispatch → Dispatch → Type 0) (m : Moment) where
  abbrev pub Moves : DispatchCall → Type 0
  Moves (enqueues job_id opts fresh) = Unit
  Moves (claims id opts fresh) =
      (i : Option Identity) (t : ℕ) (d : Dispatch)
      → normalize_claim_identity opts true fresh ≡ ok i
      → R d (patch (may_claim m.jobs) (claim_row i m.now t) d)
  Moves (renews id opts) =
      (i : Identity) (t : ℕ) (d : Dispatch)
      → normalize_claim_identity opts false String.[] ≡ ok (some i)
      → R d (patch (may_renew i m.now) (extend_claim t) d)
  Moves (releases id scheduled_for opts) =
      (i : Option Identity) (text : Option String) (d : Dispatch)
      → normalize_claim_identity opts false String.[] ≡ ok i
      → R d (patch (may_release i) (release_row scheduled_for text) d)
  Moves (sets id status opts) =
      (i : Option Identity) (s : DispatchStatus) (text : Option String) (d : Dispatch)
      → normalize_claim_identity opts false String.[] ≡ ok i
      → R d (patch (may_set i) (set_row s m.now text) d)
  Moves (recovers reason) =
      (text : String) (d : Dispatch)
      → R d (patch (is_stale_claim m.now m.runs) (recover_row text) d)
  Moves cancels_disabled = (d : Dispatch) → R d (patch (is_orphan m.jobs) (cancel_row m.now) d)
  Moves (reads_due limit) =
      ((text : String) (d : Dispatch)
        → R d (patch (is_stale_claim m.now m.runs) (recover_row text) d))
      × ((d : Dispatch) → R d (patch (is_orphan m.jobs) (cancel_row m.now) d))
      × ((d e f : Dispatch) → R d e → R e f → R d f)

-- A relation that every single write keeps is kept by every call.
module _ (R : Dispatch → Dispatch → Type 0) (stay : (d : Dispatch) → R d d) (j : String)
    (m : Moment) (q : List Dispatch) where
  abbrev Kept : List Dispatch → Type 0
  Kept = Follows dispatch_key R j q

  kept : Kept q
  kept = refl-Follows dispatch_key R stay j q

  patched :
      (id : String) (guard : Dispatch → Bool) (f : Dispatch → Dispatch)
      → ((d : Dispatch) → dispatch_key (f d) ≡ dispatch_key d)
      → ((d : Dispatch) → R d (patch guard f d))
      → Kept (modify dispatch_key id guard f q)
  patched id guard f same moves = modify-Follows dispatch_key R f same stay j id guard q moves

  recovered :
      ((text : String) (d : Dispatch)
        → R d (patch (is_stale_claim m.now m.runs) (recover_row text) d))
      → (reason : Option String) → Kept (recover_stale_dispatch_claims reason m.now m.runs q).0
  unfolding recover_stale_dispatch_claims
  recovered moves reason =
      update_where-Follows dispatch_key R (recover_row _) (λ d. refl) j
        (is_stale_claim m.now m.runs) q (moves _)

  call-Kept : (c : DispatchCall) → Moves R m c → Kept (call_dispatch m c q)
  unfolding call_dispatch claim_dispatch renew_dispatch_claim release_dispatch set_dispatch_status
      cancel_disabled_dispatches get_due_dispatches swept
  call-Kept (enqueues job_id opts fresh) moves =
      enqueue-cases Kept q kept (append-Follows dispatch_key R stay j q) job_id opts fresh m.now
        m.jobs m.runs
  call-Kept (claims id opts fresh) moves =
      written-bind Kept q (normalize_claim_identity opts true fresh) _ kept λ i e.
        written-bind Kept q (claim_expiry opts.lease_ms m.now) _ kept
          λ t _. patched id _ _ (λ d. refl) (λ d. moves i t d e)
  call-Kept (renews id opts) moves =
      written-bind Kept q (normalize_claim_identity opts false String.[]) _ kept λ o e.
        written-bind Kept q (require_identity o) _ kept λ i r.
          written-bind Kept q (claim_expiry opts.lease_ms m.now) _ kept λ t _.
            patched id _ _ (λ d. refl) (λ d. moves i t d (e ∙ ap ok (require_identity-some o r)))
  call-Kept (releases id scheduled_for opts) moves =
      written-bind Kept q (normalize_claim_identity opts false String.[]) _ kept
        λ i e. patched id _ _ (λ d. refl) (λ d. moves i _ d e)
  call-Kept (sets id status opts) moves = written-bind Kept q (assert_status status) _ kept λ s _.
      written-bind Kept q (normalize_claim_identity opts false String.[]) _ kept
        λ i e. patched id _ _ (λ d. refl) (λ d. moves i s _ d e)
  call-Kept (recovers reason) moves = recovered moves reason
  call-Kept cancels_disabled moves =
      update_where-Follows dispatch_key R (cancel_row m.now) (λ d. refl) j (is_orphan m.jobs) q
        moves
  call-Kept (reads_due limit) (recover, cancel, trans) =
      written-bind Kept q (assert_limit limit) _ kept λ _ _.
        trans-Follows dispatch_key R trans j q (recover_stale_dispatch_claims none m.now m.runs q).0
          _ (recovered recover none)
          (update_where-Follows dispatch_key R (cancel_row m.now) (λ d. refl) j (is_orphan m.jobs) _
            cancel)

-- So it is kept along a history whose every call keeps it.
module _ (R : Dispatch → Dispatch → Type 0) (stay : (d : Dispatch) → R d d)
    (trans : (d e f : Dispatch) → R d e → R e f → R d f) where
  pub run-Follows :
      (j : String) (cs : List (Moment × DispatchCall)) (q : List Dispatch)
      → All (λ c. Moves R c.0 c.1) cs
      → Follows dispatch_key R j q (run_dispatches cs q)
  unfolding run_dispatches
  run-Follows j [] q moves = kept R stay j (record { now = 0; jobs = []; runs = [] }) q
  run-Follows j ((m, c) ∷ cs) q (first, rest) =
      trans-Follows dispatch_key R trans j q (call_dispatch m c q)
        (run_dispatches cs (call_dispatch m c q)) (call-Kept R stay j m q c first)
        (run-Follows j cs (call_dispatch m c q) rest)
