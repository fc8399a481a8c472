-- ===== src/Dispatch/Histories.antt =====
-- What holds of a queued dispatch over every history of calls (dispatch-queue.js).
use openclaw_scheduler.Base.{◌≤◌, ◌≡◌, ◌∙◌, String, true, List, [], ◌∷◌, some, All, arith}
use openclaw_scheduler.Dispatch.Row.{Dispatch, get_dispatch, is_settled}
use openclaw_scheduler.Dispatch.Calls.{
  DispatchCall, enqueues, claims, renews, releases, sets, recovers, cancels_disabled, reads_due,
  Moment, Moves, run_dispatches, run-Follows,
}

-- What is fixed when a dispatch is queued, and what is fixed when it is settled.
pub record IsLaterDispatch (d e : Dispatch) : Type 0 where
  pub job_kept : e.job_id ≡ d.job_id
  pub kind_kept : e.dispatch_kind ≡ d.dispatch_kind
  pub occurrence_kept : e.binding_scheduled_for ≡ d.binding_scheduled_for
  pub source_kept : e.source_run_id ≡ d.source_run_id
  pub artifact_kept : e.handoff_artifact_digest ≡ d.handoff_artifact_digest
  pub source_artifact_kept :
      e.source_run_handoff_artifact_digest ≡ d.source_run_handoff_artifact_digest
  pub attempts_le : d.attempt_count ≤ e.attempt_count
  pub settled_kept : is_settled d.status ≡ true → e.status ≡ d.status
  pub processed_kept : is_settled d.status ≡ true → e.processed_at ≡ d.processed_at

stays : (d : Dispatch) → IsLaterDispatch d d
stays d = ground arith

composes : (d e f : Dispatch) → IsLaterDispatch d e → IsLaterDispatch e f → IsLaterDispatch d f
composes d e f p q = record {
  job_kept = q.job_kept ∙ p.job_kept;
  kind_kept = q.kind_kept ∙ p.kind_kept;
  occurrence_kept = q.occurrence_kept ∙ p.occurrence_kept;
  source_kept = q.source_kept ∙ p.source_kept;
  artifact_kept = q.artifact_kept ∙ p.artifact_kept;
  source_artifact_kept = q.source_artifact_kept ∙ p.source_artifact_kept;
  attempts_le = omega arith;
  settled_kept = λ h. q.settled_kept (still h) ∙ p.settled_kept h;
  processed_kept = λ h. q.processed_kept (still h) ∙ p.processed_kept h;
}
  where
    still : is_settled d.status ≡ true → is_settled e.status ≡ true
    still h = rw (p.settled_kept h) h

later-Moves : (m : Moment) (c : DispatchCall) → Moves IsLaterDispatch m c
later-Moves m (enqueues job_id opts fresh) = tt
later-Moves m (claims id opts fresh) = λ i t d e. ground arith
later-Moves m (renews id opts) = λ i t d e. ground arith
later-Moves m (releases id scheduled_for opts) = λ i text d e. ground arith
later-Moves m (sets id status opts) = λ i s text d e. ground arith
later-Moves m (recovers reason) = λ text d. ground arith
later-Moves m cancels_disabled = λ d. ground arith
later-Moves m (reads_due limit) = (λ text d. ground arith, λ d. ground arith, composes)

All-Moves : (cs : List (Moment × DispatchCall)) → All (λ c. Moves IsLaterDispatch c.0 c.1) cs
All-Moves [] = tt
All-Moves ((m, c) ∷ cs) = (later-Moves m c, All-Moves cs)

pub dispatch_for_ever :
    (id : String) (cs : List (Moment × DispatchCall)) (q : List Dispatch) (d : Dispatch)
    → get_dispatch id q ≡ some d
    → (e : Dispatch) × (get_dispatch id (run_dispatches cs q) ≡ some e) × IsLaterDispatch d e
dispatch_for_ever id cs q d found =
    run-Follows IsLaterDispatch stays composes id cs q (All-Moves cs) d found
