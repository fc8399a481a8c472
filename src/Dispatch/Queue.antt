-- ===== src/Dispatch/Queue.antt =====
-- Recovery, cancellation and the selection of due work (dispatch-queue.js).
use openclaw_scheduler.Base.{
  ℕ, String, Bool, false, not, ◌&&◌, ◌||◌, List, [], ◌∷◌, Option, none, some, ◌==◌, ltb, leb,
  if◌then◌else◌, or_else, holds_text, trimmed_or, datetime, Result, ok, guard, ◌>>◌, keep, any_of,
  take, count_of,
}
use openclaw_scheduler.Base.Table.{update_where}
use openclaw_scheduler.Run.Row.{Run, is_active}
use openclaw_scheduler.Job.Row.{Job, find_job, has_enabled}
use openclaw_scheduler.Dispatch.Row.{Dispatch, DispatchStatus, is_pending, is_claimed}
use openclaw_scheduler.Dispatch.Claim.{DispatchError, bad_limit}

-- EXISTS (SELECT 1 FROM runs r WHERE r.dispatch_queue_id = q.id AND r.status IN …)
unfoldable pub has_active_run : List Run → Dispatch → Bool
has_active_run runs d = any_of (λ r. holds_text r.dispatch_queue_id d.id && is_active r.status) runs

-- `claim_expires_at IS NOT NULL AND julianday(claim_expires_at) <= julianday('now')`
abbrev pub is_expired : ℕ → Option ℕ → Bool
is_expired now none = false
is_expired now (some t) = leb t now

abbrev pub is_stale_claim : ℕ → List Run → Dispatch → Bool
is_stale_claim now runs d =
    is_claimed d.status && is_expired now d.claim_expires_at && not (has_active_run runs d)

abbrev pub recover_row : String → Dispatch → Dispatch
recover_row reason d = record d {
  status = DispatchStatus.pending;
  claimed_at = none;
  claim_owner = none;
  claim_token = none;
  claim_expires_at = none;
  last_error = or_else d.last_error (some reason);
}

-- The rows, and how many were recovered.
unfoldable pub recover_stale_dispatch_claims :
    Option String → ℕ → List Run → List Dispatch → List Dispatch × ℕ
recover_stale_dispatch_claims reason now runs q =
    let text = trimmed_or reason "Recovered expired dispatch claim" in
    (
      update_where (is_stale_claim now runs) (recover_row text) q,
      count_of (is_stale_claim now runs) q,
    )

-- EXISTS (SELECT 1 FROM jobs j WHERE j.id = … AND j.enabled = 0)
unfoldable pub has_disabled : String → List Job → Bool
has_disabled id jobs = elim (find_job id jobs) [ none ↦ false | some j ↦ not j.enabled ]

abbrev pub is_orphan : List Job → Dispatch → Bool
is_orphan jobs d = is_pending d.status && has_disabled d.job_id jobs

abbrev pub cancel_row : ℕ → Dispatch → Dispatch
cancel_row now d = record d {
  status = DispatchStatus.cancelled;
  processed_at = or_else d.processed_at (some (datetime now));
  claim_expires_at = none;
  last_error = or_else d.last_error (some "Job disabled before dispatch");
}

unfoldable pub cancel_disabled_dispatches : ℕ → List Job → List Dispatch → List Dispatch × ℕ
cancel_disabled_dispatches now jobs q =
    (update_where (is_orphan jobs) (cancel_row now) q, count_of (is_orphan jobs) q)

-- `q.status = 'pending' AND q.scheduled_for <= datetime('now') AND j.enabled = 1`
abbrev pub is_due : ℕ → List Job → Dispatch → Bool
is_due now jobs d =
    is_pending d.status && leb d.scheduled_for (datetime now) && has_enabled d.job_id jobs

-- ORDER BY scheduled_for ASC, created_at ASC
unfoldable pub comes_before : Dispatch → Dispatch → Bool
comes_before a b =
    ltb a.scheduled_for b.scheduled_for
    || (a.scheduled_for == b.scheduled_for && leb a.created_at b.created_at)

unfoldable pub insert_due : Dispatch → List Dispatch → List Dispatch
insert_due d [] = d ∷ []
insert_due d (x ∷ xs) =
    let rest = insert_due d xs in if comes_before d x then d ∷ x ∷ xs else x ∷ rest

unfoldable pub sort_due : List Dispatch → List Dispatch
unfolding insert_due
sort_due [] = []
sort_due (d ∷ ds) = insert_due d (sort_due ds)

-- What stands in the queue when the due rows are read.
unfoldable pub swept : ℕ → List Run → List Job → List Dispatch → List Dispatch
unfolding recover_stale_dispatch_claims cancel_disabled_dispatches
swept now runs jobs q =
    (cancel_disabled_dispatches now jobs (recover_stale_dispatch_claims none now runs q).0).0

unfoldable pub assert_limit : ℕ → Result DispatchError (Unit {0})
assert_limit limit = guard (not (limit == 0)) bad_limit

unfoldable pub get_due_dispatches :
    ℕ
    → ℕ
    → List Run
    → List Job
    → List Dispatch
    → Result DispatchError (List Dispatch × List Dispatch)
unfolding swept sort_due
get_due_dispatches limit now runs jobs q = do
  assert_limit limit
  let rows = swept now runs jobs q
  ok (rows, take limit (sort_due (keep (is_due now jobs) rows)))

-- ORDER BY created_at DESC
unfoldable pub insert_newest : Dispatch → List Dispatch → List Dispatch
insert_newest d [] = d ∷ []
insert_newest d (x ∷ xs) =
    let rest = insert_newest d xs in if leb x.created_at d.created_at then d ∷ x ∷ xs else x ∷ rest

unfoldable pub sort_newest : List Dispatch → List Dispatch
unfolding insert_newest
sort_newest [] = []
sort_newest (d ∷ ds) = insert_newest d (sort_newest ds)

unfoldable pub list_dispatches_for_job : String → ℕ → List Dispatch → List Dispatch
unfolding sort_newest
list_dispatches_for_job job_id limit q =
    take limit (sort_newest (keep (λ d. holds_text (some d.job_id) job_id) q))
