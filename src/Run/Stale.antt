-- ===== src/Run/Stale.antt =====
-- A dispatcher whose lease was taken over can no longer write to any run: runtime-lease.js and
-- run-state.js together.
use openclaw_scheduler.Base.{
  ℕ, ◌<◌, ◌≡◌, refl, String, Bool, true, false, List, Option, none, some, arith, ok, written-bind,
}
use openclaw_scheduler.Base.Table.{modify-false}
use openclaw_scheduler.Lease.{Lease, find_lease, is_held}
use openclaw_scheduler.Lease.Fencing.{token_names_holder}
use openclaw_scheduler.Run.Row.{Run, RunStatus, run_key, find_run}
use openclaw_scheduler.Run.Fence.{
  Fence, FenceOpts, normalize_fence, is_fence_live, fence_sql, assert_run_id,
}
use openclaw_scheduler.Run.Ops.{
  CleanupState, ProcessInfo, assert_process_info, update_run, claim_run_for_dispatch,
  record_run_process, mark_agent_cancellation_requested, record_run_credential_cleanup_state,
}
use openclaw_scheduler.Run.Terminal.{
  Fields, assert_terminal, terminate, transition, transition_run_terminal,
}
use openclaw_scheduler.Run.Calls.{
  RunCall, claims, records_cleanup, starts_process, marks_agent_cancel, finishes, call_run, Event,
  Store, run_events, lease_history, leases-run_events,
}

-- The calls that a dispatcher makes under its fence and that need a live lease.
pub data IsFenced (opts : FenceOpts) : RunCall → Type 0 where
  by_claim : (id : String) → IsFenced opts (claims id opts)
  by_cleanup : (id : String) (s : CleanupState) → IsFenced opts (records_cleanup id s false opts)
  by_start : (id : String) (info : ProcessInfo) → IsFenced opts (starts_process id info opts)
  by_mark : (id : String) → IsFenced opts (marks_agent_cancel id opts)
  by_finish :
      (id : String) (status : RunStatus) (fields : Fields)
      → IsFenced opts (finishes id status fields opts)

module _ (opts : FenceOpts) (fence : Fence) (now : ℕ) (leases : List Lease) (runs : List Run)
    (strict : normalize_fence opts true ≡ ok (some fence))
    (lax : normalize_fence opts false ≡ ok (some fence))
    (dead : is_fence_live fence now leases ≡ false) where
  abbrev Same : List Run → Type 0
  Same rows = rows ≡ runs

  fenced_sql : (r : Run) → fence_sql (some fence) true now leases r ≡ false
  unfolding fence_sql
  fenced_sql r = ground arith

  unwritten :
      (id : String) (guard : Run → Bool) (f : Run → Run)
      → ((r : Run) → guard r ≡ false)
      → (update_run id guard f runs).0 ≡ runs
  unwritten id guard f barred = modify-false run_key f id guard runs barred

  terminate-unwritten :
      (id : String) (status : RunStatus) (fields : Fields) (o : Option Run)
      → (transition id status fields (some fence) now leases runs o).0 ≡ runs
  unfolding transition terminate
  terminate-unwritten id status fields none = refl
  terminate-unwritten id status fields (some r) =
      unwritten id _ _ (λ x. ground (arith, fenced_sql x))

  fenced_call-unwritten : (c : RunCall) → IsFenced opts c → call_run now leases c runs ≡ runs
  unfolding call_run claim_run_for_dispatch record_run_credential_cleanup_state record_run_process
      mark_agent_cancellation_requested transition_run_terminal
  fenced_call-unwritten c (by_claim id) =
      written-bind Same runs (assert_run_id id) _ refl
        λ _ _. rw strict (unwritten id _ _ (λ x. ground (arith, dead)))
  fenced_call-unwritten c (by_cleanup id s) =
      written-bind Same runs (assert_run_id id) _ refl
        λ _ _. rw strict (unwritten id _ _ (λ x. ground (arith, fenced_sql x)))
  fenced_call-unwritten c (by_start id info) =
      written-bind Same runs (assert_run_id id) _ refl λ _ _.
        written-bind Same runs (assert_process_info info) _ refl
          λ _ _. rw lax (unwritten id _ _ (λ x. ground (arith, fenced_sql x)))
  fenced_call-unwritten c (by_mark id) =
      written-bind Same runs (assert_run_id id) _ refl
        λ _ _. rw lax (unwritten id _ _ (λ x. ground (arith, fenced_sql x)))
  fenced_call-unwritten c (by_finish id status fields) =
      written-bind Same runs (assert_run_id id) _ refl λ _ _.
        written-bind Same runs (assert_terminal status) _ refl
          λ _ _. rw lax (terminate-unwritten id status fields (find_run id runs))

-- A token below the one that the lease row carries is not live, at any later time.
past_token-dead :
    (fence : Fence) (now : ℕ) (es : List (ℕ × Event)) (s : Store) (l : Lease)
    → find_lease fence.lease_name s.leases ≡ some l
    → fence.fencing_token < l.fencing_token
    → is_fence_live fence now (run_events es s).leases ≡ false
unfolding is_held
past_token-dead fence now es s l found past =
    let (m, later, above, _) =
      token_names_holder fence.lease_name (lease_history es) s.leases l found in
    rw (leases-run_events es s) (ground (arith, later))

-- Once the lease row has moved past a dispatcher's token, the calls that it makes under its fence
-- and that need a live lease write nothing to the runs table any more: after any further history,
-- it claims no run, records no process, no agent cancellation and, unless it asks for the write
-- that is allowed after a lease loss, no cleanup, and it ends no run.
pub stale_dispatcher_writes_nothing :
    (opts : FenceOpts) (fence : Fence) (now : ℕ) (es : List (ℕ × Event)) (s : Store) (l : Lease)
    (c : RunCall)
    → normalize_fence opts true ≡ ok (some fence)
    → normalize_fence opts false ≡ ok (some fence)
    → find_lease fence.lease_name s.leases ≡ some l
    → fence.fencing_token < l.fencing_token
    → IsFenced opts c
    → let s' = run_events es s in call_run now s'.leases c s'.runs ≡ s'.runs
stale_dispatcher_writes_nothing opts fence now es s l c strict lax found past fenced =
    fenced_call-unwritten opts fence now (run_events es s).leases (run_events es s).runs strict lax
      (past_token-dead fence now es s l found past) c fenced
