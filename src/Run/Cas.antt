-- ===== src/Run/Cas.antt =====
-- The terminal transition as a compare-and-swap under a fence (transitionRunTerminal of
-- run-state.js), and what a dispatcher that lost its lease can still do.
use openclaw_scheduler.Base.{
  ℕ, ◌≡◌, ◌≢◌, is_some, none, inl, inr, refl, String, false, true, List, some, arith, ok, ◌&&◌,
  is_blank, datetime, Bool-cases,
}
use openclaw_scheduler.Base.Table.{modify, find-modify, find-modify_ne, refused, accepted}
use openclaw_scheduler.Lease.{Lease}
use openclaw_scheduler.Run.Row.{Run, RunStatus, is_active, is_terminal, run_key, find_run}
use openclaw_scheduler.Run.Fence.{
  Fence, FenceOpts, normalize_fence, is_owned_by, is_fence_live, fence_sql, assert_run_id,
}
use openclaw_scheduler.Run.Ops.{may_write}
use openclaw_scheduler.Run.Terminal.{
  Fields, Transition, finish_row, assert_terminal, terminate, transition, transition_run_terminal,
  duration,
}

module _ (id : String) (status : RunStatus) (fields : Fields) (fence : Fence) (now : ℕ)
    (leases : List Lease) (runs : List Run) (r : Run) (found : find_run id runs ≡ some r) where
  abbrev finish : Run → Run
  finish = finish_row status (duration fields.duration_ms r.started_at now) fields now

  -- The run is written, to the row that the transition reports.
  terminate-accepted :
      is_active r.status ≡ true
      → is_owned_by fence r ≡ true
      → is_fence_live fence now leases ≡ true
      → (rows : List Run) × (terminate id status fields (some fence) now leases runs r
          ≡ (rows, record { changed = true; run = some (finish r); fenced = false }))
        × (find_run id rows ≡ some (finish r))
        × ((j : String) → j ≢ id → find_run j rows ≡ find_run j runs)
  unfolding terminate fence_sql
  terminate-accepted active owned live =
      let guarded : may_write (some fence) true now leases r ≡ true = ground arith in
      let row =
        accepted run_key finish id (may_write (some fence) true now leases) runs r found guarded in
      (
        modify run_key id (may_write (some fence) true now leases) finish runs,
        rw row,
        rw (find-modify run_key finish (λ x. refl) id (may_write (some fence) true now leases) runs)
            (rw found (ground arith)),
        λ j other.
            find-modify_ne run_key finish (λ x. refl) j id (may_write (some fence) true now leases)
              runs other,
      )

  -- The run is left alone, and the report says whether it had ended or is fenced off.
  terminate-refused :
      (is_active r.status && is_owned_by fence r && is_fence_live fence now leases) ≡ false
      → terminate id status fields (some fence) now leases runs r
        ≡ (runs, record { changed = false; run = some r; fenced = is_active r.status })
  unfolding terminate fence_sql
  terminate-refused barred =
      let guarded : may_write (some fence) true now leases r ≡ false = ground arith in
      let kept =
        refused run_key finish id (may_write (some fence) true now leases) runs r found guarded in
      rw (kept.0, kept.1) (rw found (ground arith))

-- What a fenced transition makes of the run `r`: the rows that it leaves, and its report.
pub data Verdict (id : String) (status : RunStatus) (fence : Fence) (now : ℕ) (leases : List Lease)
    (runs : List Run) (r : Run) (rows : List Run) (t : Transition) : Type 0 where
  finished :
      (s : Run)
      → is_active r.status ≡ true
      → is_owned_by fence r ≡ true
      → is_fence_live fence now leases ≡ true
      → find_run id rows ≡ some s
      → (r.cancel_requested_at ≡ none → s.status ≡ status)
      → (is_some r.cancel_requested_at ≡ true → s.status ≡ RunStatus.cancelled)
      → s.finished_at ≡ some (datetime now)
      → ((j : String) → j ≢ id → find_run j rows ≡ find_run j runs)
      → t ≡ record { changed = true; run = some s; fenced = false }
      → Verdict id status fence now leases runs r rows t
  fenced_off :
      is_active r.status ≡ true
      → (is_owned_by fence r && is_fence_live fence now leases) ≡ false
      → rows ≡ runs
      → t ≡ record { changed = false; run = some r; fenced = true }
      → Verdict id status fence now leases runs r rows t
  ended :
      is_active r.status ≡ false
      → rows ≡ runs
      → t ≡ record { changed = false; run = some r; fenced = false }
      → Verdict id status fence now leases runs r rows t

terminate-Verdict :
    (id : String) (status : RunStatus) (fields : Fields) (fence : Fence) (now : ℕ)
    (leases : List Lease) (runs : List Run) (r : Run)
    → find_run id runs ≡ some r
    → let (rows, t) = terminate id status fields (some fence) now leases runs r in
      Verdict id status fence now leases runs r rows t
terminate-Verdict id status fields fence now leases runs r found =
    elim (Bool-cases (is_active r.status)) [
      | inr over ↦
          let kept =
            terminate-refused id status fields fence now leases runs r found (ground arith) in
          rw kept (ended over refl (ground arith))
      | inl active ↦ elim (Bool-cases (is_owned_by fence r && is_fence_live fence now leases)) [
        | inr off ↦
            let kept =
              terminate-refused id status fields fence now leases runs r found (ground arith) in
            rw kept (fenced_off active off refl (ground arith))
        | inl held ↦
            let (rows, written, row, others) =
              terminate-accepted id status fields fence now leases runs r found active
                (ground arith) (ground arith) in
            rw written (
              finished (finish id status fields fence now leases runs r found r) active
                (ground arith) (ground arith) row (λ e. ground arith) (λ e. ground arith) refl
                others refl)
      ]
    ]

-- With valid arguments and a fence, exactly one of three things happens to a run that is there.
-- If it is active, owned by the fence, and the fence's lease is live, it is written: the new status
-- is the requested one, or `cancelled` if a cancellation was requested, and every other run is as
-- it was. If it is active but the
-- fence does not hold, nothing is written and the call reports `fenced`. If it has ended, nothing
-- is written and the call reports neither.
pub transition_outcome :
    (id : String) (status : RunStatus) (fields : Fields) (opts : FenceOpts) (fence : Fence)
    (now : ℕ) (leases : List Lease) (runs : List Run) (r : Run)
    → is_blank id ≡ false
    → is_terminal status ≡ true
    → normalize_fence opts false ≡ ok (some fence)
    → find_run id runs ≡ some r
    → (rows : List Run) × (t : Transition) × (transition_run_terminal id status fields opts now
          leases runs
        ≡ ok (rows, t))
      × Verdict id status fence now leases runs r rows t
unfolding transition_run_terminal transition assert_terminal assert_run_id
transition_outcome id status fields opts fence now leases runs r named ends fenced found =
    let result = terminate id status fields (some fence) now leases runs r in
    (
      result.0,
      result.1,
      ground (arith, found),
      terminate-Verdict id status fields fence now leases runs r found,
    )
