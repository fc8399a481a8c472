-- ===== src/Run/Histories.antt =====
-- What holds of a run over every history of calls of run-state.js and of calls on the dispatcher's
-- lease. The calls that ask for an approval of a run and grant it (approval.js, approval-state.js)
-- are not among them.
use openclaw_scheduler.Base.{ℕ, ◌≡◌, ◌⊎◌, String, false, List, some}
use openclaw_scheduler.Run.Row.{Run, RunStatus, is_active, find_run}
use openclaw_scheduler.Run.Calls.{Event, Store, run_events, run_events-Follows}

-- A run that has ended keeps its status, its end, its duration and its transition stamp, whatever
-- calls follow: in particular it is never ended a second time.
pub ended_for_ever :
    (id : String) (es : List (ℕ × Event)) (s : Store) (r : Run)
    → find_run id s.runs ≡ some r
    → is_active r.status ≡ false
    → (r' : Run) × (find_run id (run_events es s).runs ≡ some r')
      × (r'.status ≡ r.status)
      × (r'.finished_at ≡ r.finished_at)
      × (r'.duration_ms ≡ r.duration_ms)
      × (r'.terminal_transition_at ≡ r.terminal_transition_at)
ended_for_ever id es s r e h =
    let (r', found, later) = run_events-Follows id es s r e in
    (
      r',
      found,
      later.terminal_kept h,
      later.finished_kept h,
      later.duration_kept h,
      later.transition_kept h,
    )

-- Once a cancellation is requested, run-state.js keeps to it: after any calls of that module and any
-- calls on the lease, the request keeps its time, the run has the status it had or is cancelled, and
-- the recorded process is the one it had. The calls are only these: that a run is gated behind an
-- approval, or is finished as approved, is not one of them.
pub cancellation_binds :
    (id : String) (es : List (ℕ × Event)) (s : Store) (r : Run) (t : ℕ)
    → find_run id s.runs ≡ some r
    → r.cancel_requested_at ≡ some t
    → (r' : Run) × (find_run id (run_events es s).runs ≡ some r')
      × (r'.cancel_requested_at ≡ some t)
      × ((r'.status ≡ r.status) ⊎ (r'.status ≡ RunStatus.cancelled))
      × (r'.process_pid ≡ r.process_pid)
cancellation_binds id es s r t e h =
    let (r', found, later) = run_events-Follows id es s r e in
    (r', found, later.cancel_kept t h, later.cancel_wins t h, later.process_kept t h)

-- No call of run-state.js and no call on the lease hands a run that a dispatcher has claimed to
-- another: after any of them, owner and token are the same. That a run is gated behind an approval,
-- which clears both, is not one of these calls.
pub owner_for_ever :
    (id : String) (es : List (ℕ × Event)) (s : Store) (r : Run) (owner : String) (token : ℕ)
    → find_run id s.runs ≡ some r
    → r.dispatcher_owner ≡ some owner
    → r.dispatcher_token ≡ some token
    → (r' : Run) × (find_run id (run_events es s).runs ≡ some r')
      × (r'.dispatcher_owner ≡ some owner)
      × (r'.dispatcher_token ≡ some token)
owner_for_ever id es s r owner token e o n =
    let (r', found, later) = run_events-Follows id es s r e in
    (r', found, later.owner_kept owner o, later.token_kept token n)
