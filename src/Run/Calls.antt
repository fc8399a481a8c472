-- ===== src/Run/Calls.antt =====
-- Histories of the runs table (run-state.js) beside the leases (runtime-lease.js): any caller may
-- make any call at any time, and a call that throws writes nothing.
use openclaw_scheduler.Base.{
  ℕ, ◌≡◌, refl, String, Bool, true, false, List, [], ◌∷◌, Option, none, some, Result, ok, written,
  written-bind, ◌>>=◌,
}
use openclaw_scheduler.Base.Table.{modify}
use openclaw_scheduler.Base.Table.Follows.{Follows, refl-Follows, trans-Follows, modify-Follows}
use openclaw_scheduler.Base.Table
use openclaw_scheduler.Lease.{Lease, LeaseCall, call_lease, run_calls}
use openclaw_scheduler.Run.Row.{Run, RunStatus, run_key, find_run}
use openclaw_scheduler.Run.Fence.{RunError, FenceOpts, Fence, normalize_fence, assert_run_id}
use openclaw_scheduler.Run.Ops.{
  CleanupState, ProcessInfo, assert_process_info, update_run, with_fence, claim_run_for_dispatch,
  may_claim, claim_run, record_run_credential_cleanup_state, request_run_cancellation,
  cancel_run_before_execution, record_run_process, record_run_process_terminated,
  mark_agent_cancellation_requested,
}
use openclaw_scheduler.Run.Terminal.{
  Fields, transition_run_terminal, transition, assert_terminal, terminate,
}
use openclaw_scheduler.Run.Later.{
  IsLaterRun, IsLaterRun-refl, IsLaterRun-trans, claim-later, cleanup-later, request-later,
  cancel-later, start-later, end-later, agent-later, finish-later,
}

pub data RunCall : Type 0 where
  claims : String → FenceOpts → RunCall
  records_cleanup : String → CleanupState → Bool → FenceOpts → RunCall
  requests_cancel : String → Option String → Option String → RunCall
  cancels : String → Option String → Option String → RunCall
  starts_process : String → ProcessInfo → FenceOpts → RunCall
  ends_process : String → FenceOpts → RunCall
  marks_agent_cancel : String → FenceOpts → RunCall
  finishes : String → RunStatus → Fields → FenceOpts → RunCall

unfoldable pub call_run : ℕ → List Lease → RunCall → List Run → List Run
call_run now leases (claims id opts) runs =
    written runs (claim_run_for_dispatch id opts now leases runs)
call_run now leases (records_cleanup id state late opts) runs =
    written runs (record_run_credential_cleanup_state id state late opts now leases runs)
call_run now leases (requests_cancel id by why) runs =
    written runs (request_run_cancellation id by why now runs)
call_run now leases (cancels id by why) runs =
    written runs (cancel_run_before_execution id by why now runs)
call_run now leases (starts_process id info opts) runs =
    written runs (record_run_process id info opts now leases runs)
call_run now leases (ends_process id opts) runs =
    written runs (record_run_process_terminated id opts now leases runs)
call_run now leases (marks_agent_cancel id opts) runs =
    written runs (mark_agent_cancellation_requested id opts now leases runs)
call_run now leases (finishes id status fields opts) runs =
    written runs (transition_run_terminal id status fields opts now leases runs)

module _ (j : String) (now : ℕ) (leases : List Lease) (runs : List Run) where
  abbrev Kept : List Run → Type 0
  Kept = Follows run_key IsLaterRun j runs

  kept : Kept runs
  kept = refl-Follows run_key IsLaterRun IsLaterRun-refl j runs

  patched :
      (id : String) (guard : Run → Bool) (f : Run → Run)
      → ((r : Run) → run_key (f r) ≡ run_key r)
      → ((r : Run) → IsLaterRun r (Table.patch guard f r))
      → Kept (modify run_key id guard f runs)
  patched id guard f same later =
      modify-Follows run_key IsLaterRun f same IsLaterRun-refl j id guard runs later

  -- Every fenced update checks the run id and normalizes the fence first.
  checks-Kept :
      {A : Type 0} (id : String) (opts : FenceOpts) (required : Bool)
      (k : Option Fence → Result RunError (List Run × A))
      → ((fence : Option Fence) → Kept (written runs (k fence)))
      → Kept (written runs (assert_run_id id >>= λ _. normalize_fence opts required >>= k))
  checks-Kept id opts required k step =
      written-bind Kept runs (assert_run_id id) _ kept
        λ _ _. written-bind Kept runs (normalize_fence opts required) _ kept λ fence _. step fence

  claim-Kept :
      (id : String) (checked : Option Fence)
      → Kept (
          written runs (
            with_fence checked
              λ fence. ok (update_run id (may_claim fence now leases) (claim_run fence now) runs)))
  claim-Kept id none = kept
  claim-Kept id (some fence) = patched id _ _ (λ r. refl) (claim-later now leases fence)

  start-Kept :
      (id : String) (info : ProcessInfo) (opts : FenceOpts)
      → Kept (written runs (record_run_process id info opts now leases runs))
  unfolding record_run_process
  start-Kept id info opts = written-bind Kept runs (assert_run_id id) _ kept λ _ _.
      written-bind Kept runs (assert_process_info info) _ kept λ _ _.
        written-bind Kept runs (normalize_fence opts false) _ kept
          λ fence _. patched id _ _ (λ r. refl) (start-later now leases fence info)

  terminate-Kept :
      (id : String) (status : RunStatus) (fields : Fields) (fence : Option Fence)
      (found : Option Run)
      → Kept (transition id status fields fence now leases runs found).0
  unfolding transition terminate
  terminate-Kept id status fields fence none = kept
  terminate-Kept id status fields fence (some r) =
      patched id _ _ (λ x. refl) (finish-later now leases fence status _ fields)

  finish-Kept :
      (id : String) (status : RunStatus) (fields : Fields) (opts : FenceOpts)
      → Kept (written runs (transition_run_terminal id status fields opts now leases runs))
  unfolding transition_run_terminal
  finish-Kept id status fields opts = written-bind Kept runs (assert_run_id id) _ kept λ _ _.
      written-bind Kept runs (assert_terminal status) _ kept λ _ _.
        written-bind Kept runs (normalize_fence opts false) _ kept
          λ fence _. terminate-Kept id status fields fence (find_run id runs)

  call-Kept : (c : RunCall) → Kept (call_run now leases c runs)
  unfolding call_run claim_run_for_dispatch record_run_credential_cleanup_state
      request_run_cancellation cancel_run_before_execution record_run_process_terminated
      mark_agent_cancellation_requested
  call-Kept (claims id opts) = checks-Kept id opts true _ (claim-Kept id)
  call-Kept (records_cleanup id state late opts) =
      checks-Kept id opts true _
        λ fence. patched id _ _ (λ r. refl) (cleanup-later now leases fence _ _)
  call-Kept (requests_cancel id by why) =
      written-bind Kept runs (assert_run_id id) _ kept
        λ _ _. patched id _ _ (λ r. refl) (request-later now leases _ _)
  call-Kept (cancels id by why) =
      written-bind Kept runs (assert_run_id id) _ kept
        λ _ _. patched id _ _ (λ r. refl) (cancel-later now leases _ _)
  call-Kept (starts_process id info opts) = start-Kept id info opts
  call-Kept (ends_process id opts) =
      checks-Kept id opts false _ λ fence. patched id _ _ (λ r. refl) (end-later now leases fence)
  call-Kept (marks_agent_cancel id opts) =
      checks-Kept id opts false _ λ fence. patched id _ _ (λ r. refl) (agent-later now leases fence)
  call-Kept (finishes id status fields opts) = finish-Kept id status fields opts

-- Both tables under a history of calls.
pub data Event : Type 0 where
  lease_call : LeaseCall → Event
  run_call : RunCall → Event

pub record Store : Type 0 where
  pub leases : List Lease
  pub runs : List Run

unfoldable pub step : ℕ × Event → Store → Store
step (now, lease_call c) s = record s { leases = call_lease (now, c) s.leases }
step (now, run_call c) s = record s { runs = call_run now s.leases c s.runs }

unfoldable pub run_events : List (ℕ × Event) → Store → Store
run_events [] s = s
run_events (e ∷ es) s = run_events es (step e s)

step-Follows :
    (j : String) (e : ℕ × Event) (s : Store) → Follows run_key IsLaterRun j s.runs (step e s).runs
unfolding step
step-Follows j (now, lease_call c) s = kept j now s.leases s.runs
step-Follows j (now, run_call c) s = call-Kept j now s.leases s.runs c

-- Whatever happens to the two tables, no run is lost and every run moves by `IsLaterRun`.
pub run_events-Follows :
    (j : String) (es : List (ℕ × Event)) (s : Store)
    → Follows run_key IsLaterRun j s.runs (run_events es s).runs
unfolding run_events
run_events-Follows j [] s = kept j 0 s.leases s.runs
run_events-Follows j (e ∷ es) s =
    trans-Follows run_key IsLaterRun IsLaterRun-trans j s.runs (step e s).runs
      (run_events es (step e s)).runs (step-Follows j e s) (run_events-Follows j es (step e s))

-- The leases move as under the lease calls alone.
pub lease_history : List (ℕ × Event) → List (ℕ × LeaseCall)
lease_history [] = []
lease_history ((now, lease_call c) ∷ es) = (now, c) ∷ lease_history es
lease_history ((now, run_call c) ∷ es) = lease_history es

pub leases-run_events :
    (es : List (ℕ × Event)) (s : Store)
    → (run_events es s).leases ≡ run_calls (lease_history es) s.leases
unfolding run_events step lease_history run_calls
leases-run_events [] s = refl
leases-run_events ((now, lease_call c) ∷ es) s = leases-run_events es _
leases-run_events ((now, run_call c) ∷ es) s = leases-run_events es _
