-- ===== src/Run/Later.antt =====
-- What one update of run-state.js may make of a run row.
use openclaw_scheduler.Base.{
  ℕ, ◌≡◌, ◌∙◌, ◌⊎◌, String, Bool, true, false, List, Option, some, arith, holds_text_iff,
  holds_num_iff,
}
use openclaw_scheduler.Base.Table.{patch}
use openclaw_scheduler.Lease.{Lease}
use openclaw_scheduler.Run.Row.{Run, RunStatus, Cleanup, is_active}
use openclaw_scheduler.Run.Fence.{Fence, is_owned_by, fence_sql}
use openclaw_scheduler.Run.Ops.{
  ProcessInfo, is_active_run, may_claim, claim_run, may_write, write_cleanup, request_cancel,
  not_started, cancel_row, may_start, start_process, end_process, request_agent_cancel,
}
use openclaw_scheduler.Run.Terminal.{Fields, finish_row}

-- Where the run stood with its end, its owner and its cancellation.
pub record IsLaterRun (r s : Run) : Type 0 where
  pub terminal_kept : is_active r.status ≡ false → s.status ≡ r.status
  pub finished_kept : is_active r.status ≡ false → s.finished_at ≡ r.finished_at
  pub duration_kept : is_active r.status ≡ false → s.duration_ms ≡ r.duration_ms
  pub transition_kept :
      is_active r.status ≡ false → s.terminal_transition_at ≡ r.terminal_transition_at
  pub owner_kept : (o : String) → r.dispatcher_owner ≡ some o → s.dispatcher_owner ≡ some o
  pub token_kept : (n : ℕ) → r.dispatcher_token ≡ some n → s.dispatcher_token ≡ some n
  pub cancel_kept : (t : ℕ) → r.cancel_requested_at ≡ some t → s.cancel_requested_at ≡ some t
  pub cancel_wins :
      (t : ℕ)
      → r.cancel_requested_at ≡ some t
      → (s.status ≡ r.status) ⊎ (s.status ≡ RunStatus.cancelled)
  pub process_kept : (t : ℕ) → r.cancel_requested_at ≡ some t → s.process_pid ≡ r.process_pid

pub IsLaterRun-refl : (r : Run) → IsLaterRun r r
IsLaterRun-refl r = ground arith

pub IsLaterRun-trans : (r s u : Run) → IsLaterRun r s → IsLaterRun s u → IsLaterRun r u
IsLaterRun-trans r s u p q = record {
  terminal_kept = λ h. q.terminal_kept (still h) ∙ p.terminal_kept h;
  finished_kept = λ h. q.finished_kept (still h) ∙ p.finished_kept h;
  duration_kept = λ h. q.duration_kept (still h) ∙ p.duration_kept h;
  transition_kept = λ h. q.transition_kept (still h) ∙ p.transition_kept h;
  owner_kept = λ o e. q.owner_kept o (p.owner_kept o e);
  token_kept = λ n e. q.token_kept n (p.token_kept n e);
  cancel_kept = λ t e. q.cancel_kept t (p.cancel_kept t e);
  cancel_wins = λ t e. wins (p.cancel_wins t e) (q.cancel_wins t (p.cancel_kept t e));
  process_kept = λ t e. q.process_kept t (p.cancel_kept t e) ∙ p.process_kept t e;
}
  where
    still : is_active r.status ≡ false → is_active s.status ≡ false
    still h = rw (p.terminal_kept h) h

    wins :
        (s.status ≡ r.status) ⊎ (s.status ≡ RunStatus.cancelled)
        → (u.status ≡ s.status) ⊎ (u.status ≡ RunStatus.cancelled)
        → (u.status ≡ r.status) ⊎ (u.status ≡ RunStatus.cancelled)
    wins a b = ground arith

module _ (now : ℕ) (leases : List Lease) where
  pub claim-later :
      (fence : Fence) (r : Run)
      → IsLaterRun r (patch (may_claim fence now leases) (claim_run fence now) r)
  unfolding is_owned_by
  claim-later fence r = ground (
    arith,
    holds_text_iff r.dispatcher_owner fence.owner_id,
    holds_num_iff r.dispatcher_token fence.fencing_token,
  )

  pub cleanup-later :
      (fence : Option Fence) (live : Bool) (c : Cleanup) (r : Run)
      → IsLaterRun r (patch (may_write fence live now leases) (write_cleanup c) r)
  cleanup-later fence live c r = ground arith

  pub request-later :
      (by why : String) (r : Run) → IsLaterRun r (patch is_active_run (request_cancel by why now) r)
  request-later by why r = ground arith

  pub cancel-later :
      (by why : String) (r : Run) → IsLaterRun r (patch not_started (cancel_row by why now) r)
  cancel-later by why r = ground arith

  pub start-later :
      (fence : Option Fence) (info : ProcessInfo) (r : Run)
      → IsLaterRun r (patch (may_start fence now leases) (start_process info now) r)
  start-later fence info r = ground arith

  pub end-later :
      (fence : Option Fence) (r : Run)
      → IsLaterRun r (patch (fence_sql fence false now leases) (end_process now) r)
  end-later fence r = ground arith

  pub agent-later :
      (fence : Option Fence) (r : Run)
      → IsLaterRun r (patch (may_write fence true now leases) (request_agent_cancel now) r)
  agent-later fence r = ground arith

  pub finish-later :
      (fence : Option Fence) (status : RunStatus) (ms : ℕ) (fields : Fields) (r : Run)
      → IsLaterRun r (patch (may_write fence true now leases) (finish_row status ms fields now) r)
  finish-later fence status ms fields r = ground arith
