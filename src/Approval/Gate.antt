-- ===== src/Approval/Gate.antt =====
-- What follows the start under an approval: its dispatch or its deferral (approval-state.js).
use openclaw_scheduler.Base.{
  ℕ, ◌+◌, String, Bool, false, not, Option, none, some, if◌then◌else◌, or_else, filled, filled_or,
  datetime, Result, ok,
}
use openclaw_scheduler.Dispatch.Row.{Dispatch, DispatchStatus, is_claimed}
use openclaw_scheduler.Approval.Row.{
  Approval, ApprovalStatus, is_approved, is_dispatching, is_dispatched, normalize_text, max_text,
  get_approval_for_dispatch,
}
use openclaw_scheduler.Approval.Binding.{ApprovalError}
use openclaw_scheduler.Approval.Store.{Store, Env, Reason, Outcome, unchanged}
use openclaw_scheduler.Approval.Effects.{finish_dispatched_approval_run, on_dispatch}
use openclaw_scheduler.Approval.Decide.{after_write, write_approval, written_approval}

abbrev pub is_started : Approval → Bool
is_started a = is_dispatching a.status

abbrev pub mark_row : Option String → ℕ → Approval → Approval
mark_row notes now a = record a {
  status = ApprovalStatus.dispatched;
  dispatched_at = some (datetime now);
  notes = or_else notes a.notes;
  decision_version = a.decision_version + 1;
}

-- markApprovalDispatched
unfoldable pub mark_approval_dispatched :
    Env → String → Option String → Store → Result ApprovalError (Store × Outcome)
unfolding get_approval_for_dispatch normalize_text after_write finish_dispatched_approval_run
mark_approval_dispatched env dispatch_id notes s =
    elim (get_approval_for_dispatch false dispatch_id s.approvals) [
      | none ↦ ok (s, unchanged Reason.not_found none)
      | some a ↦
          if is_dispatched a.status
          then ok (s, unchanged Reason.already_dispatched (some a))
          else if not (is_dispatching a.status)
          then ok (s, unchanged Reason.not_dispatching (some a))
          else let text = normalize_text max_text notes none in
            let f = mark_row text env.now in
            after_write a.id (written_approval a.id is_started f s)
              (write_approval a.id is_started f s)
              λ row.
                finish_dispatched_approval_run env row
                  (filled_or text "Approval gate consumed by a separate execution run")
                  (write_approval a.id is_started f s)
    ]

abbrev pub defer_row : Option String → Approval → Approval
defer_row notes a = record a {
  status = ApprovalStatus.approved;
  notes = or_else notes a.notes;
  decision_version = a.decision_version + 1;
}

abbrev pub is_claimed_row : Dispatch → Bool
is_claimed_row d = is_claimed d.status

abbrev scheduled_or : Option ℕ → ℕ → ℕ
scheduled_or none old = old
scheduled_or (some t) old = t

abbrev pub requeue_row : Option ℕ → Dispatch → Dispatch
requeue_row scheduled_for d = record d {
  status = DispatchStatus.pending;
  scheduled_for = scheduled_or scheduled_for d.scheduled_for;
  claimed_at = none;
  claim_owner = none;
  claim_token = none;
  claim_expires_at = none;
}

-- deferApprovalDispatch
unfoldable pub defer_approval_dispatch :
    String → Option String → Option ℕ → Store → Result ApprovalError (Store × Outcome)
unfolding get_approval_for_dispatch normalize_text after_write
defer_approval_dispatch dispatch_id reason scheduled_for s =
    elim (get_approval_for_dispatch false dispatch_id s.approvals) [
      | none ↦ ok (s, unchanged Reason.not_found none)
      | some a ↦
          if is_approved a.status
          then ok (s, unchanged Reason.already_deferred (some a))
          else if not (is_dispatching a.status)
          then ok (s, unchanged Reason.not_dispatching (some a))
          else let f = defer_row (normalize_text max_text reason none) in
            after_write a.id (written_approval a.id is_started f s)
              (write_approval a.id is_started f s)
              λ row. ok (
                on_dispatch (filled a.dispatch_queue_id) is_claimed_row (requeue_row scheduled_for)
                  (write_approval a.id is_started f s))
    ]
