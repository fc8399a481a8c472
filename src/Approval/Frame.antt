-- ===== src/Approval/Frame.antt =====
-- The effects of a decision leave the approvals alone (approval-state.js).
use openclaw_scheduler.Base.{
  ℕ, ◌≡◌, refl, String, Bool, Option, none, some, inl, inr, filled, Bool-cases, Option-cases,
  Result, ok, >>=-eq-ok, arith,
}
use openclaw_scheduler.Job.Row.{Job}
use openclaw_scheduler.Dispatch.Row.{Dispatch}
use openclaw_scheduler.Run.Row.{Run}
use openclaw_scheduler.Approval.Row.{Approval, ApprovalStatus, is_approved, text_or}
use openclaw_scheduler.Approval.Binding.{ApprovalError}
use openclaw_scheduler.Approval.Store.{
  Store, Env, can_settle, job_of, quarantine_reason, quarantine_run_recovery,
}
use openclaw_scheduler.Approval.Effects.{
  can_cancel_run, cancel_run, can_skip_run, skip_run, end_run, quarantined_or, can_release,
  release_row, cancel_row, finish_approval_run, finish_dispatched_approval_run,
  release_approval_dispatch, cancel_approval_dispatch, consume_approval_occurrence, on_dispatch,
}
use openclaw_scheduler.Approval.Decide.{settle}

-- The approvals of one store are those of another.
abbrev pub SameApprovals : Store → Store → Type 0
SameApprovals s t = t.approvals ≡ s.approvals

pub on_dispatch-SameApprovals :
    (id : Option String) (guarded : Dispatch → Bool) (f : Dispatch → Dispatch) (s : Store)
    → SameApprovals s (on_dispatch id guarded f s)
on_dispatch-SameApprovals none guarded f s = refl
on_dispatch-SameApprovals (some id) guarded f s = refl

quarantine-SameApprovals :
    (run_id reason : String) (now : ℕ) (s : Store)
    → SameApprovals s (quarantine_run_recovery run_id reason now s)
unfolding quarantine_run_recovery
quarantine-SameApprovals run_id reason now s = ground arith

end_run-SameApprovals :
    (env : Env) (job : Option Job) (run_id : String) (guarded : Run → Bool) (f : Run → Run)
    (s : Store) {t : Store}
    → end_run env job run_id guarded f s ≡ ok t
    → SameApprovals s t
unfolding end_run
end_run-SameApprovals env job run_id guarded f s e = ground arith

quarantined_or-SameApprovals :
    (job : Option Job) (run_id intended message : String) (now : ℕ) (s : Store)
    (otherwise : Result ApprovalError Store) {t : Store}
    → (otherwise ≡ ok t → SameApprovals s t)
    → quarantined_or job run_id intended message now s otherwise ≡ ok t
    → SameApprovals s t
unfolding quarantined_or
quarantined_or-SameApprovals job run_id intended message now s otherwise kept e =
    ground (arith, quarantine-SameApprovals run_id (quarantine_reason intended message) now s)

pub finish-SameApprovals :
    (env : Env) (a : Approval) (status : ApprovalStatus) (message : String) (s : Store) {t : Store}
    → finish_approval_run env a status message s ≡ ok t
    → SameApprovals s t
unfolding finish_approval_run
finish-SameApprovals env a status message s {t} e = elim (Option-cases (filled a.run_id)) [
  | inl absent ↦ ground arith
  | inr (run_id, present) ↦ elim (Bool-cases (is_approved status)) [
    | inl granted ↦ ground arith
    | inr withheld ↦
        let body = end_run env (job_of a s) run_id can_cancel_run (cancel_run message env.now) s in
        quarantined_or-SameApprovals (job_of a s) run_id "cancelled" message env.now s body {t = t}
          (end_run-SameApprovals env (job_of a s) run_id _ _ s) (ground arith)
  ]
]

pub finish_dispatched-SameApprovals :
    (env : Env) (a : Approval) (message : String) (s : Store) {t : Store}
    → finish_dispatched_approval_run env a message s ≡ ok t
    → SameApprovals s t
unfolding finish_dispatched_approval_run
finish_dispatched-SameApprovals env a message s {t} e = elim (Option-cases (filled a.run_id)) [
  | inl absent ↦ ground arith
  | inr (run_id, present) ↦
      let summary = text_or (some message) "Approval gate consumed by a separate execution run" in
      let body = end_run env (job_of a s) run_id can_skip_run (skip_run summary env.now) s in
      quarantined_or-SameApprovals (job_of a s) run_id "skipped" summary env.now s body {t = t}
        (end_run-SameApprovals env (job_of a s) run_id _ _ s) (ground arith)
]

consume-SameApprovals :
    (env : Env) (job : Option Job) (dispatch : Option Dispatch) (s : Store)
    → SameApprovals s (consume_approval_occurrence env job dispatch s)
unfolding consume_approval_occurrence
consume-SameApprovals env none none s = refl
consume-SameApprovals env none (some d) s = refl
consume-SameApprovals env (some j) none s = refl
consume-SameApprovals env (some j) (some d) s = ground arith

pub settle-SameApprovals :
    (env : Env) (a : Approval) (status : ApprovalStatus) (reason : String) (job : Option Job)
    (dispatch : Option Dispatch) (s : Store) {t : Store}
    → settle env a status reason job dispatch s ≡ ok t
    → SameApprovals s t
unfolding settle release_approval_dispatch cancel_approval_dispatch
settle-SameApprovals env a status reason job dispatch s e =
    let (u, finished, rest) = >>=-eq-ok (finish_approval_run env a status reason s) _ e in
    let cancelled =
      on_dispatch (filled a.dispatch_queue_id) can_settle (cancel_row reason env.now) u in
    ground (
      arith,
      finish-SameApprovals env a status reason s finished,
      on_dispatch-SameApprovals (filled a.dispatch_queue_id) can_release (release_row env.now) u,
      on_dispatch-SameApprovals (filled a.dispatch_queue_id) can_settle (cancel_row reason env.now)
          u,
      consume-SameApprovals env job dispatch cancelled,
    )
