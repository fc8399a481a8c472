-- ===== src/Approval/Withdrawn.antt =====
-- The dispatch of an approval that is not granted (approval-state.js, dispatch-queue.js).
use openclaw_scheduler.Base.{
  ℕ, ◌≡◌, refl, sym, ◌∙◌, ap, String, true, false, List, Option, none, some, inl, inr, Bool-cases,
  Option-cases, Result, ok, guard, >>=-eq-ok, filled, arith,
}
use openclaw_scheduler.Base.Table.{find-modify, returning-some}
use openclaw_scheduler.Job.Row.{Job}
use openclaw_scheduler.Dispatch.Row.{Dispatch, dispatch_key, get_dispatch, is_settled}
use openclaw_scheduler.Dispatch.Calls.{DispatchCall, Moment, run_dispatches}
use openclaw_scheduler.Dispatch.Histories.{dispatch_for_ever}
use openclaw_scheduler.Approval.Row.{
  Approval, ApprovalStatus, approval_key, find_approval, is_approved, is_decision,
}
use openclaw_scheduler.Approval.Binding.{ApprovalError}
use openclaw_scheduler.Approval.Store.{
  Store, Env, Outcome, job_of, dispatch_of, can_settle, outcome_of,
}
use openclaw_scheduler.Approval.Effects.{
  finish_approval_run, cancel_approval_dispatch, cancel_row, consume_approval_occurrence,
  on_dispatch,
}
use openclaw_scheduler.Approval.Verdict.{DecisionOpts, may_decide, forced_reason}
use openclaw_scheduler.Approval.Decide.{
  settle, decided, decide, decide_row, is_undecided, write_approval, written_approval, after_write,
  effective_status, transition_pending_approval,
}
use openclaw_scheduler.Approval.Frame.{settle-SameApprovals}

consume-dispatches :
    (env : Env) (job : Option Job) (dispatch : Option Dispatch) (s : Store)
    → (consume_approval_occurrence env job dispatch s).dispatches ≡ s.dispatches
unfolding consume_approval_occurrence
consume-dispatches env none none s = refl
consume-dispatches env none (some d) s = refl
consume-dispatches env (some j) none s = refl
consume-dispatches env (some j) (some d) s = ground arith

-- A statement that cancels whatever can be cancelled leaves the row settled.
cancelled-settled :
    (id reason : String) (now : ℕ) (s : Store) {d : Dispatch}
    → get_dispatch id (on_dispatch (some id) can_settle (cancel_row reason now) s).dispatches
      ≡ some d
    → is_settled d.status ≡ true
cancelled-settled id reason now s e =
    ground (
      arith,
      find-modify dispatch_key (cancel_row reason now) (λ d. refl) id can_settle s.dispatches,
    )

settle-settled :
    (env : Env) (a : Approval) (status : ApprovalStatus) (reason : String) (job : Option Job)
    (dispatch : Option Dispatch) (s : Store) {t : Store} {id : String} {d : Dispatch}
    → settle env a status reason job dispatch s ≡ ok t
    → is_approved status ≡ false
    → filled a.dispatch_queue_id ≡ some id
    → get_dispatch id t.dispatches ≡ some d
    → is_settled d.status ≡ true
unfolding settle cancel_approval_dispatch
settle-settled env a status reason job dispatch s {t} {id} {d} e withheld named there =
    let (u, finished, rest) = >>=-eq-ok (finish_approval_run env a status reason s) _ e in
    let v : Store =
      on_dispatch (filled a.dispatch_queue_id) can_settle (cancel_row reason env.now) u in
    let last : t ≡ consume_approval_occurrence env job dispatch v = ground arith in
    let rows : t.dispatches ≡ v.dispatches =
      ap (λ (x : Store). x.dispatches) last ∙ consume-dispatches env job dispatch v in
    let is_id : v ≡ on_dispatch (some id) can_settle (cancel_row reason env.now) u =
      ap (λ o. on_dispatch o can_settle (cancel_row reason env.now) u) named in
    cancelled-settled id reason env.now u (
      ap (λ (x : Store). get_dispatch id x.dispatches) (sym is_id)
      ∙ ap (get_dispatch id) (sym rows)
      ∙ there)

-- A call that changed the approval has written its row and run the body.
after_write-changed :
    (id : String) (written : Option Approval) (s : Store)
    (body : Approval → Result ApprovalError Store) {t : Store} {o : Outcome}
    → after_write id written s body ≡ ok (t, o)
    → o.changed ≡ true
    → (row : Approval) × (written ≡ some row)
      × (body row ≡ ok t)
      × (o.approval ≡ find_approval id t.approvals)
unfolding after_write outcome_of
after_write-changed id none s body e changed = absurd (ground arith)
after_write-changed id (some row) s body {t} {o} e changed =
    let (v, first, rest) = >>=-eq-ok (body row) _ e in
    let is_t : v ≡ t = ground arith in
    let is_o : outcome_of true id v ≡ o = ground arith in
    (
      row,
      refl,
      first ∙ ap ok is_t,
      sym (ap (λ (x : Outcome). x.approval) is_o)
          ∙ ap (λ (x : Store). find_approval id x.approvals) is_t,
    )

decided-settled :
    (env : Env) (id : String) (a : Approval) (effective : ApprovalStatus) (by : Option String)
    (reason : String) (s : Store) {t : Store} {o : Outcome} {b : Approval} {dispatch_id : String}
    {d : Dispatch}
    → decided env id a effective by reason s ≡ ok (t, o)
    → o.changed ≡ true
    → o.approval ≡ some b
    → is_approved b.status ≡ false
    → filled b.dispatch_queue_id ≡ some dispatch_id
    → get_dispatch dispatch_id t.dispatches ≡ some d
    → is_settled d.status ≡ true
unfolding decided
decided-settled env id a effective by reason s {t} {o} {b} {dispatch_id} {d} e changed is_b withheld
      named there =
    let f : Approval → Approval = decide_row effective by reason env.now in
    let u : Store = write_approval id is_undecided f s in
    let (row, wrote, settled, is_row) =
      after_write-changed id (written_approval id is_undecided f s) u
        (λ r. settle env r effective reason (job_of a s) (dispatch_of a s) u) e changed in
    let (x, found, may, made, stands) =
      returning-some approval_key f (λ y. refl) id is_undecided s.approvals wrote in
    let same : t.approvals ≡ u.approvals =
      settle-SameApprovals env row effective reason (job_of a s) (dispatch_of a s) u settled in
    let here : find_approval id t.approvals ≡ some row = ap (find_approval id) same ∙ stands in
    let row_is_b : row ≡ b = cc in
    settle-settled env row effective reason (job_of a s) (dispatch_of a s) u {t = t}
      {id = dispatch_id} {d = d} settled (ground arith) (ground arith) there

-- Once a decision on a pending approval has rejected it, let it time out or cancelled it, the
-- dispatch that it names, if the queue holds it, is settled (done, cancelled or failed), and it
-- stays so over every history of calls on the queue, so it is never claimed.
pub refused_dispatch_never_runs :
    (env : Env) (id : String) (status : ApprovalStatus) (opts : DecisionOpts) (s t : Store)
    (o : Outcome) (b : Approval) (dispatch_id : String) (d : Dispatch)
    (cs : List (Moment × DispatchCall))
    → transition_pending_approval env id status opts s ≡ ok (t, o)
    → o.changed ≡ true
    → o.approval ≡ some b
    → is_approved b.status ≡ false
    → filled b.dispatch_queue_id ≡ some dispatch_id
    → get_dispatch dispatch_id t.dispatches ≡ some d
    → (e : Dispatch) × (get_dispatch dispatch_id (run_dispatches cs t.dispatches) ≡ some e)
      × (e.status ≡ d.status)
      × (is_settled e.status ≡ true)
unfolding transition_pending_approval decide
refused_dispatch_never_runs env id status opts s t o b dispatch_id d cs made changed is_b withheld
      named there =
    elim (Option-cases (find_approval id s.approvals)) [
      | inl absent ↦ absurd (ground arith)
      | inr (a, found) ↦ elim (Bool-cases (is_undecided a)) [
        | inr closed ↦ absurd (ground arith)
        | inl pending' ↦
            let body : decide env id a status opts s ≡ ok (t, o) = ground arith in
            let (_, may, e1) =
              >>=-eq-ok (guard (may_decide a status opts) ApprovalError.scope_mismatch) _ body in
            let (forced, _, e2) = >>=-eq-ok (forced_reason env a status s) _ e1 in
            let (_, valid, e3) =
              >>=-eq-ok
                (guard (is_decision (effective_status forced status)) ApprovalError.bad_transition)
                _ e2 in
            let is_over : is_settled d.status ≡ true =
              decided-settled env id a (effective_status forced status) _ _ s {b = b}
                {dispatch_id = dispatch_id} {d = d} e3 changed is_b withheld named there in
            let (e, still, later) = dispatch_for_ever dispatch_id cs t.dispatches d there in
            let kept : e.status ≡ d.status = later.settled_kept is_over in
            (e, still, kept, ap is_settled kept ∙ is_over)
      ]
    ]
