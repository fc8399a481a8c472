-- ===== src/Approval/Bound.antt =====
-- A dispatch starts under an approval only for the contract that the approval was requested for
-- (approval.js, approval-state.js, approval-binding.js).
use openclaw_scheduler.Base.{
  ◌≡◌, refl, ◌∙◌, ap, String, Bool, true, false, List, Option, none, some, inl, inr, Bool-cases,
  Option-cases, Result, ok, err, ◌>>=◌, >>=-eq-ok, filled, str_eq, eq_iff, arith,
}
use openclaw_scheduler.Job.Row.{Job}
use openclaw_scheduler.Dispatch.Row.{Dispatch, get_dispatch, is_claimed}
use openclaw_scheduler.Approval.Row.{Approval, is_approved, get_approval_for_dispatch}
use openclaw_scheduler.Approval.Binding.{
  ApprovalError, Actor, Payload, is_bound, approval_binding_hash,
}
use openclaw_scheduler.Approval.Store.{Store, Env, Reason, Outcome, job_of}
use openclaw_scheduler.Approval.Verdict.{binding_objection}
use openclaw_scheduler.Approval.Decide.{write_approval, after_write}
use openclaw_scheduler.Approval.Cancel.{cancel_approval_in_transaction}
use openclaw_scheduler.Approval.Begin.{
  can_begin, begin_row, begin_claimed, begin_bound, begin_approved, begin_approval_dispatch,
  approval_association_mismatch, cancel_corrupt_approval_association, available, has_scope,
  actor_or, no_job, refuse,
}

-- What stands in the tables when a dispatch starts under the approval `a`, and what is written.
pub record IsBegun (env : Env) (dispatch_id : String) (actor : Option Actor) (s t : Store)
    (a : Approval) (d : Dispatch) (j : Job) (h : String) : Type 0 where
  pub found : get_approval_for_dispatch false dispatch_id s.approvals ≡ some a
  pub approved : is_approved a.status ≡ true
  pub named : get_dispatch dispatch_id s.dispatches ≡ some d
  pub claimed : is_claimed d.status ≡ true
  pub associated : approval_association_mismatch a (some d) s ≡ none
  pub job_there : job_of a s ≡ some j
  pub enabled : j.enabled ≡ true
  pub has_hash : filled a.binding_hash ≡ some h
  pub bound : approval_binding_hash env.digest j (some d) s.jobs ≡ ok h
  pub scoped : has_scope (actor_or actor env.actor) a ≡ true
  pub began : t ≡ write_approval a.id can_begin begin_row s

refuse-reason :
    (why : Reason) (r : Result ApprovalError (Store × Outcome)) {t : Store} {o : Outcome}
    → refuse why r ≡ ok (t, o)
    → o.reason ≡ some why
refuse-reason why (err x) e = cc
refuse-reason why (ok (u, p)) e = ground arith

is_bound-true :
    (digest : Payload → String) (expected : Option String) (j : Job) (d : Option Dispatch)
    (jobs : List Job)
    → is_bound digest expected j d jobs ≡ ok true
    → (h : String) × (filled expected ≡ some h) × (approval_binding_hash digest j d jobs ≡ ok h)
unfolding is_bound
is_bound-true digest expected j d jobs e = elim (Option-cases (filled expected)) [
  | inl absent ↦ absurd (ground arith)
  | inr (h, there) ↦
      let body : (approval_binding_hash digest j d jobs >>= λ actual. ok (str_eq actual h))
          ≡ ok true =
        ground arith in
      let (actual, hashed, same) = >>=-eq-ok (approval_binding_hash digest j d jobs) _ body in
      (h, there, ground (arith, eq_iff actual h))
]

-- The start itself is the only branch of the last step that gives no reason.
claimed-began :
    (env : Env) (actor : Option Actor) (a : Approval) (s : Store) {t : Store} {o : Outcome}
    → begin_claimed env actor a s ≡ ok (t, o)
    → o.reason ≡ none
    → (has_scope (actor_or actor env.actor) a ≡ true)
      × (t ≡ write_approval a.id can_begin begin_row s)
unfolding begin_claimed after_write
claimed-began env actor a s {t} {o} e clean =
    elim (Bool-cases (has_scope (actor_or actor env.actor) a)) [
      | inl may ↦ (may, ground arith)
      | inr may_not ↦
          let refused : o.reason ≡ some Reason.scope_mismatch =
            refuse-reason Reason.scope_mismatch
              (cancel_approval_in_transaction env (some a)
                (some "Authenticated approval actor no longer satisfies the required scope")
                "scheduler" s)
              {t = t} {o = o} (ground arith) in
          absurd (ground arith)
    ]

bound-began :
    (env : Env) (actor : Option Actor) (a : Approval) (d : Dispatch) (bound : Bool) (s : Store)
    {t : Store} {o : Outcome}
    → begin_bound env actor a (some d) bound s ≡ ok (t, o)
    → o.reason ≡ none
    → (bound ≡ true)
      × (is_claimed d.status ≡ true)
      × (has_scope (actor_or actor env.actor) a ≡ true)
      × (t ≡ write_approval a.id can_begin begin_row s)
unfolding begin_bound
bound-began env actor a d false s {t} {o} e clean =
    let refused : o.reason ≡ some Reason.binding_mismatch =
      refuse-reason Reason.binding_mismatch
        (cancel_approval_in_transaction env (some a)
          (some (
            binding_objection a.binding_hash
              "Job execution contract changed after approval was granted"))
          "scheduler" s)
        e in
    absurd (ground arith)
bound-began env actor a d true s {t} {o} e clean = elim (Bool-cases (is_claimed d.status)) [
  | inl claimed ↦
      let (may, wrote) = claimed-began env actor a s {t = t} {o = o} (ground arith) clean in
      (refl, claimed, may, wrote)
  | inr unclaimed ↦ absurd (ground arith)
]

mismatch-refused :
    (env : Env) (actor : Option Actor) (a : Approval) (d : Option Dispatch) (why : String)
    (s : Store) {t : Store} {o : Outcome}
    → approval_association_mismatch a d s ≡ some why
    → begin_approved env actor a d s ≡ ok (t, o)
    → o.reason ≡ some Reason.association_mismatch
unfolding begin_approved
mismatch-refused env actor a d why s {t} {o} wrong e =
    refuse-reason Reason.association_mismatch (cancel_corrupt_approval_association env a d why s)
      {t = t} {o = o} (ground arith)

no_dispatch-refused :
    (a : Approval) (s : Store)
    → (why : String) × (approval_association_mismatch a none s ≡ some why)
unfolding approval_association_mismatch
no_dispatch-refused a s = ("Approval dispatch no longer exists", refl)

available-some :
    (o : Option Job) {j : Job} → available o ≡ some j → (o ≡ some j) × (j.enabled ≡ true)
available-some none h = cc
available-some (some x) {j} h = elim (Bool-cases x.enabled) [
  | inl on ↦ let same : x ≡ j = ground arith in (ap some same, rw (← same) on)
  | inr off ↦ absurd (ground arith)
]

module _ (env : Env) (dispatch_id : String) (actor : Option Actor) (a : Approval) (s : Store)
    {t : Store} {o : Outcome} (clean : o.reason ≡ none)
    (found : get_approval_for_dispatch false dispatch_id s.approvals ≡ some a)
    (approved : is_approved a.status ≡ true) where
  available-began :
      (d : Dispatch)
      → get_dispatch dispatch_id s.dispatches ≡ some d
      → approval_association_mismatch a (some d) s ≡ none
      → begin_approved env actor a (some d) s ≡ ok (t, o)
      → (j : Job) × (h : String) × IsBegun env dispatch_id actor s t a d j h
  unfolding begin_approved
  available-began d named right e = elim (Option-cases (available (job_of a s))) [
    | inl gone ↦
        let refused : o.reason ≡ some Reason.job_unavailable =
          refuse-reason Reason.job_unavailable
            (cancel_approval_in_transaction env (some a) (some (no_job (job_of a s))) "scheduler" s)
            {t = t} {o = o} (ground arith) in
        absurd (ground arith)
    | inr (j, there) ↦
        let (is_job, on) = available-some (job_of a s) there in
        let body : (is_bound env.digest a.binding_hash j (some d) s.jobs >>= λ bound.
        begin_bound env actor a (some d) bound s)
            ≡ ok (t, o) =
          ground arith in
        let (bound, checked, rest) =
          >>=-eq-ok (is_bound env.digest a.binding_hash j (some d) s.jobs) _ body in
        let (holds, claimed, may, wrote) = bound-began env actor a d bound s rest clean in
        let (h, has_hash, hashed) =
          is_bound-true env.digest a.binding_hash j (some d) s.jobs (checked ∙ ap ok holds) in
        (
          j,
          h,
          record {
            found = found;
            approved = approved;
            named = named;
            claimed = claimed;
            associated = right;
            job_there = is_job;
            enabled = on;
            has_hash = has_hash;
            bound = hashed;
            scoped = may;
            began = wrote;
          },
        )
  ]

  approved-began :
      (dispatch : Option Dispatch)
      → get_dispatch dispatch_id s.dispatches ≡ dispatch
      → begin_approved env actor a dispatch s ≡ ok (t, o)
      → (d : Dispatch) × (j : Job) × (h : String) × IsBegun env dispatch_id actor s t a d j h
  approved-began none named e =
      let (why, wrong) = no_dispatch-refused a s in
      let refused : o.reason ≡ some Reason.association_mismatch =
        mismatch-refused env actor a none why s wrong e in
      absurd (ground arith)
  approved-began (some d) named e =
      elim (Option-cases (approval_association_mismatch a (some d) s)) [
        | inr (why, wrong) ↦
            let refused : o.reason ≡ some Reason.association_mismatch =
              mismatch-refused env actor a (some d) why s wrong e in
            absurd (ground arith)
        | inl right ↦ let (j, h, begun) = available-began d named right e in (d, j, h, begun)
      ]

-- A call that starts a dispatch, which is one that returns no reason, has found the latest
-- approval of the dispatch approved, the dispatch claimed and of the approval's job and run, the
-- job enabled, the hash of the job's present contract equal to the approval's, and the actor
-- satisfying the scope and being the one that decided, if there is a scope; it writes that
-- approval only.
pub begin_requires :
    (env : Env) (dispatch_id : String) (actor : Option Actor) (s : Store) {t : Store} {o : Outcome}
    → begin_approval_dispatch env dispatch_id actor s ≡ ok (t, o)
    → o.reason ≡ none
    → (a : Approval) × (d : Dispatch) × (j : Job) × (h : String) × IsBegun env dispatch_id actor s t
        a d j h
unfolding begin_approval_dispatch
begin_requires env dispatch_id actor s {t} {o} e clean =
    elim (Option-cases (get_approval_for_dispatch false dispatch_id s.approvals)) [
      | inl absent ↦ absurd (ground arith)
      | inr (a, found) ↦ elim (Bool-cases (is_approved a.status)) [
        | inl approved ↦
            let (d, j, h, begun) =
              approved-began env dispatch_id actor a s {t = t} {o = o} clean found approved
                (get_dispatch dispatch_id s.dispatches) refl (ground arith) in
            (a, d, j, h, begun)
        | inr other ↦ absurd (ground arith)
      ]
    ]
