-- ===== src/Approval/Calls.antt =====
-- Histories of calls on the approvals, and what a call may write to one of them (approval.js,
-- approval-state.js, dispatcher-approvals.js).
use openclaw_scheduler.Base.{
  ℕ, ◌≡◌, refl, sym, subst, String, Bool, true, Option, none, some, inl, inr, Bool-cases,
  Option-cases, Result, ok, err, guard, >>=-eq-ok, written, arith,
}
use openclaw_scheduler.Base.Table.{patch, find-key}
use openclaw_scheduler.Base.Table.Follows.{
  Follows, refl-Follows, trans-Follows, modify_found-Follows,
}
use openclaw_scheduler.Approval.Row.{
  Approval, ApprovalStatus, approval_key, find_approval, is_decision,
}
use openclaw_scheduler.Approval.Binding.{ApprovalError}
use openclaw_scheduler.Approval.Store.{Store, Env, Outcome, job_of, dispatch_of}
use openclaw_scheduler.Approval.Verdict.{DecisionOpts, may_decide, forced_reason}
use openclaw_scheduler.Approval.Decide.{
  effective_status, decide_row, is_undecided, write_approval, written_approval, after_write, decide,
  decided, transition_pending_approval, settle,
}
use openclaw_scheduler.Approval.Cancel.{can_cancel, cancel_approval_row}
use openclaw_scheduler.Approval.Begin.{can_corrupt, corrupt_row, can_begin, begin_row}
use openclaw_scheduler.Approval.Gate.{is_started, mark_row, defer_row}
use openclaw_scheduler.Approval.Recover.{complete_row, reopen_row}
use openclaw_scheduler.Approval.Frame.{SameApprovals, settle-SameApprovals}

-- A relation between an approval and what it is after a call.
module _ (R : Approval → Approval → Type 0) where
  -- A decision that the caller may take on the approval `id`.
  abbrev pub Decides : String → ApprovalStatus → DecisionOpts → Type 0
  Decides id status opts =
      (a : Approval) (forced by : Option String) (reason : String) (now : ℕ)
      → a.id ≡ id
      → may_decide a status opts ≡ true
      → is_decision (effective_status forced status) ≡ true
      → R a (patch is_undecided (decide_row (effective_status forced status) by reason now) a)

  -- The writes other than a decision.
  pub record Allows : Type 0 where
    pub stays : (a : Approval) → R a a
    pub composes : (a b c : Approval) → R a b → R b c → R a c
    pub cancels :
        (by : Option String) (why : String) (now : ℕ) (a : Approval)
        → R a (patch can_cancel (cancel_approval_row by why now) a)
    pub corrupts :
        (why : String) (now : ℕ) (a : Approval) → R a (patch can_corrupt (corrupt_row why now) a)
    pub begins : (a : Approval) → R a (patch can_begin begin_row a)
    pub marks :
        (notes : Option String) (now : ℕ) (a : Approval)
        → R a (patch is_started (mark_row notes now) a)
    pub defers : (notes : Option String) (a : Approval) → R a (patch is_started (defer_row notes) a)
    pub completes : (now : ℕ) (a : Approval) → R a (patch is_started (complete_row now) a)
    pub reopens : (a : Approval) → R a (patch is_started reopen_row a)

guard-true : (b : Bool) (e : ApprovalError) {u : Unit {0}} → guard b e ≡ ok u → b ≡ true
guard-true b e h = ground arith

module _ (R : Approval → Approval → Type 0) (allows : Allows R) (j : String) where
  -- Whatever the approval `j` was, it is still there and has moved by `R`.
  abbrev pub Kept : Store → Store → Type 0
  Kept s t = Follows approval_key R j s.approvals t.approvals

  pub same-Kept : (s t : Store) → SameApprovals s t → Kept s t
  same-Kept s t e =
      subst (Follows approval_key R j s.approvals) (sym e)
        (refl-Follows approval_key R allows.stays j s.approvals)

  pub trans-Kept : (s t u : Store) → Kept s t → Kept t u → Kept s u
  trans-Kept s t u =
      trans-Follows approval_key R allows.composes j s.approvals t.approvals u.approvals

  pub written-Kept {ℓ} :
      {X : Type ℓ} (s : Store) (r : Result ApprovalError (Store × X))
      → ((t : Store) (x : X) → r ≡ ok (t, x) → Kept s t)
      → Kept s (written s r)
  written-Kept s (err e) kept = same-Kept s s refl
  written-Kept s (ok (t, x)) kept = kept t x refl

  pub write-Kept :
      (id : String) (guarded : Approval → Bool) (f : Approval → Approval)
      → ((a : Approval) → approval_key (f a) ≡ approval_key a)
      → (s : Store)
      → ((a : Approval) → find_approval id s.approvals ≡ some a → R a (patch guarded f a))
      → Kept s (write_approval id guarded f s)
  write-Kept id guarded f same s moves =
      modify_found-Follows approval_key R f same allows.stays j id guarded s.approvals moves

  after_write-same :
      (id : String) (row : Option Approval) (s : Store)
      (body : Approval → Result ApprovalError Store) {t : Store} {o : Outcome}
      → ((a : Approval) (u : Store) → body a ≡ ok u → SameApprovals s u)
      → after_write id row s body ≡ ok (t, o)
      → SameApprovals s t
  unfolding after_write
  after_write-same id none s body same e = ground arith
  after_write-same id (some a) s body same e =
      let (u, first, rest) = >>=-eq-ok (body a) _ e in ground (arith, same a u first)

  pub after_write-Kept :
      (id : String) (guarded : Approval → Bool) (f : Approval → Approval)
      → ((a : Approval) → approval_key (f a) ≡ approval_key a)
      → (s : Store) (body : Approval → Result ApprovalError Store) {t : Store} {o : Outcome}
      → ((a : Approval) → find_approval id s.approvals ≡ some a → R a (patch guarded f a))
      → ((a : Approval) (u : Store)
          → body a ≡ ok u
          → SameApprovals (write_approval id guarded f s) u)
      → after_write id (written_approval id guarded f s) (write_approval id guarded f s) body
        ≡ ok (t, o)
      → Kept s t
  after_write-Kept id guarded f key s body {t} moves same e =
      trans-Kept s (write_approval id guarded f s) t (write-Kept id guarded f key s moves) (
        same-Kept (write_approval id guarded f s) t (
          after_write-same id (written_approval id guarded f s) (write_approval id guarded f s) body
            same e))

  decided-Kept :
      (env : Env) (id : String) (a : Approval) (effective : ApprovalStatus) (by : Option String)
      (reason : String) (s : Store) {t : Store} {o : Outcome}
      → find_approval id s.approvals ≡ some a
      → R a (patch is_undecided (decide_row effective by reason env.now) a)
      → decided env id a effective by reason s ≡ ok (t, o)
      → Kept s t
  unfolding decided
  decided-Kept env id a effective by reason s found move =
      let f : Approval → Approval = decide_row effective by reason env.now in
      after_write-Kept id is_undecided f (λ b. refl) s
        (λ row.
          settle env row effective reason (job_of a s) (dispatch_of a s)
            (write_approval id is_undecided f s))
        (λ b same. let here : a ≡ b = cc in subst (λ x. R x (patch is_undecided f x)) here move)
        (λ row u.
          settle-SameApprovals env row effective reason (job_of a s) (dispatch_of a s)
            (write_approval id is_undecided f s))

  decide-Kept :
      (env : Env) (id : String) (a : Approval) (status : ApprovalStatus) (opts : DecisionOpts)
      (s : Store) {t : Store} {o : Outcome}
      → find_approval id s.approvals ≡ some a
      → Decides R id status opts
      → decide env id a status opts s ≡ ok (t, o)
      → Kept s t
  unfolding decide
  decide-Kept env id a status opts s found decides e =
      let (_, may, e1) =
        >>=-eq-ok (guard (may_decide a status opts) ApprovalError.scope_mismatch) _ e in
      let (forced, _, e2) = >>=-eq-ok (forced_reason env a status s) _ e1 in
      let (_, valid, e3) =
        >>=-eq-ok
          (guard (is_decision (effective_status forced status)) ApprovalError.bad_transition) _
          e2 in
      decided-Kept env id a (effective_status forced status) _ _ s found
        (decides a forced _ _ env.now (find-key approval_key id s.approvals found)
          (guard-true _ _ may) (guard-true _ _ valid))
        e3

  pub transition-Kept :
      (env : Env) (id : String) (status : ApprovalStatus) (opts : DecisionOpts) (s : Store)
      {t : Store} {o : Outcome}
      → Decides R id status opts
      → transition_pending_approval env id status opts s ≡ ok (t, o)
      → Kept s t
  unfolding transition_pending_approval
  transition-Kept env id status opts s {t} {o} decides e =
      elim (Option-cases (find_approval id s.approvals)) [
        | inl absent ↦ same-Kept s t (ground arith)
        | inr (a, found) ↦ elim (Bool-cases (is_undecided a)) [
          | inl open' ↦
              decide-Kept env id a status opts s {t = t} {o = o} found decides (ground arith)
          | inr closed ↦ same-Kept s t (ground arith)
        ]
      ]
