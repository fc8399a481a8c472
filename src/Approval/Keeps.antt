-- ===== src/Approval/Keeps.antt =====
-- What cancelling, using and recovering may write to one approval (approval-state.js).
use openclaw_scheduler.Base.{
  ℕ, ◌≡◌, refl, String, List, [], ◌∷◌, Option, none, some, inl, inr, Bool-cases, Result, ok, err,
  >>=-eq-ok, arith,
}
use openclaw_scheduler.Dispatch.Row.{Dispatch}
use openclaw_scheduler.Approval.Row.{
  Approval, ApprovalStatus, is_cancelled, is_active, normalize_text, text_or,
}
use openclaw_scheduler.Approval.Binding.{ApprovalError}
use openclaw_scheduler.Approval.Store.{Store, Env, Reason, Outcome, job_of, dispatch_of}
use openclaw_scheduler.Approval.Decide.{write_approval, settle}
use openclaw_scheduler.Approval.Cancel.{
  can_cancel, cancel_approval_row, cancel_row_of, cancel_approval_in_transaction, cancel_each,
}
use openclaw_scheduler.Approval.Begin.{
  can_corrupt, corrupt_row, refuse, cancel_corrupt_approval_association,
}
use openclaw_scheduler.Approval.Frame.{settle-SameApprovals, on_dispatch-SameApprovals}
use openclaw_scheduler.Approval.Calls.{Allows, Kept, same-Kept, trans-Kept, after_write-Kept}

module _ (R : Approval → Approval → Type 0) (allows : Allows R) (j : String) where
  cancel_row_of-Kept :
      (env : Env) (a : Approval) (reason : Option String) (by : String) (s : Store) {t : Store}
      {o : Outcome}
      → cancel_row_of env a reason by s ≡ ok (t, o)
      → Kept R allows j s t
  unfolding cancel_row_of
  cancel_row_of-Kept env a reason by s e =
      let why : String = text_or reason "Approval cancelled" in
      let f : Approval → Approval =
        cancel_approval_row (normalize_text 200 (some by) (some "scheduler")) why env.now in
      let t : Store = write_approval a.id can_cancel f s in
      after_write-Kept R allows j a.id can_cancel f (λ b. refl) s
        (λ row. settle env row ApprovalStatus.cancelled why (job_of row t) (dispatch_of row t) t)
        (λ b found. allows.cancels _ why env.now b)
        (λ row u.
          settle-SameApprovals env row ApprovalStatus.cancelled why (job_of row t)
            (dispatch_of row t) t)
        e

  pub cancel-Kept :
      (env : Env) (o : Option Approval) (reason : Option String) (by : String) (s : Store)
      {t : Store} {r : Outcome}
      → cancel_approval_in_transaction env o reason by s ≡ ok (t, r)
      → Kept R allows j s t
  unfolding cancel_approval_in_transaction
  cancel-Kept env none reason by s {t} e = same-Kept R allows j s t (ground arith)
  cancel-Kept env (some a) reason by s {t} {r} e = elim (Bool-cases (is_cancelled a.status)) [
    | inl done ↦ same-Kept R allows j s t (ground arith)
    | inr other ↦ elim (Bool-cases (is_active a.status)) [
      | inl active ↦ cancel_row_of-Kept env a reason by s {t = t} {o = r} (ground arith)
      | inr ended ↦ same-Kept R allows j s t (ground arith)
    ]
  ]

  pub cancel_each-Kept :
      (env : Env) (by : String) (rows : List (Approval × String)) (s : Store) {t : Store} {n : ℕ}
      → cancel_each env by rows s ≡ ok (t, n)
      → Kept R allows j s t
  unfolding cancel_each
  cancel_each-Kept env by [] s {t} e = same-Kept R allows j s t (ground arith)
  cancel_each-Kept env by ((a, reason) ∷ rows) s {t} e =
      let ((s', o), first, e1) =
        >>=-eq-ok (cancel_approval_in_transaction env (some a) (some reason) by s) _ e in
      let ((s'', n), rest, e2) = >>=-eq-ok (cancel_each env by rows s') _ e1 in
      let last : s'' ≡ t = ground arith in
      trans-Kept R allows j s s' t (cancel-Kept env (some a) (some reason) by s first)
        (rw (← last) (cancel_each-Kept env by rows s' rest))

  pub refuse-Kept :
      (why : Reason) (r : Result ApprovalError (Store × Outcome)) (s : Store) {t : Store}
      {o : Outcome}
      → ((u : Store) (p : Outcome) → r ≡ ok (u, p) → Kept R allows j s u)
      → refuse why r ≡ ok (t, o)
      → Kept R allows j s t
  refuse-Kept why (err x) s kept e = cc
  refuse-Kept why (ok (u, p)) s {t} kept e =
      let last : u ≡ t = ground arith in rw (← last) (kept u p refl)

  pub refuse_cancel-Kept :
      (why : Reason) (env : Env) (a : Approval) (reason : String) (s : Store) {t : Store}
      {o : Outcome}
      → refuse why (cancel_approval_in_transaction env (some a) (some reason) "scheduler" s)
        ≡ ok (t, o)
      → Kept R allows j s t
  refuse_cancel-Kept why env a reason s =
      refuse-Kept why (cancel_approval_in_transaction env (some a) (some reason) "scheduler" s) s
        λ u p. cancel-Kept env (some a) (some reason) "scheduler" s

  pub corrupt-Kept :
      (env : Env) (a : Approval) (dispatch : Option Dispatch) (reason : String) (s : Store)
      {t : Store} {o : Outcome}
      → cancel_corrupt_approval_association env a dispatch reason s ≡ ok (t, o)
      → Kept R allows j s t
  unfolding cancel_corrupt_approval_association
  corrupt-Kept env a dispatch reason s e =
      let why : String = text_or (some reason) "Approval association is invalid" in
      let f : Approval → Approval = corrupt_row why env.now in
      after_write-Kept R allows j a.id can_corrupt f (λ b. refl) s _
        (λ b found. allows.corrupts why env.now b)
        (λ row u h.
          ground (arith, on_dispatch-SameApprovals _ _ _ (write_approval a.id can_corrupt f s)))
        e
