-- ===== src/Approval/Recovers.antt =====
-- What the recovery of interrupted dispatches may write to one approval (approval-state.js).
use openclaw_scheduler.Base.{
  ℕ, ◌≡◌, refl, subst, String, List, [], ◌∷◌, Option, none, some, ok, >>=-eq-ok, arith, keep,
}
use openclaw_scheduler.Approval.Row.{Approval}
use openclaw_scheduler.Approval.Store.{Store, Env}
use openclaw_scheduler.Approval.Effects.{finish_dispatched_approval_run}
use openclaw_scheduler.Approval.Decide.{write_approval, written_approval}
use openclaw_scheduler.Approval.Cancel.{cancel_approval_in_transaction}
use openclaw_scheduler.Approval.Gate.{is_started}
use openclaw_scheduler.Approval.Recover.{
  complete_row, reopen_row, repair_each, Interrupted, Remedy, complete, withdraw, reopen, leave,
  remedy, recover_one, recover_each, completed, reopened, recover_interrupted_approval_dispatches,
  prepared, interrupted_rows, is_historical, without_evidence,
}
use openclaw_scheduler.Approval.Frame.{
  SameApprovals, finish_dispatched-SameApprovals, on_dispatch-SameApprovals,
}
use openclaw_scheduler.Approval.Calls.{Allows, Kept, same-Kept, trans-Kept, write-Kept}
use openclaw_scheduler.Approval.Keeps.{cancel-Kept}

without_evidence-SameApprovals :
    (id : Option String) (s : Store) → SameApprovals s (without_evidence id s)
without_evidence-SameApprovals none s = refl
without_evidence-SameApprovals (some id) s = refl

prepared-SameApprovals : (a : Approval) (s : Store) → SameApprovals s (prepared a s)
prepared-SameApprovals a s = ground (arith, without_evidence-SameApprovals a.run_id s)

-- The repair of old gates writes runs only.
pub repair_each-SameApprovals :
    (env : Env) (rows : List Approval) (s : Store) {t : Store} {n : ℕ}
    → repair_each env rows s ≡ ok (t, n)
    → SameApprovals s t
unfolding repair_each
repair_each-SameApprovals env [] s e = ground arith
repair_each-SameApprovals env (a ∷ rows) s {t} e =
    let (s', first, e1) =
      >>=-eq-ok
        (finish_dispatched_approval_run env a
          "Legacy approval gate repaired after its execution dispatch completed" (prepared a s))
        _ e in
    let ((s'', n), rest, e2) = >>=-eq-ok (repair_each env rows s') _ e1 in
    ground (
      arith,
      prepared-SameApprovals a s,
      finish_dispatched-SameApprovals env a
          "Legacy approval gate repaired after its execution dispatch completed" (prepared a s)
          first,
      repair_each-SameApprovals env rows s' rest,
    )

completed-SameApprovals :
    (env : Env) (a : Approval) (row : Option Approval) (s : Store) {t : Store} {n : ℕ}
    → completed env a row s ≡ ok (t, n)
    → SameApprovals s t
completed-SameApprovals env a none s e = ground arith
completed-SameApprovals env a (some row) s e =
    let (s', first, rest) =
      >>=-eq-ok
        (finish_dispatched_approval_run env a
          "Approval dispatch recovered after execution had already started" s)
        _ e in
    ground (
      arith,
      finish_dispatched-SameApprovals env a
          "Approval dispatch recovered after execution had already started" s first,
    )

reopened-SameApprovals :
    (a : Approval) (row : Option Approval) (s : Store) → SameApprovals s (reopened a row s).0
reopened-SameApprovals a none s = refl
reopened-SameApprovals a (some row) s = on_dispatch-SameApprovals a.dispatch_queue_id _ _ s

module _ (R : Approval → Approval → Type 0) (allows : Allows R) (j : String) where
  recover_one-Kept :
      (env : Env) (r : Remedy) (a : Approval) (s : Store) {t : Store} {n : ℕ}
      → recover_one env r a s ≡ ok (t, n)
      → Kept R allows j s t
  unfolding recover_one
  recover_one-Kept env complete a s {t} e =
      let u : Store = write_approval a.id is_started (complete_row env.now) s in
      trans-Kept R allows j s u t
        (write-Kept R allows j a.id is_started (complete_row env.now) (λ b. refl) s
          (λ b found. allows.completes env.now b))
        (same-Kept R allows j u t (completed-SameApprovals env a _ u e))
  recover_one-Kept env withdraw a s {t} e =
      let ((s', o), first, rest) =
        >>=-eq-ok
          (cancel_approval_in_transaction env (some a)
            (some "Approved dispatch was cancelled before execution") "scheduler" s)
          _ e in
      let last : s' ≡ t = ground arith in
      rw (← last) (
        cancel-Kept R allows j env (some a)
          (some "Approved dispatch was cancelled before execution") "scheduler" s first)
  recover_one-Kept env reopen a s {t} e =
      let u : Store = write_approval a.id is_started reopen_row s in
      trans-Kept R allows j s u t
        (write-Kept R allows j a.id is_started reopen_row (λ b. refl) s
          (λ b found. allows.reopens b))
        (same-Kept R allows j u t (
          ground
            (arith, reopened-SameApprovals a (written_approval a.id is_started reopen_row s) u)))
  recover_one-Kept env leave a s {t} e = same-Kept R allows j s t (ground arith)

  recover_each-Kept :
      (env : Env) (rows : List Interrupted) (s : Store) {t : Store} {n : ℕ}
      → recover_each env rows s ≡ ok (t, n)
      → Kept R allows j s t
  unfolding recover_each
  recover_each-Kept env [] s {t} e = same-Kept R allows j s t (ground arith)
  recover_each-Kept env (i ∷ rows) s {t} e =
      let ((s', n), first, e1) = >>=-eq-ok (recover_one env (remedy env.now i) i.approval s) _ e in
      let ((s'', m), rest, e2) = >>=-eq-ok (recover_each env rows s') _ e1 in
      let last : s'' ≡ t = ground arith in
      trans-Kept R allows j s s' t (recover_one-Kept env (remedy env.now i) i.approval s first)
        (subst (Kept R allows j s') last (recover_each-Kept env rows s' rest))

  pub recover-Kept :
      (env : Env) (s : Store) {t : Store} {n : ℕ}
      → recover_interrupted_approval_dispatches env s ≡ ok (t, n)
      → Kept R allows j s t
  unfolding recover_interrupted_approval_dispatches
  recover-Kept env s {t} e =
      let ((s', n), first, e1) =
        >>=-eq-ok (repair_each env (keep (is_historical s) s.approvals) s) _ e in
      let ((s'', m), rest, e2) = >>=-eq-ok (recover_each env (interrupted_rows s') s') _ e1 in
      let last : s'' ≡ t = ground arith in
      trans-Kept R allows j s s' t
        (same-Kept R allows j s s'
          (repair_each-SameApprovals env (keep (is_historical s) s.approvals) s first))
        (subst (Kept R allows j s') last (recover_each-Kept env (interrupted_rows s') s' rest))
