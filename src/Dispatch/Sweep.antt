-- ===== src/Dispatch/Sweep.antt =====
-- What the statements of recoverStaleDispatchClaims and cancelDisabledDispatches do to one row of
-- the queue (dispatch-queue.js), spelled out in the columns.
use openclaw_scheduler.Base.{
  ℕ, ◌≤◌, ◌≡◌, ◌↔◌, ◌⊎◌, inl, inr, refl, ap, String, Bool, true, false, List, [], ◌∷◌, map, Option,
  none, some, or_else, trimmed_or, datetime, All, arith, Bool-cases, holds_text_iff,
}
use openclaw_scheduler.Base.Table.{patch}
use openclaw_scheduler.Job.Row.{Job, find_job, has_enabled}
use openclaw_scheduler.Run.Row.{Run, is_active}
use openclaw_scheduler.Dispatch.Row.{Dispatch, DispatchStatus}
use openclaw_scheduler.Dispatch.Queue.{
  is_expired, has_active_run, has_disabled, is_stale_claim, is_orphan, recover_row, cancel_row,
  swept, recover_stale_dispatch_claims, cancel_disabled_dispatches,
}

-- A claim that has expired, and that no active run was started for.
pub record IsStaleAt (now : ℕ) (runs : List Run) (d : Dispatch) : Type 0 where
  pub claimed : d.status ≡ DispatchStatus.claimed
  pub expired : (t : ℕ) × (d.claim_expires_at ≡ some t) × (t ≤ now)
  pub unowned : All (λ r. r.dispatch_queue_id ≡ some d.id → is_active r.status ≡ false) runs

-- The job is there and stands as enabled, or as disabled.
abbrev pub IsJobSet : Bool → List Job → Dispatch → Type 0
IsJobSet on jobs d = (j : Job) × (find_job d.job_id jobs ≡ some j) × (j.enabled ≡ on)

pub record IsDisabledAt (jobs : List Job) (d : Dispatch) : Type 0 where
  pub pending : d.status ≡ DispatchStatus.pending
  pub disabled : IsJobSet false jobs d

unowned_iff :
    (runs : List Run) (d : Dispatch)
    → (has_active_run runs d ≡ false)
      ↔ All (λ r. r.dispatch_queue_id ≡ some d.id → is_active r.status ≡ false) runs
unfolding has_active_run
unowned_iff [] d = (λ h. tt, λ h. refl)
unowned_iff (r ∷ runs) d =
    let named = holds_text_iff r.dispatch_queue_id d.id in
    let rest = unowned_iff runs d in
    (
      λ h. (λ e. ground (arith, named), rest.0 (ground arith)),
      λ h. ground (arith, named, rest.1 h.1, h.0),
    )

expired_iff :
    (now : ℕ) (o : Option ℕ) → (is_expired now o ≡ true) ↔ ((t : ℕ) × (o ≡ some t) × (t ≤ now))
expired_iff now none = (λ h. cc, λ (t, e, le). cc)
expired_iff now (some t) = (λ h. (t, refl, ground arith), λ (u, e, le). ground arith)

stale_iff :
    (now : ℕ) (runs : List Run) (d : Dispatch)
    → (is_stale_claim now runs d ≡ true) ↔ IsStaleAt now runs d
stale_iff now runs d =
    let free = unowned_iff runs d in
    let late = expired_iff now d.claim_expires_at in
    (
      λ h. record {
        claimed = ground arith;
        expired = late.0 (ground arith);
        unowned = free.0 (ground arith);
      },
      λ h. ground (arith, free.1 h.unowned, late.1 h.expired, h.claimed),
    )

disabled_iff :
    (id : String) (jobs : List Job) (o : Option Job)
    → find_job id jobs ≡ o
    → (has_disabled id jobs ≡ true)
      ↔ ((j : Job) × (find_job id jobs ≡ some j) × (j.enabled ≡ false))
unfolding has_disabled
disabled_iff id jobs none e = rw e (λ h. cc, λ (j, f, g). cc)
disabled_iff id jobs (some j) e = rw e (λ h. (j, refl, ground arith), λ (k, f, g). ground arith)

pub enabled_iff :
    (id : String) (jobs : List Job) (o : Option Job)
    → find_job id jobs ≡ o
    → (has_enabled id jobs ≡ true) ↔ ((j : Job) × (find_job id jobs ≡ some j) × (j.enabled ≡ true))
unfolding has_enabled
enabled_iff id jobs none e = rw e (λ h. cc, λ (j, f, g). cc)
enabled_iff id jobs (some j) e = rw e (λ h. (j, refl, ground arith), λ (k, f, g). ground arith)

orphan_iff : (jobs : List Job) (d : Dispatch) → (is_orphan jobs d ≡ true) ↔ IsDisabledAt jobs d
orphan_iff jobs d =
    let off = disabled_iff d.job_id jobs (find_job d.job_id jobs) refl in
    (
      λ h. record { pending = ground arith; disabled = off.0 (ground arith) },
      λ h. ground (arith, off.1 h.disabled, h.pending),
    )

-- A stale claim is taken back: the row is pending again, without its claim, and says why.
abbrev pub IsRecovered : ℕ → List Run → Dispatch → Dispatch → Type 0
IsRecovered now runs d e =
    (IsStaleAt now runs d
      × (e ≡ record d {
        status = DispatchStatus.pending;
        claimed_at = none;
        claim_owner = none;
        claim_token = none;
        claim_expires_at = none;
        last_error = or_else d.last_error (some "Recovered expired dispatch claim");
      }))
    ⊎ ((¬ IsStaleAt now runs d) × (e ≡ d))

-- A pending row of a disabled job is cancelled, and says why.
abbrev pub IsWithdrawn : ℕ → List Job → Dispatch → Dispatch → Type 0
IsWithdrawn now jobs d e =
    (IsDisabledAt jobs d
      × (e ≡ record d {
        status = DispatchStatus.cancelled;
        processed_at = or_else d.processed_at (some (datetime now));
        claim_expires_at = none;
        last_error = or_else d.last_error (some "Job disabled before dispatch");
      }))
    ⊎ ((¬ IsDisabledAt jobs d) × (e ≡ d))

module _ (now : ℕ) (runs : List Run) (jobs : List Job) where
  abbrev pub recovered : Dispatch → Dispatch
  recovered = patch (is_stale_claim now runs) (recover_row "Recovered expired dispatch claim")

  abbrev pub withdrawn : Dispatch → Dispatch
  withdrawn = patch (is_orphan jobs) (cancel_row now)

  pub recovered-IsRecovered : (d : Dispatch) → IsRecovered now runs d (recovered d)
  recovered-IsRecovered d = elim (Bool-cases (is_stale_claim now runs d)) [
    | inl e ↦ inl ((stale_iff now runs d).0 e, rw e refl)
    | inr e ↦ inr (λ h. ground (arith, (stale_iff now runs d).1 h), rw e refl)
  ]

  pub withdrawn-IsWithdrawn : (d : Dispatch) → IsWithdrawn now jobs d (withdrawn d)
  withdrawn-IsWithdrawn d = elim (Bool-cases (is_orphan jobs d)) [
    | inl e ↦ inl ((orphan_iff jobs d).0 e, rw e refl)
    | inr e ↦ inr (λ h. ground (arith, (orphan_iff jobs d).1 h), rw e refl)
  ]

  pub swept-map : (q : List Dispatch) → swept now runs jobs q ≡ map (λ d. withdrawn (recovered d)) q
  unfolding swept recover_stale_dispatch_claims cancel_disabled_dispatches trimmed_or
  swept-map [] = refl
  swept-map (d ∷ q) = ap (◌∷◌ (withdrawn (recovered d))) (swept-map q)
