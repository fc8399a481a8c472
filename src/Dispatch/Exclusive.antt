-- ===== src/Dispatch/Exclusive.antt =====
-- A claimed dispatch belongs to its claimant until the lease runs out (dispatch-queue.js).
use openclaw_scheduler.Base.{
  ℕ, ◌<◌, ◌≡◌, ◌≢◌, refl, ◌∙◌, ap, String, true, false, List, [], ◌∷◌, Option, none, some, ok, All,
  ◌+◌, arith, holds_text_iff,
}
use openclaw_scheduler.Base.Table.{modify, returning, returning-some, refused}
use openclaw_scheduler.Job.Row.{Job, has_enabled}
use openclaw_scheduler.Dispatch.Row.{Dispatch, DispatchStatus, get_dispatch, dispatch_key}
use openclaw_scheduler.Dispatch.Claim.{
  ClaimOpts, Identity, normalize_claim_identity, is_claimed_by, owns, may_claim, claim_row,
  claim_dispatch, claim_expiry,
}
use openclaw_scheduler.Dispatch.Calls.{
  DispatchCall, enqueues, claims, renews, releases, sets, recovers, cancels_disabled, reads_due,
  Moment, Moves, run_dispatches, run-Follows,
}

-- A row that this owner and token hold, until `expires`.
pub record IsHeld (i : Identity) (expires : ℕ) (d : Dispatch) : Type 0 where
  pub claimed : d.status ≡ DispatchStatus.claimed
  pub owned : d.claim_owner ≡ some i.owner
  pub token : d.claim_token ≡ some i.token
  pub until : d.claim_expires_at ≡ some expires

-- The call is not made under the identity `i`.
abbrev pub IsForeign : Identity → DispatchCall → Type 0
IsForeign i (renews id opts) = normalize_claim_identity opts false String.[] ≢ ok (some i)
IsForeign i (releases id t opts) = normalize_claim_identity opts false String.[] ≢ ok (some i)
IsForeign i (sets id s opts) = normalize_claim_identity opts false String.[] ≢ ok (some i)
IsForeign i _ = Unit

module _ (i : Identity) (expires : ℕ) where
  -- A held row is left as it is.
  abbrev Undisturbed : Dispatch → Dispatch → Type 0
  Undisturbed d e = IsHeld i expires d → e ≡ d

  Undisturbed-trans : (d e f : Dispatch) → Undisturbed d e → Undisturbed e f → Undisturbed d f
  Undisturbed-trans d e f p q h = q (rw (p h) h) ∙ p h

  other_identity :
      (k : Identity) (d : Dispatch) → k ≢ i → IsHeld i expires d → is_claimed_by k d ≡ false
  unfolding is_claimed_by
  other_identity k d other h =
      ground (arith, holds_text_iff d.claim_owner k.owner, holds_text_iff d.claim_token k.token)

  not_owned :
      (o : Option Identity) (d : Dispatch) → o ≢ some i → IsHeld i expires d → owns o d ≡ false
  unfolding owns
  not_owned none d other h = ground arith
  not_owned (some k) d other h = other_identity k d (λ e. other (ap some e)) h

  foreign-Moves :
      (m : Moment) (c : DispatchCall) → m.now < expires → IsForeign i c → Moves Undisturbed m c
  foreign-Moves m (enqueues job_id opts fresh) early foreign = tt
  foreign-Moves m (claims id opts fresh) early foreign = λ k t d e h. ground arith
  foreign-Moves m (renews id opts) early foreign =
      λ k t d e h. ground (arith, other_identity k d (λ same. foreign (rw (← same) e)) h)
  foreign-Moves m (releases id t opts) early foreign =
      λ k text d e h. ground (arith, not_owned k d (λ same. foreign (rw (← same) e)) h)
  foreign-Moves m (sets id status opts) early foreign =
      λ k s text d e h. ground (arith, not_owned k d (λ same. foreign (rw (← same) e)) h)
  foreign-Moves m (recovers reason) early foreign = λ text d h. ground arith
  foreign-Moves m cancels_disabled early foreign = λ d h. ground arith
  foreign-Moves m (reads_due limit) early foreign =
      (λ text d h. ground arith, λ d h. ground arith, Undisturbed-trans)

  guarded :
      (cs : List (Moment × DispatchCall))
      → All (λ c. (c.0.now < expires) × IsForeign i c.1) cs
      → All (λ c. Moves Undisturbed c.0 c.1) cs
  guarded [] h = tt
  guarded ((m, c) ∷ cs) h = (foreign-Moves m c h.0.0 h.0.1, guarded cs h.1)

-- As long as the clock is before the expiry of a claim, no call of dispatch-queue.js by anyone else,
-- a recovery and a reading of the due rows included, changes the claimed row in any column. The
-- calls are those of that module: the writes to the queue by the approvals, and by the deletion or
-- the cancellation of a job, are not among them.
pub claim_undisturbed :
    (id : String) (i : Identity) (expires : ℕ) (cs : List (Moment × DispatchCall))
    (q : List Dispatch) (d : Dispatch)
    → get_dispatch id q ≡ some d
    → IsHeld i expires d
    → All (λ c. (c.0.now < expires) × IsForeign i c.1) cs
    → get_dispatch id (run_dispatches cs q) ≡ some d
claim_undisturbed id i expires cs q d found held others =
    let (e, later, same) =
      run-Follows (Undisturbed i expires) (λ x h. refl) (Undisturbed-trans i expires) id cs q
        (guarded i expires cs others) d found in
    rw later (ap some (same held))

-- A claim that succeeds found a pending dispatch of an enabled job, and leaves it claimed by the
-- caller until the end of the lease, with one more attempt; a second claim of the same dispatch by
-- anyone then returns nothing and writes nothing.
pub claim_once :
    (id : String) (opts opts' : ClaimOpts) (fresh fresh' : String) (now now' ms ms' : ℕ)
    (i : Identity) (o : Option Identity) (jobs jobs' : List Job) (q q' : List Dispatch)
    (d : Dispatch)
    → normalize_claim_identity opts true fresh ≡ ok (some i)
    → normalize_claim_identity opts' true fresh' ≡ ok o
    → claim_expiry opts.lease_ms now ≡ ok ms
    → claim_expiry opts'.lease_ms now' ≡ ok ms'
    → claim_dispatch id opts fresh now jobs q ≡ ok (q', some d)
    → (before : Dispatch) × (get_dispatch id q ≡ some before)
      × (before.status ≡ DispatchStatus.pending)
      × (has_enabled before.job_id jobs ≡ true)
      × (get_dispatch id q' ≡ some d)
      × IsHeld i ms d
      × (d.attempt_count ≡ before.attempt_count + 1)
      × (claim_dispatch id opts' fresh' now' jobs' q' ≡ ok (q', none))
unfolding claim_dispatch
claim_once id opts opts' fresh fresh' now now' ms ms' i o jobs jobs' q q' d who who' till till'
      done =
    let row : returning dispatch_key id (may_claim jobs) (claim_row (some i) now ms) q ≡ some d =
      ground arith in
    let rows : modify dispatch_key id (may_claim jobs) (claim_row (some i) now ms) q ≡ q' =
      ground arith in
    let (x, was, free, is, now_is) =
      returning-some dispatch_key (claim_row (some i) now ms) (λ r. refl) id (may_claim jobs) q
        row in
    let found : get_dispatch id q' ≡ some d = rw (← rows) now_is in
    let kept =
      refused dispatch_key (claim_row o now' ms') id (may_claim jobs') q' d found
        (rw is (ground arith)) in
    (
      x,
      was,
      ground arith,
      ground arith,
      found,
      rw is (record { claimed = refl; owned = refl; token = refl; until = refl }),
      rw is refl,
      ground (arith, kept.0, kept.1),
    )
