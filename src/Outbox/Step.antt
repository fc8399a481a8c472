-- ===== src/Outbox/Step.antt =====
-- The state machine of one delivery: the statements of delivery-outbox.js that may write its row.
use openclaw_scheduler.Base.{ℕ, ◌≡◌, refl, ◌∙◌, map, String, Bool, true, Bool-cases, inl, inr, List}
use openclaw_scheduler.Base.Table.{modify, patch, update_where}
use openclaw_scheduler.Base.Table.Follows.{
  Follows, refl-Follows, trans-Follows, modify-Follows, update_where-Follows,
}
use openclaw_scheduler.Base.Table.Primary.{keys-modify, keys-update_where}
use openclaw_scheduler.Outbox.Row.{
  Delivery, ErrorText, is_waiting, is_open, is_failed, is_cancelled, delivery_key,
}
use openclaw_scheduler.Outbox.Recover.{cancel_waiting, is_expired, retry_expired, fail_expired}
use openclaw_scheduler.Outbox.Claim.{
  is_exhausted, fail_exhausted, may_claim, claim_row, may_renew, extend_claim,
}
use openclaw_scheduler.Outbox.Finish.{is_claimed_with, deliver, retry_row, fail_row, cancel_row}
use openclaw_scheduler.Outbox.Bulk.{restart_row}

pub data Step (d : Delivery) : Delivery → Type 0 where
  expires : (at : ℕ) → is_expired at d ≡ true → Step d (retry_expired at d)
  expires_last : (at : ℕ) → is_expired at d ≡ true → Step d (fail_expired at d)
  exhausts : (at : ℕ) → is_exhausted d ≡ true → Step d (fail_exhausted at d)
  claims :
      (owner token : String) (at until : ℕ)
      → may_claim at d ≡ true
      → Step d (claim_row owner token until d)
  renews :
      (token : String) (at until : ℕ) → may_renew token at d ≡ true → Step d (extend_claim until d)
  delivers : (token : String) (now : ℕ) → is_claimed_with token d ≡ true → Step d (deliver now d)
  retries :
      (token error : String) (exhausted : Bool) (ms now : ℕ)
      → is_claimed_with token d ≡ true
      → Step d (retry_row exhausted ms now error d)
  fails :
      (token error : String) (now : ℕ)
      → is_claimed_with token d ≡ true
      → Step d (fail_row error now d)
  cancels : (reason : String) (now : ℕ) → is_open d.status ≡ true → Step d (cancel_row reason now d)
  stops :
      (reason : ErrorText) (now : ℕ)
      → is_waiting d.status ≡ true
      → Step d (cancel_waiting reason now d)
  restarts :
      (reset : Bool) (limit at : ℕ)
      → is_failed d.status ≡ true
      → Step d (restart_row reset limit at d)
  restarts_later :
      (limit at : ℕ) → is_cancelled d.status ≡ true → Step d (restart_row true limit at d)

-- Any number of steps.
pub data Reach (d : Delivery) : Delivery → Type 0 where
  here : Reach d d
  next : {e f : Delivery} → Reach d e → Step e f → Reach d f

pub trans-Reach : (d e f : Delivery) → Reach d e → Reach e f → Reach d f
trans-Reach d e f p here = p
trans-Reach d e f p (next q s) = next (trans-Reach d e _ p q) s

patch-Reach :
    (guard : Delivery → Bool) (f : Delivery → Delivery)
    → ((d : Delivery) → guard d ≡ true → Step d (f d))
    → (d : Delivery) → Reach d (patch guard f d)
patch-Reach guard f steps d = elim (Bool-cases (guard d)) [
  | inl e ↦ rw e (next here (steps d e))
  | inr e ↦ rw e here
]

-- The row that `j` names is still there, and has gone some steps; the keys are the same.
module _ (j : String) where
  abbrev pub Goes : List Delivery → List Delivery → Type 0
  Goes a b = Follows delivery_key Reach j a b × (map delivery_key b ≡ map delivery_key a)

  pub idle : (rows : List Delivery) → Goes rows rows
  idle rows = (refl-Follows delivery_key Reach (λ d. here) j rows, refl)

  pub Goes-trans : (a b c : List Delivery) → Goes a b → Goes b c → Goes a c
  Goes-trans a b c p q = (trans-Follows delivery_key Reach trans-Reach j a b c p.0 q.0, q.1 ∙ p.1)

  module _ (f : Delivery → Delivery)
      (same : (d : Delivery) → delivery_key (f d) ≡ delivery_key d) where
    pub modify-Goes :
        (id : String) (guard : Delivery → Bool) (rows : List Delivery)
        → ((d : Delivery) → guard d ≡ true → Step d (f d))
        → Goes rows (modify delivery_key id guard f rows)
    modify-Goes id guard rows steps = (
      modify-Follows delivery_key Reach f same (λ d. here) j id guard rows
          (patch-Reach guard f steps),
      keys-modify delivery_key f same id guard rows,
    )

    pub update_where-Goes :
        (p : Delivery → Bool) (rows : List Delivery)
        → ((d : Delivery) → p d ≡ true → Step d (f d))
        → Goes rows (update_where p f rows)
    update_where-Goes p rows steps = (
      update_where-Follows delivery_key Reach f same j p rows (patch-Reach p f steps),
      keys-update_where delivery_key f same p rows,
    )
