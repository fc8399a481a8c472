-- ===== src/Outbox/Calls.antt =====
-- Recovering and claiming make only steps of the state machine (delivery-outbox.js).
use openclaw_scheduler.Base.{
  ℕ, ◌+◌, ◌≡◌, refl, String, true, List, [], ◌∷◌, Option, none, some, Bool-cases, Option-cases, inl,
  inr, arith, leb, keep, take, filled,
}
use openclaw_scheduler.Base.Table.{modify, returning, update_where}
use openclaw_scheduler.Outbox.Row.{
  Delivery, ErrorText, Outbox, delivery_key, get_delivery_row, is_waiting, is_cancelled,
}
use openclaw_scheduler.Outbox.Debt.{Completion, completion_of, reconcile}
use openclaw_scheduler.Outbox.Recover.{
  later_waiting, is_later_part, cancel_later, cancel_waiting, after_failure, recover_one,
  recover_each, recover_expired_claims, is_expired, retry_expired, fail_expired,
}
use openclaw_scheduler.Outbox.Claim.{
  ClaimOpts, sort_candidates, is_candidate, candidate_in, fail_all_exhausted, stop_each,
  claim_candidates, claim_due, claim_one, may_claim, claim_row, fail_exhausted, is_exhausted,
}
use openclaw_scheduler.Outbox.Bulk.{later_cancelled}
use openclaw_scheduler.Outbox.Step.{
  expires, expires_last, exhausts, claims, stops, Goes, idle, Goes-trans, modify-Goes,
  update_where-Goes,
}

-- Settling a debt writes no delivery.
pub reconcile-rows :
    (c : Option Completion) (now : ℕ) (o : Outbox) → (reconcile c now o).rows ≡ o.rows
unfolding reconcile
reconcile-rows none now o = refl
reconcile-rows (some c) now o = refl

waiting_later :
    (g : Option String) (i : Option ℕ) (e : Delivery)
    → later_waiting g i e ≡ true
    → is_waiting e.status ≡ true
waiting_later none i e h = cc
waiting_later (some g) none e h = cc
waiting_later (some g) (some i) e h = ground arith

pub cancelled_later :
    (g : Option String) (i : Option ℕ) (e : Delivery)
    → later_cancelled g i e ≡ true
    → is_cancelled e.status ≡ true
cancelled_later none i e h = cc
cancelled_later (some g) none e h = cc
cancelled_later (some g) (some i) e h = ground arith

module _ (j : String) where
  abbrev pub To : Outbox → Outbox → Type 0
  To o p = Goes j o.rows p.rows

  pub idles : (o : Outbox) → To o o
  idles o = idle j o.rows

  pub To-trans : (o p q : Outbox) → To o p → To p q → To o q
  To-trans o p q = Goes-trans j o.rows p.rows q.rows

  pub reconcile-To : (c : Option Completion) (now : ℕ) (o : Outbox) → To o (reconcile c now o)
  reconcile-To c now o = rw (reconcile-rows c now o) (idles o)

  pub cancel_later-To :
      (d : Option Delivery) (reason : ErrorText) (now : ℕ) (o : Outbox)
      → To o (cancel_later d reason now o)
  unfolding cancel_later is_later_part
  cancel_later-To none reason now o = idles o
  cancel_later-To (some d) reason now o =
      update_where-Goes j (cancel_waiting reason now) (λ x. refl) (is_later_part d) o.rows
        (λ x p. stops reason now (waiting_later (filled d.delivery_group_id) d.part_index x p))

  after_failure-To :
      (id : String) (reason : ErrorText) (now : ℕ) (o : Outbox)
      → To o (after_failure id reason now o)
  unfolding after_failure
  after_failure-To id reason now o =
      let row = get_delivery_row id o.rows in
      Goes-trans j o.rows (cancel_later row reason now o).rows _ (cancel_later-To row reason now o)
        (reconcile-To (completion_of row) now (cancel_later row reason now o))

  recover_one-To : (at now : ℕ) (d : Delivery) (o : Outbox) → To o (recover_one at now d o)
  unfolding recover_one
  recover_one-To at now d o = elim (Bool-cases (leb d.max_attempts d.attempt_count)) [
    | inr more ↦ rw more (
        modify-Goes j (retry_expired at) (λ x. refl) d.id (is_expired at) o.rows
          (λ x e. expires at e))
    | inl last ↦
        elim (Option-cases (returning delivery_key d.id (is_expired at) (fail_expired at) o.rows)) [
          | inl unchanged ↦ rw (last, unchanged) (idles o)
          | inr (r, changed) ↦
              rw (last, changed)
                (Goes-trans j o.rows
                  (modify delivery_key d.id (is_expired at) (fail_expired at) o.rows) _
                  (modify-Goes j (fail_expired at) (λ x. refl) d.id (is_expired at) o.rows
                    (λ x e. expires_last at e))
                  (after_failure-To d.id _ now (record o {
                    rows = modify delivery_key d.id (is_expired at) (fail_expired at) o.rows;
                  })))
        ]
  ]

  recover_each-To : (at now : ℕ) (ds : List Delivery) (o : Outbox) → To o (recover_each at now ds o)
  unfolding recover_each
  recover_each-To at now [] o = idles o
  recover_each-To at now (d ∷ ds) o =
      To-trans o (recover_one at now d o) (recover_each at now ds (recover_one at now d o))
        (recover_one-To at now d o) (recover_each-To at now ds (recover_one at now d o))

  pub recover-To : (at now : ℕ) (o : Outbox) → To o (recover_expired_claims at now o)
  unfolding recover_expired_claims
  recover-To at now o = recover_each-To at now (keep (is_expired at) o.rows) o

  stop_each-To : (now : ℕ) (ds : List Delivery) (o : Outbox) → To o (stop_each now ds o)
  unfolding stop_each
  stop_each-To now [] o = idles o
  stop_each-To now (d ∷ ds) o =
      Goes-trans j o.rows (after_failure d.id _ now o).rows _ (after_failure-To d.id _ now o)
        (stop_each-To now ds (after_failure d.id _ now o))

  pub exhaust-To : (at now : ℕ) (o : Outbox) → To o (fail_all_exhausted at now o)
  unfolding fail_all_exhausted
  exhaust-To at now o =
      Goes-trans j o.rows (update_where is_exhausted (fail_exhausted at) o.rows) _
        (update_where-Goes j (fail_exhausted at) (λ x. refl) is_exhausted o.rows
          (λ x e. exhausts at e))
        (stop_each-To now (keep is_exhausted o.rows)
          (record o { rows = update_where is_exhausted (fail_exhausted at) o.rows }))

  candidates-Goes :
      (fresh : ℕ → String) (n : ℕ) (owner : String) (at until : ℕ) (ds rows : List Delivery)
      → Goes j rows (claim_candidates fresh n owner at until ds rows).0
  unfolding claim_candidates
  candidates-Goes fresh n owner at until [] rows = idle j rows
  candidates-Goes fresh n owner at until (d ∷ ds) rows =
      Goes-trans j rows
        (modify delivery_key d.id (may_claim at) (claim_row owner (fresh n) until) rows) _
        (modify-Goes j (claim_row owner (fresh n) until) (λ x. refl) d.id (may_claim at) rows
          (λ x e. claims owner (fresh n) at until e))
        (candidates-Goes fresh (n + 1) owner at until ds _)

  pub claim_due-To :
      (opts : ClaimOpts) (owner : String) (limit at until : ℕ) (fresh : ℕ → String) (now : ℕ)
      (o : Outbox)
      → To o (claim_due opts owner limit at until fresh now o).0
  unfolding claim_due
  claim_due-To opts owner limit at until fresh now o =
      let recovered = recover_expired_claims at now o in
      let ready = fail_all_exhausted at now recovered in
      Goes-trans j o.rows ready.rows _
        (To-trans o recovered ready (recover-To at now o) (exhaust-To at now recovered))
        (candidates-Goes fresh 0 owner at until
          (take limit (
            sort_candidates
              (keep (is_candidate at opts.channel opts.target ready.rows) ready.rows)))
          ready.rows)

  pub claim_one-To :
      (id owner : String) (at until : ℕ) (fresh : ℕ → String) (now : ℕ) (o : Outbox)
      → To o (claim_one id owner at until fresh now o).0
  unfolding claim_one
  claim_one-To id owner at until fresh now o =
      let ready = recover_expired_claims at now o in
      Goes-trans j o.rows ready.rows _ (recover-To at now o) (
        candidates-Goes fresh 0 owner at until
          (candidate_in ready.rows (get_delivery_row id ready.rows)) ready.rows)
