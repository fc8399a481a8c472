-- ===== src/Outbox/Writes.antt =====
-- Histories of calls on the deliveries, the prune included (delivery-outbox.js).
use openclaw_scheduler.Base.{
  ℕ, ◌+◌, refl, String, Bool, List, [], ◌∷◌, map, Option, written, written-bind, datetime,
}
use openclaw_scheduler.Outbox.Row.{Outbox, delivery_key, get_delivery_row}
use openclaw_scheduler.Outbox.Recover.{recover_expired_delivery_claims, time_of}
use openclaw_scheduler.Outbox.Claim.{
  ClaimOpts, claim_due_deliveries, claim_delivery, renew_delivery_claim, check_owner, check_limit,
  check_lease, may_renew, extend_claim, positive,
}
use openclaw_scheduler.Outbox.Finish.{
  Delay, mark_delivery_delivered, retry_delivery, mark_delivery_failed, cancel_delivery,
}
use openclaw_scheduler.Outbox.Bulk.{
  cancel_deliveries_for_run, cancel_deliveries_for_job, retry_failed_delivery,
}
use openclaw_scheduler.Base.Table.Primary.{IsPrimary}
use openclaw_scheduler.Outbox.Prune.{PruneOpts, prune_terminal_deliveries}
use openclaw_scheduler.Outbox.Step.{renews, modify-Goes}
use openclaw_scheduler.Outbox.Calls.{To, idles, recover-To, claim_due-To, claim_one-To}
use openclaw_scheduler.Outbox.Histories.{
  deliver-To, fail-To, cancel-To, retry-To, cancel_where-To, restart-To,
}

pub data OutboxCall : Type 0 where
  claims_due : ClaimOpts → (ℕ → String) → OutboxCall
  claims_one : String → ClaimOpts → (ℕ → String) → OutboxCall
  renews_claim : String → String → Option ℕ → Option ℕ → OutboxCall
  recovers : Option ℕ → OutboxCall
  marks_delivered : String → Option String → OutboxCall
  marks_retry : String → Option String → Option String → Delay → OutboxCall
  marks_failed : String → Option String → Option String → OutboxCall
  cancels_one cancels_run cancels_job : String → Option String → OutboxCall
  restarts_failed : String → Option ℕ → Bool → Option ℕ → OutboxCall

unfoldable pub call_outbox : ℕ × OutboxCall → Outbox → Outbox
call_outbox (now, claims_due opts fresh) o = written o (claim_due_deliveries opts fresh now o)
call_outbox (now, claims_one id opts fresh) o = written o (claim_delivery id opts fresh now o)
call_outbox (now, renews_claim id token lease_ms at) o =
    written o (renew_delivery_claim id token lease_ms at now o)
call_outbox (now, recovers at) o = recover_expired_delivery_claims at now o
call_outbox (now, marks_delivered id token) o = (mark_delivery_delivered id token now o).0
call_outbox (now, marks_retry id token error delay) o =
    written o (retry_delivery id token error delay now o)
call_outbox (now, marks_failed id token error) o = (mark_delivery_failed id token error now o).0
call_outbox (now, cancels_one id reason) o = (cancel_delivery id reason now o).0
call_outbox (now, cancels_run id reason) o = (cancel_deliveries_for_run id reason now o).0
call_outbox (now, cancels_job id reason) o = (cancel_deliveries_for_job id reason now o).0
call_outbox (now, restarts_failed id limit reset next_at) o =
    written o (retry_failed_delivery id limit reset next_at now o)

module _ (j : String) where
  pub call-To : (c : ℕ × OutboxCall) (o : Outbox) → To j o (call_outbox c o)
  unfolding call_outbox claim_due_deliveries claim_delivery renew_delivery_claim
      recover_expired_delivery_claims mark_delivery_delivered retry_delivery mark_delivery_failed
      cancel_delivery cancel_deliveries_for_run cancel_deliveries_for_job retry_failed_delivery
  call-To (now, claims_due opts fresh) o =
      written-bind (To j o) o (check_owner opts) _ (idles j o) λ owner _.
        written-bind (To j o) o (check_limit opts) _ (idles j o) λ limit _.
          written-bind (To j o) o (check_lease opts.lease_ms) _ (idles j o) λ lease _.
            claim_due-To j opts owner limit (datetime (time_of opts.now now))
              (datetime (time_of opts.now now + lease)) fresh now o
  call-To (now, claims_one id opts fresh) o =
      written-bind (To j o) o (check_owner opts) _ (idles j o) λ owner _.
        written-bind (To j o) o (check_lease opts.lease_ms) _ (idles j o) λ lease _.
          claim_one-To j id owner (datetime (time_of opts.now now))
            (datetime (time_of opts.now now + lease)) fresh now o
  call-To (now, renews_claim id token lease_ms at) o =
      written-bind (To j o) o (check_lease lease_ms) _ (idles j o) λ lease _.
        modify-Goes j (extend_claim (datetime (time_of at now + lease))) (λ x. refl) id
          (may_renew token (datetime (time_of at now))) o.rows
          (λ x e. renews token (datetime (time_of at now)) _ e)
  call-To (now, recovers at) o = recover-To j (datetime (time_of at now)) now o
  call-To (now, marks_delivered id token) o =
      deliver-To j (get_delivery_row id o.rows) id token now o
  call-To (now, marks_retry id token error delay) o =
      retry-To j (get_delivery_row id o.rows) id token error delay now o
  call-To (now, marks_failed id token error) o =
      fail-To j (get_delivery_row id o.rows) id token error now o
  call-To (now, cancels_one id reason) o = cancel-To j (get_delivery_row id o.rows) id reason now o
  call-To (now, cancels_run id reason) o = cancel_where-To j _ _ now o
  call-To (now, cancels_job id reason) o = cancel_where-To j _ _ now o
  call-To (now, restarts_failed id limit reset next_at) o =
      written-bind (To j o) o (positive limit 5 _) _ (idles j o) λ most _.
        restart-To j (get_delivery_row id o.rows) id reset most (datetime (time_of next_at now)) now
          o

pub data OutboxWrite : Type 0 where
  calls : OutboxCall → OutboxWrite
  prunes : PruneOpts → OutboxWrite

unfoldable pub write_outbox : ℕ × OutboxWrite → Outbox → Outbox
write_outbox (now, calls c) o = call_outbox (now, c) o
write_outbox (now, prunes opts) o = written o (prune_terminal_deliveries opts now o)

unfoldable pub write_all : List (ℕ × OutboxWrite) → Outbox → Outbox
unfolding write_outbox
write_all [] o = o
write_all (w ∷ ws) o = write_all ws (write_outbox w o)

abbrev pub IsKeyed : Outbox → Type 0
IsKeyed o = IsPrimary (map delivery_key o.rows)

pub call-IsKeyed : (c : ℕ × OutboxCall) (o : Outbox) → IsKeyed o → IsKeyed (call_outbox c o)
call-IsKeyed c o keys = rw (call-To "" c o).1 keys
