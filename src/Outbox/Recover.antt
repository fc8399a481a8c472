-- ===== src/Outbox/Recover.antt =====
-- cancelLaterGroupParts and the recovery of expired claims of delivery-outbox.js.
use openclaw_scheduler.Base.{
  ℕ, String, Bool, false, ◌&&◌, List, [], ◌∷◌, Option, none, some, leb, if◌then◌else◌, filled,
  or_else, holds_text, datetime, keep,
}
use openclaw_scheduler.Base.Table.{modify, returning, update_where}
use openclaw_scheduler.Outbox.Row.{
  Delivery, DeliveryStatus, ErrorText, text, Outbox, delivery_key, get_delivery_row, is_claimed,
  is_waiting, is_after, is_at_most,
}
use openclaw_scheduler.Outbox.Debt.{reconcile_row}

abbrev pub later_waiting : Option String → Option ℕ → Delivery → Bool
later_waiting (some group) (some index) e =
    holds_text e.delivery_group_id group && is_after e.part_index index && is_waiting e.status
later_waiting _ _ e = false

-- The parts of a group after the given one that still wait.
unfoldable pub is_later_part : Delivery → Delivery → Bool
is_later_part d e = later_waiting (filled d.delivery_group_id) d.part_index e

abbrev pub cancel_waiting : ErrorText → ℕ → Delivery → Delivery
cancel_waiting reason now d = record d {
  status = DeliveryStatus.cancelled;
  next_attempt_at = datetime now;
  claim_owner = none;
  claim_token = none;
  claim_expires_at = none;
  last_error = some reason;
}

-- cancelLaterGroupParts
unfoldable pub cancel_later : Option Delivery → ErrorText → ℕ → Outbox → Outbox
cancel_later none reason now o = o
cancel_later (some d) reason now o = record o {
  rows = update_where (is_later_part d) (cancel_waiting reason now) o.rows;
}

abbrev pub is_expired : ℕ → Delivery → Bool
is_expired at d = is_claimed d.status && is_at_most d.claim_expires_at at

abbrev pub retry_expired : ℕ → Delivery → Delivery
retry_expired at d = record d {
  status = DeliveryStatus.pending;
  next_attempt_at = at;
  claim_owner = none;
  claim_token = none;
  claim_expires_at = none;
  last_error = or_else d.last_error (some (text "Delivery claim lease expired"));
}

abbrev pub fail_expired : ℕ → Delivery → Delivery
fail_expired at d = record d {
  status = DeliveryStatus.failed;
  next_attempt_at = at;
  claim_owner = none;
  claim_token = none;
  claim_expires_at = none;
  last_error =
      or_else d.last_error (some (text "Delivery claim lease expired after final attempt"));
}

-- What follows the failure of a part: later parts are cancelled and the debt is settled anew.
unfoldable pub after_failure : String → ErrorText → ℕ → Outbox → Outbox
unfolding cancel_later
after_failure id reason now o =
    let updated = get_delivery_row id o.rows in
    reconcile_row updated now (cancel_later updated reason now o)

abbrev expired_stop : ErrorText
expired_stop = text "Multipart delivery stopped after an expired final claim"

-- One turn of the loop, for a row as it was selected.
unfoldable pub recover_one : ℕ → ℕ → Delivery → Outbox → Outbox
unfolding after_failure
recover_one at now d o =
    let failing = record o {
      rows = modify delivery_key d.id (is_expired at) (fail_expired at) o.rows;
    } in
    let failed = after_failure d.id expired_stop now failing in
    let retried = record o {
      rows = modify delivery_key d.id (is_expired at) (retry_expired at) o.rows;
    } in
    let changed = returning delivery_key d.id (is_expired at) (fail_expired at) o.rows in
    if leb d.max_attempts d.attempt_count
    then elim changed [ none ↦ o | some _ ↦ failed ]
    else retried

unfoldable pub recover_each : ℕ → ℕ → List Delivery → Outbox → Outbox
recover_each at now [] o = o
recover_each at now (d ∷ ds) o = recover_each at now ds (recover_one at now d o)

-- recoverExpiredClaimsInTransaction
unfoldable pub recover_expired_claims : ℕ → ℕ → Outbox → Outbox
unfolding recover_each
recover_expired_claims at now o = recover_each at now (keep (is_expired at) o.rows) o

-- `at` is `opts.now ?? Date.now()`, as a whole second.
abbrev pub time_of : Option ℕ → ℕ → ℕ
time_of none now = now
time_of (some t) now = t

unfoldable pub recover_expired_delivery_claims : Option ℕ → ℕ → Outbox → Outbox
recover_expired_delivery_claims at now o = recover_expired_claims (datetime (time_of at now)) now o
