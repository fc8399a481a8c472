-- ===== src/Outbox/Finish.antt =====
-- How a delivery ends or is tried again (delivery-outbox.js).
use openclaw_scheduler.Base.{
  ℕ, ◌+◌, ◌-◌, ◌*◌, ◌^◌, min, String, Bool, false, not, ◌&&◌, Option, none, some, leb,
  if◌then◌else◌, filled, holds_text, is_some, datetime, Result, ok, err, ◌>>=◌,
}
use openclaw_scheduler.Base.Table.{modify, returning}
use openclaw_scheduler.Outbox.Row.{
  Delivery, DeliveryStatus, DeliveryError, text, stopped_after_part, stopped_after_cancellation,
  bad_delay, Outbox, delivery_key, get_delivery_row, is_claimed, is_delivered, is_failed,
  is_cancelled, is_open, clipped,
}
use openclaw_scheduler.Outbox.Debt.{reconcile_row}
use openclaw_scheduler.Outbox.Recover.{cancel_later}

pub data Refusal : Type 0 where
  claim_mismatch terminal : Refusal

pub record Transition : Type 0 where
  pub row : Option Delivery
  pub transitioned : Bool
  pub reason : Option Refusal
  pub retry_scheduled : Bool

abbrev pub refusal : Delivery → Option Refusal → Transition
refusal d reason = record {
  row = some d;
  transitioned = false;
  reason = reason;
  retry_scheduled = false;
}

-- `status = 'claimed' AND claim_token = ?`
abbrev pub is_claimed_with : String → Delivery → Bool
is_claimed_with token d = is_claimed d.status && holds_text d.claim_token token

abbrev matches_filled : Option String → Delivery → Bool
matches_filled none d = false
matches_filled (some token) d = is_claimed_with token d

unfoldable pub claim_matches : Option String → Delivery → Bool
claim_matches token d = matches_filled (filled token) d

-- An UPDATE of one row, and what follows if it changed one.
unfoldable pub settle :
    String
    → (Delivery → Bool)
    → (Delivery → Delivery)
    → (Option Delivery → Outbox → Outbox)
    → Bool
    → Outbox
    → Outbox × Transition
settle id guard f follow retried o =
    let written : Outbox = record o { rows = modify delivery_key id guard f o.rows } in
    let changed = is_some (returning delivery_key id guard f o.rows) in
    let row = get_delivery_row id written.rows in
    (
      if changed then follow row written else written,
      record {
        row = row;
        transitioned = changed;
        reason = none;
        retry_scheduled = changed && retried;
      },
    )

abbrev pub token_or_empty : Option String → String
token_or_empty none = String.[]
token_or_empty (some t) = t

abbrev pub deliver : ℕ → Delivery → Delivery
deliver now d = record d {
  status = DeliveryStatus.delivered;
  delivered_at = some (datetime now);
  claim_owner = none;
  claim_token = none;
  claim_expires_at = none;
  last_error = none;
}

-- With the row that was read before.
unfoldable pub deliver_found :
    Option Delivery → String → Option String → ℕ → Outbox → Outbox × Option Transition
unfolding settle claim_matches
deliver_found none id token now o = (o, none)
deliver_found (some d) id token now o =
    let (after, done) =
      settle id (is_claimed_with (token_or_empty token)) (deliver now)
        (λ row p. reconcile_row row now p) false o in
    if is_delivered d.status
    then (o, some (refusal d none))
    else if not (claim_matches token d)
    then (o, some (refusal d (some claim_mismatch)))
    else (after, some done)

unfoldable pub mark_delivery_delivered :
    String → Option String → ℕ → Outbox → Outbox × Option Transition
mark_delivery_delivered id token now o = deliver_found (get_delivery_row id o.rows) id token now o

-- `opts.delayMs`
pub data Delay : Type 0 where
  unset invalid : Delay
  milliseconds : ℕ → Delay

abbrev pub default_delay : Delivery → ℕ
default_delay d = min 300000 (1000 * 2 ^ (d.attempt_count - 1))

unfoldable pub delay_of : Delay → ℕ → Result DeliveryError ℕ
delay_of unset fallback = ok fallback
delay_of invalid fallback = err bad_delay
delay_of (milliseconds ms) fallback = ok ms

-- Given up after its last attempt, or pending until the delay is over.
abbrev pub retry_row : Bool → ℕ → ℕ → String → Delivery → Delivery
retry_row exhausted delay_ms now error d = record d {
  status = if exhausted then DeliveryStatus.failed else DeliveryStatus.pending;
  next_attempt_at = if exhausted then datetime now else datetime (now + delay_ms);
  claim_owner = none;
  claim_token = none;
  claim_expires_at = none;
  last_error = some (text error);
}

abbrev part_of : Option Delivery → Option ℕ
part_of none = none
part_of (some d) = d.part_index

-- Later parts are cancelled, and the debt is settled anew.
unfoldable pub stop_group : String → ℕ → Option Delivery → Outbox → Outbox
stop_group error now row o =
    reconcile_row row now (cancel_later row (stopped_after_part (part_of row) error) now o)

unfoldable pub after_retry : Bool → String → ℕ → Option Delivery → Outbox → Outbox
unfolding stop_group
after_retry exhausted error now row o =
    if exhausted then stop_group error now row o else reconcile_row row now o

unfoldable pub retry_found :
    Option Delivery
    → String
    → Option String
    → Option String
    → Delay
    → ℕ
    → Outbox
    → Result DeliveryError (Outbox × Option Transition)
unfolding settle claim_matches after_retry delay_of
retry_found none id token error delay now o = ok (o, none)
retry_found (some d) id token error delay now o =
    let exhausted = leb d.max_attempts d.attempt_count in
    let why = clipped error "Delivery failed" in
    let go = delay_of delay (default_delay d) >>= λ ms.
    let (after, done) =
      settle id (is_claimed_with (token_or_empty token)) (retry_row exhausted ms now why)
        (after_retry exhausted why now) (not exhausted) o in
    ok (after, some done) in
    if not (claim_matches token d) then ok (o, some (refusal d (some claim_mismatch))) else go

unfoldable pub retry_delivery :
    String
    → Option String
    → Option String
    → Delay
    → ℕ
    → Outbox
    → Result DeliveryError (Outbox × Option Transition)
retry_delivery id token error delay now o =
    retry_found (get_delivery_row id o.rows) id token error delay now o

abbrev pub fail_row : String → ℕ → Delivery → Delivery
fail_row error now d = record d {
  status = DeliveryStatus.failed;
  next_attempt_at = datetime now;
  claim_owner = none;
  claim_token = none;
  claim_expires_at = none;
  last_error = some (text error);
}

unfoldable pub fail_found :
    Option Delivery
    → String
    → Option String
    → Option String
    → ℕ
    → Outbox
    → Outbox × Option Transition
unfolding settle claim_matches stop_group
fail_found none id token error now o = (o, none)
fail_found (some d) id token error now o =
    let why = clipped error "Delivery failed" in
    let (after, done) =
      settle id (is_claimed_with (token_or_empty token)) (fail_row why now) (stop_group why now)
        false o in
    if is_failed d.status
    then (o, some (refusal d none))
    else if not (claim_matches token d)
    then (o, some (refusal d (some claim_mismatch)))
    else (after, some done)

unfoldable pub mark_delivery_failed :
    String → Option String → Option String → ℕ → Outbox → Outbox × Option Transition
mark_delivery_failed id token error now o =
    fail_found (get_delivery_row id o.rows) id token error now o

abbrev pub cancel_row : String → ℕ → Delivery → Delivery
cancel_row reason now d = record d {
  status = DeliveryStatus.cancelled;
  next_attempt_at = datetime now;
  claim_owner = none;
  claim_token = none;
  claim_expires_at = none;
  last_error = some (text reason);
}

abbrev pub is_open_row : Delivery → Bool
is_open_row d = is_open d.status

unfoldable pub after_cancel : String → ℕ → Option Delivery → Outbox → Outbox
after_cancel reason now row o =
    reconcile_row row now (cancel_later row (stopped_after_cancellation reason) now o)

unfoldable pub cancel_found :
    Option Delivery → String → Option String → ℕ → Outbox → Outbox × Option Transition
unfolding settle after_cancel
cancel_found none id reason now o = (o, none)
cancel_found (some d) id reason now o =
    let why = clipped reason "Delivery cancelled" in
    let (after, done) = settle id is_open_row (cancel_row why now) (after_cancel why now) false o in
    if is_cancelled d.status
    then (o, some (refusal d none))
    else if is_delivered d.status
    then (o, some (refusal d (some terminal)))
    else (after, some done)

unfoldable pub cancel_delivery : String → Option String → ℕ → Outbox → Outbox × Option Transition
cancel_delivery id reason now o = cancel_found (get_delivery_row id o.rows) id reason now o
