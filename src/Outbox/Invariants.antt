-- ===== src/Outbox/Invariants.antt =====
-- What holds of a delivery over every history of claims, renewals, recoveries, settlements,
-- cancellations, restarts and prunes (delivery-outbox.js). That a deleted message, job or run takes
-- its id out of the rows is not among these calls.
use openclaw_scheduler.Base.{
  ℕ, ◌≤◌, ◌≡◌, refl, ◌∙◌, ap, String, List, [], ◌∷◌, false, All, some, written, arith,
}
use openclaw_scheduler.Outbox.Row.{Delivery, DeliveryStatus, Outbox, get_delivery_row}
use openclaw_scheduler.Outbox.Prune.{cutoff_of, is_due_for_prune, prune_terminal_deliveries}
use openclaw_scheduler.Outbox.Spared.{prune-Spares}
use openclaw_scheduler.Outbox.Step.{
  Step, Reach, here, next, expires, expires_last, exhausts, claims, renews, delivers, retries,
  fails, cancels, stops, restarts, restarts_later,
}
use openclaw_scheduler.Outbox.Writes.{
  OutboxWrite, calls, prunes, call_outbox, write_outbox, write_all, IsKeyed, call-To, call-IsKeyed,
}

-- No step leaves a delivered row.
delivered-Step : (d e : Delivery) → d.status ≡ DeliveryStatus.delivered → Step d e → e ≡ d
delivered-Step d e is (expires at h) = ground arith
delivered-Step d e is (expires_last at h) = ground arith
delivered-Step d e is (exhausts at h) = ground arith
delivered-Step d e is (claims owner token at until h) = ground arith
delivered-Step d e is (renews token at until h) = ground arith
delivered-Step d e is (delivers token now h) = ground arith
delivered-Step d e is (retries token error exhausted ms now h) = ground arith
delivered-Step d e is (fails token error now h) = ground arith
delivered-Step d e is (cancels reason now h) = ground arith
delivered-Step d e is (stops reason now h) = ground arith
delivered-Step d e is (restarts reset limit at h) = ground arith
delivered-Step d e is (restarts_later limit at h) = ground arith

delivered-Reach : (d e : Delivery) → d.status ≡ DeliveryStatus.delivered → Reach d e → e ≡ d
delivered-Reach d e is here = refl
delivered-Reach d e is (next p s) =
    let same = delivered-Reach d _ is p in delivered-Step _ e (rw same is) s ∙ same

-- A prune that comes before the delivery is old enough.
abbrev pub IsEarly : Delivery → ℕ × OutboxWrite → Type 0
IsEarly d (now, calls c) = Unit
IsEarly d (now, prunes opts) = is_due_for_prune (cutoff_of opts now) d ≡ false

-- No claim, renewal, recovery, settlement, retry, cancellation or restart of any delivery changes a
-- delivered row, and no prune deletes it before it is old enough: after any such calls it is there
-- as it was in every column, so none of them claims it to be sent again. The ids are a primary key.
-- That a deleted message, job or run takes its id out of the row is not one of these calls.
pub delivered_for_ever :
    (id : String) (ws : List (ℕ × OutboxWrite)) (o : Outbox) (d : Delivery)
    → IsKeyed o
    → get_delivery_row id o.rows ≡ some d
    → d.status ≡ DeliveryStatus.delivered
    → All (IsEarly d) ws
    → get_delivery_row id (write_all ws o).rows ≡ some d
unfolding write_all
delivered_for_ever id [] o d keys found is early = found
delivered_for_ever id ((now, calls c) ∷ ws) o d keys found is early =
    let (e, later, reach) = (call-To id (now, c) o).0 d found in
    delivered_for_ever id ws (call_outbox (now, c) o) d (call-IsKeyed (now, c) o keys)
      (later ∙ ap some (delivered-Reach d e is reach)) is early.1
delivered_for_ever id ((now, prunes opts) ∷ ws) o d keys found is early =
    let (keys', found') = prune-Spares id d opts now o keys found early.0 in
    delivered_for_ever id ws (written o (prune_terminal_deliveries opts now o)) d keys' found' is
      early.1

-- What a delivery is does not change, and its attempts stay within its limit.
pub record IsLaterDelivery (d e : Delivery) : Type 0 where
  pub channel_kept : e.channel ≡ d.channel
  pub target_kept : e.target ≡ d.target
  pub body_kept : e.body ≡ d.body
  pub key_kept : e.idempotency_key ≡ d.idempotency_key
  pub group_kept : e.delivery_group_id ≡ d.delivery_group_id
  pub part_kept : e.part_index ≡ d.part_index
  pub bounded : d.attempt_count ≤ d.max_attempts → e.attempt_count ≤ e.max_attempts

later-Step : (d e : Delivery) → Step d e → IsLaterDelivery d e
later-Step d e (expires at h) = ground arith
later-Step d e (expires_last at h) = ground arith
later-Step d e (exhausts at h) = ground arith
later-Step d e (claims owner token at until h) = ground arith
later-Step d e (renews token at until h) = ground arith
later-Step d e (delivers token now h) = ground arith
later-Step d e (retries token error exhausted ms now h) = ground arith
later-Step d e (fails token error now h) = ground arith
later-Step d e (cancels reason now h) = ground arith
later-Step d e (stops reason now h) = ground arith
later-Step d e (restarts reset limit at h) = ground arith
later-Step d e (restarts_later limit at h) = ground arith

later_trans : (d e f : Delivery) → IsLaterDelivery d e → IsLaterDelivery e f → IsLaterDelivery d f
later_trans d e f before after = record {
  channel_kept = after.channel_kept ∙ before.channel_kept;
  target_kept = after.target_kept ∙ before.target_kept;
  body_kept = after.body_kept ∙ before.body_kept;
  key_kept = after.key_kept ∙ before.key_kept;
  group_kept = after.group_kept ∙ before.group_kept;
  part_kept = after.part_kept ∙ before.part_kept;
  bounded = λ h. after.bounded (before.bounded h);
}

later-Reach : (d e : Delivery) → Reach d e → IsLaterDelivery d e
later-Reach d e here = ground arith
later-Reach d e (next p s) = later_trans d _ e (later-Reach d _ p) (later-Step _ e s)

-- No prune comes when the delivery has ended and is old enough.
abbrev Spares : String → ℕ × OutboxWrite → Outbox → Type 0
Spares id (now, calls c) o = Unit
Spares id (now, prunes opts) o =
    (d : Delivery)
    → get_delivery_row id o.rows ≡ some d
    → is_due_for_prune (cutoff_of opts now) d ≡ false

unfoldable pub SparesAlways : String → List (ℕ × OutboxWrite) → Outbox → Type 0
SparesAlways id [] o = Unit
SparesAlways id (w ∷ ws) o = Spares id w o × SparesAlways id ws (write_outbox w o)

-- After any claims, renewals, recoveries, settlements, retries, cancellations, restarts and prunes a
-- delivery is still there and has its channel, target, body, key, group and part, and a delivery
-- whose attempts are within its limit stays within it; as long as no prune comes when the delivery
-- has ended and is old enough to be deleted. The ids are a primary key.
pub delivery_for_ever :
    (id : String) (ws : List (ℕ × OutboxWrite)) (o : Outbox) (d : Delivery)
    → IsKeyed o
    → get_delivery_row id o.rows ≡ some d
    → SparesAlways id ws o
    → (e : Delivery) × (get_delivery_row id (write_all ws o).rows ≡ some e) × IsLaterDelivery d e
unfolding write_all SparesAlways
delivery_for_ever id [] o d keys found spared = (d, found, later-Reach d d here)
delivery_for_ever id ((now, calls c) ∷ ws) o d keys found spared =
    let (e, there, reach) = (call-To id (now, c) o).0 d found in
    let (f, last, later) =
      delivery_for_ever id ws (call_outbox (now, c) o) e (call-IsKeyed (now, c) o keys) there
        spared.1 in
    (f, last, later_trans d e f (later-Reach d e reach) later)
delivery_for_ever id ((now, prunes opts) ∷ ws) o d keys found spared =
    let (keys', found') = prune-Spares id d opts now o keys found (spared.0 d found) in
    delivery_for_ever id ws (written o (prune_terminal_deliveries opts now o)) d keys' found'
      spared.1
