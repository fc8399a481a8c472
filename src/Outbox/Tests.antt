-- ===== src/Outbox/Tests.antt =====
-- The outbox at concrete inputs.
use openclaw_scheduler.Base.{
  ℕ, ◌≤◌, ◌≡◌, ◌↔◌, refl, String, true, List, [], ◌∷◌, none, some, All, any_of, arith, eq_iff,
  datetime, is_blank, trim, holds_text,
}
use openclaw_scheduler.Base.Table.{find, modify, returning}
use openclaw_scheduler.Outbox.Row.{
  Delivery, DeliveryStatus, Debt, DebtStatus, Outbox, get_delivery_row,
}
use openclaw_scheduler.Outbox.Debt.{Completion, is_part_of, is_failed_part, reconcile, is_debt_of}
use openclaw_scheduler.Outbox.Recover.{recover_expired_claims, recover_each}
use openclaw_scheduler.Outbox.Claim.{
  ClaimOpts, claim_due_deliveries, claim_due, fail_all_exhausted, stop_each, is_candidate,
  is_in_turn, sort_candidates, insert_candidate, claim_candidates, check_owner, check_limit,
  check_lease,
}
use openclaw_scheduler.Outbox.Prune.{PruneOpts}
use openclaw_scheduler.Outbox.Writes.{
  claims_due, marks_retry, cancels_run, restarts_failed, marks_delivered, OutboxWrite, calls,
  prunes, write_all, IsKeyed,
}
use openclaw_scheduler.Outbox.Invariants.{
  SparesAlways, IsLaterDelivery, delivered_for_ever, delivery_for_ever,
}
use openclaw_scheduler.Outbox.Finish.{unset}
use openclaw_scheduler.Outbox.Order.{IsInOrder, claims-IsInOrder}
use openclaw_scheduler.Outbox.Settled.{debt_key, IsAllDelivered, debt_follows_parts}

abbrev first_part : Delivery
first_part = record {
  id = "d1";
  message_id = none;
  job_id = some "j";
  run_id = some "r";
  channel = "telegram";
  target = "ops";
  body = "[1/2] a";
  status = DeliveryStatus.delivered;
  idempotency_key = some "k:part:1/2";
  delivery_group_id = some "k";
  part_index = some 1;
  part_count = some 2;
  completion_label = some "task";
  completion_scope = some "scope";
  attempt_count = 1;
  max_attempts = 5;
  next_attempt_at = 1000;
  claim_owner = none;
  claim_token = none;
  claim_expires_at = none;
  last_error = none;
  created_at = 1000;
  delivered_at = some 2000;
}

abbrev second_part : Delivery
second_part = record first_part {
  id = "d2";
  body = "[2/2] b";
  status = DeliveryStatus.pending;
  idempotency_key = some "k:part:2/2";
  part_index = some 2;
  attempt_count = 0;
  delivered_at = none;
}

abbrev debt : Debt
debt = record {
  id = "c";
  task_label = "task";
  delivery_scope = "scope";
  status = DebtStatus.delivering;
  open_reason = none;
  close_reason = none;
  opened_at = none;
  closed_at = none;
  final_reported_at = none;
  last_visible_update_at = none;
  updated_at = 1000;
}

abbrev tables : Outbox
tables = record { rows = first_part ∷ second_part ∷ []; debts = debt ∷ [] }

abbrev worker : ClaimOpts
worker = record {
  owner = some "w";
  limit = none;
  lease_ms = none;
  now = none;
  channel = none;
  target = none;
}

abbrev tokens : ℕ → String
tokens n = "t"

-- A week after the deliveries nothing is pruned, by the 30 days of the source.
abbrev week_later : PruneOpts
week_later = record { retention_days = none; limit = none; before = none }

abbrev history : List (ℕ × OutboxWrite)
history =
    (3000, calls (claims_due worker tokens))
    ∷ (4000, calls (marks_retry "d2" (some "t") none unset))
    ∷ (5000, calls (cancels_run "r" none))
    ∷ (6000, calls (marks_delivered "d1" (some "t")))
    ∷ (7000, calls (restarts_failed "d1" none true none))
    ∷ (604800000, prunes week_later)
    ∷ []

tables-IsKeyed : IsKeyed tables
tables-IsKeyed = ((ground (arith, eq_iff "d1" "d2"), tt), (tt, tt))

delivered_for_ever_example : get_delivery_row "d1" (write_all history tables).rows ≡ some first_part
unfolding find datetime
delivered_for_ever_example =
    delivered_for_ever "d1" history tables first_part tables-IsKeyed refl refl
      (tt, (tt, (tt, (tt, (tt, (refl, tt))))))

-- A prune at the beginning finds the second part pending.
abbrev early : List (ℕ × OutboxWrite)
early = (604800000, prunes week_later) ∷ (604801000, calls (claims_due worker tokens)) ∷ []

spares_second : SparesAlways "d2" early tables
unfolding SparesAlways find
spares_second = (λ d e. ground arith, (tt, tt))

delivery_for_ever_example :
    (e : Delivery) × (get_delivery_row "d2" (write_all early tables).rows ≡ some e)
    × IsLaterDelivery second_part e
unfolding find
delivery_for_ever_example =
    delivery_for_ever "d2" early tables second_part tables-IsKeyed refl spares_second

abbrev claimed_part : Delivery
claimed_part = record second_part {
  status = DeliveryStatus.claimed;
  attempt_count = 1;
  claim_owner = some "w";
  claim_token = some "t";
  claim_expires_at = some 123000;
}

abbrev claimed_tables : Outbox
claimed_tables = record tables { rows = first_part ∷ claimed_part ∷ [] }

claims-IsInOrder_example :
    All
      (λ d.
        (d.status ≡ DeliveryStatus.claimed)
        × (d.attempt_count ≤ d.max_attempts)
        × IsInOrder claimed_tables.rows d)
      (claimed_part ∷ [])
unfolding claim_due_deliveries claim_due check_owner check_limit check_lease is_blank trim datetime
    recover_expired_claims recover_each fail_all_exhausted stop_each is_candidate is_in_turn
    sort_candidates insert_candidate claim_candidates find modify returning holds_text
claims-IsInOrder_example =
    claims-IsInOrder worker tokens 3000 tables claimed_tables (claimed_part ∷ [])
      ((ground (arith, eq_iff "d1" "d2"), tt), (tt, tt)) refl

abbrev completion : Completion
completion = record { label = "task"; scope = "scope" }

debt_follows_parts_example :
    (e : Debt) × (find debt_key "c" (reconcile (some completion) 8000 tables).debts ≡ some e)
    × ((e.status ≡ DebtStatus.closed) ↔ (
        (any_of (is_part_of completion) tables.rows ≡ true)
        × IsAllDelivered completion tables.rows))
    × ((e.status ≡ DebtStatus.opened) ↔ (
        (any_of (is_failed_part completion) tables.rows ≡ true)
        × ¬ (
            (any_of (is_part_of completion) tables.rows ≡ true)
            × IsAllDelivered completion tables.rows)))
unfolding find is_debt_of
debt_follows_parts_example = debt_follows_parts completion "c" 8000 tables debt refl refl
