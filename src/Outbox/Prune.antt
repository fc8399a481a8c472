-- ===== src/Outbox/Prune.antt =====
-- pruneTerminalDeliveries of delivery-outbox.js, on the deliveries. The attachments go with their
-- delivery, and their files are not modelled.
use Prim.Native.Nat
use Prim.Native.String
use openclaw_scheduler.Base.{
  ℕ, ◌+◌, ◌*◌, Bool, true, false, not, ◌&&◌, List, [], ◌∷◌, Option, none, some, ◌==◌, leb, max,
  if◌then◌else◌, first_by, str_eq, datetime, Result, ok, err, ◌>>=◌, keep, any_of, take, length,
  count_of,
}
use openclaw_scheduler.Outbox.Row.{
  Delivery, DeliveryStatus, DeliveryError, Outbox, bad_limit, bad_retention, prune_mismatch,
}
use openclaw_scheduler.Outbox.Claim.{positive}

-- An option, or the variable of the environment that stands for it.
pub record PruneOpts : Type 0 where
  pub retention_days : Option ℕ
  pub limit : Option ℕ
  pub before : Option ℕ

-- `status IN ('delivered', 'failed', 'cancelled')`
abbrev pub is_terminal : DeliveryStatus → Bool
is_terminal DeliveryStatus.delivered = true
is_terminal DeliveryStatus.failed = true
is_terminal DeliveryStatus.cancelled = true
is_terminal _ = false

abbrev time_or : Option ℕ → ℕ → ℕ
time_or none t = t
time_or (some s) t = s

-- The CASE that a row is judged and ordered by.
abbrev pub ended_at : Delivery → ℕ
ended_at d = elim d.status [
  | DeliveryStatus.delivered ↦ time_or d.delivered_at d.created_at
  | DeliveryStatus.pending ↦ max d.created_at d.next_attempt_at
  | DeliveryStatus.claimed ↦ max d.created_at d.next_attempt_at
  | DeliveryStatus.failed ↦ max d.created_at d.next_attempt_at
  | DeliveryStatus.cancelled ↦ max d.created_at d.next_attempt_at
]

abbrev days_of : Option ℕ → ℕ
days_of none = 30
days_of (some n) = n

-- The cutoff is this second less these milliseconds.
abbrev pub cutoff_of : PruneOpts → ℕ → ℕ × ℕ
cutoff_of opts now = elim opts.before [
  | none ↦ (datetime now, days_of opts.retention_days * 86400000)
  | some t ↦ (datetime t, 0)
]

abbrev pub is_due_for_prune : ℕ × ℕ → Delivery → Bool
is_due_for_prune (at, age) d = is_terminal d.status && leb (ended_at d + age) at

unfoldable pub ends_before : Delivery → Delivery → Bool
ends_before a b =
    first_by (Nat.compare (ended_at a) (ended_at b)) (first_by (String.compare a.id b.id) true)

unfoldable pub insert_ended : Delivery → List Delivery → List Delivery
unfolding ends_before
insert_ended d [] = d ∷ []
insert_ended d (x ∷ xs) =
    let rest = insert_ended d xs in if ends_before d x then d ∷ x ∷ xs else x ∷ rest

unfoldable pub sort_ended : List Delivery → List Delivery
unfolding insert_ended
sort_ended [] = []
sort_ended (d ∷ ds) = insert_ended d (sort_ended ds)

-- The rows that the SELECT finds.
abbrev pub selected_for_prune : ℕ → ℕ × ℕ → List Delivery → List Delivery
selected_for_prune limit cutoff rows = take limit (sort_ended (keep (is_due_for_prune cutoff) rows))

-- The WHERE of the DELETE.
abbrev pub is_selected : List Delivery → Delivery → Bool
is_selected selected d = is_terminal d.status && any_of (λ s. str_eq s.id d.id) selected

-- The transaction, and the number of deleted rows: it throws if it has not deleted each row that it selected.
unfoldable pub prune_selected : List Delivery → Outbox → Result DeliveryError (Outbox × ℕ)
prune_selected selected o =
    if count_of (is_selected selected) o.rows == length selected
    then ok (record o { rows = keep (λ d. not (is_selected selected d)) o.rows }, length selected)
    else err prune_mismatch

unfoldable pub prune_terminal_deliveries :
    PruneOpts → ℕ → Outbox → Result DeliveryError (Outbox × ℕ)
unfolding prune_selected sort_ended
prune_terminal_deliveries opts now o = do
  days ← positive opts.retention_days 30 bad_retention
  limit ← positive opts.limit 500 bad_limit
  prune_selected (selected_for_prune limit (cutoff_of opts now) o.rows) o
