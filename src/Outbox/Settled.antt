-- ===== src/Outbox/Settled.antt =====
-- When a completion debt is closed (reconcileCompletionDebt of delivery-outbox.js).
use openclaw_scheduler.Base.{
  ℕ, ◌≤◌, ◌≡◌, ◌↔◌, refl, ◌∙◌, String, Bool, true, false, not, ◌||◌, List, [], ◌∷◌, some, ◌==◌, All,
  any_of, count_of, arith,
}
use openclaw_scheduler.Base.Table.{find, find-update_where}
use openclaw_scheduler.Outbox.Row.{Delivery, Debt, DebtStatus, Outbox, is_delivered}
use openclaw_scheduler.Outbox.Debt.{
  Completion, is_part_of, is_delivered_part, is_failed_part, debt_verdict, reconcile, is_debt_of,
  mark_debt, reason_of,
}

abbrev pub debt_key : Debt → String
debt_key d = d.id

module _ (c : Completion) where
  -- Every part of the completion is delivered.
  abbrev pub IsAllDelivered : List Delivery → Type 0
  IsAllDelivered rows = All (λ d. (not (is_part_of c d) || is_delivered d.status) ≡ true) rows

  delivered-le :
      (rows : List Delivery) → count_of (is_delivered_part c) rows ≤ count_of (is_part_of c) rows
  delivered-le [] = omega arith
  delivered-le (d ∷ rows) = ground (arith, delivered-le rows)

  count-IsAllDelivered :
      (rows : List Delivery)
      → (count_of (is_delivered_part c) rows ≡ count_of (is_part_of c) rows) ↔ IsAllDelivered rows
  count-IsAllDelivered [] = ground arith
  count-IsAllDelivered (d ∷ rows) = ground (arith, delivered-le rows, count-IsAllDelivered rows)

  count-any_of :
      (p : Delivery → Bool) (rows : List Delivery)
      → ((count_of p rows == 0) ≡ false) ↔ (any_of p rows ≡ true)
  count-any_of p [] = ground arith
  count-any_of p (d ∷ rows) = ground (arith, count-any_of p rows)

  closed_iff :
      (rows : List Delivery)
      → (debt_verdict c rows ≡ DebtStatus.closed)
        ↔ ((any_of (is_part_of c) rows ≡ true) × IsAllDelivered rows)
  unfolding debt_verdict
  closed_iff rows = ground (arith, count-any_of (is_part_of c) rows, count-IsAllDelivered rows)

  opened_iff :
      (rows : List Delivery)
      → (debt_verdict c rows ≡ DebtStatus.opened) ↔ (
          (any_of (is_failed_part c) rows ≡ true)
          × ¬ ((any_of (is_part_of c) rows ≡ true) × IsAllDelivered rows))
  unfolding debt_verdict
  opened_iff rows = ground (
    arith,
    count-any_of (is_part_of c) rows,
    count-any_of (is_failed_part c) rows,
    count-IsAllDelivered rows,
  )

-- After a reconciliation, the debt of the completion is closed exactly if the completion has parts
-- and all of them are delivered, and otherwise it is open exactly if a part failed or was
-- cancelled.
pub debt_follows_parts :
    (c : Completion) (id : String) (now : ℕ) (o : Outbox) (d : Debt)
    → find debt_key id o.debts ≡ some d
    → is_debt_of c d ≡ true
    → (e : Debt) × (find debt_key id (reconcile (some c) now o).debts ≡ some e)
      × ((e.status ≡ DebtStatus.closed)
          ↔ ((any_of (is_part_of c) o.rows ≡ true) × IsAllDelivered c o.rows))
      × ((e.status ≡ DebtStatus.opened) ↔ (
          (any_of (is_failed_part c) o.rows ≡ true)
          × ¬ ((any_of (is_part_of c) o.rows ≡ true) × IsAllDelivered c o.rows)))
unfolding reconcile
debt_follows_parts c id now o d found same =
    let status = debt_verdict c o.rows in
    let f = mark_debt status (reason_of status) now in
    (
      f d,
      find-update_where debt_key f (λ x. refl) id (is_debt_of c) o.debts ∙ rw found (rw same),
      closed_iff c o.rows,
      opened_iff c o.rows,
    )
