-- ===== src/Outbox/Spared.antt =====
-- A delivery that the prune spares stays as it is (delivery-outbox.js).
use openclaw_scheduler.Base.{
  ℕ, ◌≡◌, refl, String, Bool, true, false, not, List, [], ◌∷◌, map, some, written, written-bind,
  length, ◌==◌, keep, any_of, count_of, All, All-take, arith, Bool-cases, inl, inr, str_eq, eq_iff,
}
use openclaw_scheduler.Base.Table.{find-key, find-keep}
use openclaw_scheduler.Base.Table.Every.{All-passed}
use openclaw_scheduler.Base.Table.Primary.{IsPrimary, All-found}
use openclaw_scheduler.Outbox.Row.{
  Delivery, Outbox, delivery_key, get_delivery_row, bad_retention, bad_limit,
}
use openclaw_scheduler.Outbox.Claim.{positive}
use openclaw_scheduler.Outbox.Prune.{
  PruneOpts, cutoff_of, is_due_for_prune, ends_before, insert_ended, sort_ended, selected_for_prune,
  is_selected, prune_selected, prune_terminal_deliveries,
}

module _ (P : Delivery → Type 0) where
  All-insert_ended :
      (d : Delivery) (ds : List Delivery) → P d → All P ds → All P (insert_ended d ds)
  unfolding insert_ended
  All-insert_ended d [] p h = (p, tt)
  All-insert_ended d (x ∷ xs) p h = elim (Bool-cases (ends_before d x)) [
    | inl e ↦ rw e (p, h)
    | inr e ↦ rw e (h.0, All-insert_ended d xs p h.1)
  ]

  All-sort_ended : (ds : List Delivery) → All P ds → All P (sort_ended ds)
  unfolding sort_ended
  All-sort_ended [] h = tt
  All-sort_ended (d ∷ ds) h = All-insert_ended d (sort_ended ds) h.0 (All-sort_ended ds h.1)

-- The keys of the rows that are left are different too.
keep-IsPrimary :
    (p : Delivery → Bool) (rows : List Delivery)
    → IsPrimary (map delivery_key rows)
    → IsPrimary (map delivery_key (keep p rows))
keep-IsPrimary p [] h = tt
keep-IsPrimary p (d ∷ rows) h = elim (Bool-cases (p d)) [
  | inl e ↦ rw e (apart rows h.0, keep-IsPrimary p rows h.1)
  | inr e ↦ rw e (keep-IsPrimary p rows h.1)
]
  where
    apart :
        (ds : List Delivery)
        → All (λ k. str_eq d.id k ≡ false) (map delivery_key ds)
        → All (λ k. str_eq d.id k ≡ false) (map delivery_key (keep p ds))
    apart [] a = tt
    apart (x ∷ ds) a = elim (Bool-cases (p x)) [
      | inl e ↦ rw e (a.0, apart ds a.1)
      | inr e ↦ rw e (apart ds a.1)
    ]

module _ (j : String) (d : Delivery) (cutoff : ℕ × ℕ)
    (spared : is_due_for_prune cutoff d ≡ false) where
  abbrev IsOther : Delivery → Type 0
  IsOther x = str_eq x.id j ≡ false

  -- A selected row has another id, when ids are a primary key.
  selected-IsOther :
      (limit : ℕ) (rows : List Delivery)
      → IsPrimary (map delivery_key rows)
      → get_delivery_row j rows ≡ some d
      → All IsOther (selected_for_prune limit cutoff rows)
  selected-IsOther limit rows keys found = All-take IsOther limit _ (
      All-sort_ended IsOther _
        (others _ (All-passed _ (is_due_for_prune cutoff) rows (All-found delivery_key rows keys))))
    where
      others :
          (ds : List Delivery)
          → All (λ x. (is_due_for_prune cutoff x ≡ true) × (get_delivery_row x.id rows ≡ some x)) ds
          → All IsOther ds
      others [] h = tt
      others (x ∷ ds) h = (ground (arith, eq_iff x.id j, spared, h.0, found), others ds h.1)

  none_selected :
      (selected : List Delivery)
      → All IsOther selected
      → d.id ≡ j
      → any_of (λ s. str_eq s.id d.id) selected ≡ false
  none_selected [] h named = refl
  none_selected (x ∷ ds) h named = rw named (ground (arith, none_selected ds h.1 named))

-- The ids are different after the prune, and a row that is not due is there as it was.
pub prune-Spares :
    (j : String) (d : Delivery) (opts : PruneOpts) (now : ℕ) (o : Outbox)
    → IsPrimary (map delivery_key o.rows)
    → get_delivery_row j o.rows ≡ some d
    → is_due_for_prune (cutoff_of opts now) d ≡ false
    → let p = written o (prune_terminal_deliveries opts now o) in
      IsPrimary (map delivery_key p.rows) × (get_delivery_row j p.rows ≡ some d)
unfolding prune_terminal_deliveries prune_selected
prune-Spares j d opts now o keys found spared =
    let P =
      λ (p : Outbox). IsPrimary (map delivery_key p.rows) × (get_delivery_row j p.rows ≡ some d) in
    written-bind P o (positive opts.retention_days 30 bad_retention) _ (keys, found)
      λ days _.
        written-bind P o (positive opts.limit 500 bad_limit) _ (keys, found)
          λ limit _. deleted (selected_for_prune limit (cutoff_of opts now) o.rows) (
            none_selected j d (cutoff_of opts now) spared _
              (selected-IsOther j d (cutoff_of opts now) spared limit o.rows keys found)
              (find-key delivery_key j o.rows found))
  where
    deleted :
        (selected : List Delivery)
        → any_of (λ s. str_eq s.id d.id) selected ≡ false
        → let p = written o (prune_selected selected o) in
          IsPrimary (map delivery_key p.rows) × (get_delivery_row j p.rows ≡ some d)
    deleted selected other =
        elim (Bool-cases (count_of (is_selected selected) o.rows == length selected)) [
          | inl e ↦ rw e (
            keep-IsPrimary (λ x. not (is_selected selected x)) o.rows keys,
            find-keep delivery_key j (λ x. not (is_selected selected x)) o.rows found
                (ground arith),
          )
          | inr e ↦ rw e (keys, found)
        ]
