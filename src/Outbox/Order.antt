-- ===== src/Outbox/Order.antt =====
-- Parts of a group are claimed in order (claimDueDeliveries of delivery-outbox.js).
use openclaw_scheduler.Base.{
  ℕ, ◌+◌, ◌≤◌, ◌≡◌, refl, ◌∙◌, subst, String, Bool, true, false, not, ◌&&◌, ◌||◌, List, [], ◌∷◌,
  map, Option, none, some, ok, >>=-eq-ok, All, All-take, keep, leb, ltb, holds_text, arith,
  Bool-cases, inl, inr, datetime,
}
use openclaw_scheduler.Base.Table.Primary.{IsPrimary, All-found}
use openclaw_scheduler.Outbox.Row.{
  Delivery, DeliveryStatus, Outbox, delivery_key, get_delivery_row, is_delivered, is_before,
}
use openclaw_scheduler.Outbox.Recover.{recover_expired_claims, time_of}
use openclaw_scheduler.Outbox.Claim.{
  ClaimOpts, in_turn_at, is_in_turn, is_candidate, sort_candidates, insert_candidate, comes_before,
  claim_due, claim_due_deliveries, fail_all_exhausted, check_owner, check_limit, check_lease,
}
use openclaw_scheduler.Outbox.Calls.{recover-To, exhaust-To}
use openclaw_scheduler.Outbox.InTurn.{IsReady, IsClaim, candidates-IsClaim}

-- A numbered part of the same group that comes before this one.
abbrev pub same_group : Option String → Option String → Bool
same_group (some g) h = holds_text h g
same_group none h = false

abbrev pub earlier : Option ℕ → Option ℕ → Bool
earlier (some i) (some k) = leb 1 k && ltb k i
earlier _ _ = false

abbrev pub is_earlier_part : Delivery → Delivery → Bool
is_earlier_part d e =
    same_group d.delivery_group_id e.delivery_group_id && earlier d.part_index e.part_index

-- Every earlier part of its group is delivered.
abbrev pub IsInOrder : List Delivery → Delivery → Type 0
IsInOrder rows d = All (λ e. (not (is_earlier_part d e) || is_delivered e.status) ≡ true) rows

earlier-before :
    (i : ℕ) (k : Option ℕ) → earlier (some i) k ≡ true → (is_before k i ≡ true) × (leb i 1 ≡ false)
earlier-before i none h = cc
earlier-before i (some k) h = ground arith

module _ (d : Delivery) where
  unblocked :
      (g : Option String) (i : Option ℕ) (rows : List Delivery)
      → d.delivery_group_id ≡ g
      → d.part_index ≡ i
      → in_turn_at rows g i ≡ true
      → IsInOrder rows d
  unblocked g i [] eg ei h = tt
  unblocked none i (e ∷ rows) eg ei h = (rw eg refl, unblocked none i rows eg ei refl)
  unblocked (some g) none (e ∷ rows) eg ei h =
      (rw (eg, ei) (ground arith), unblocked (some g) none rows eg ei refl)
  unblocked (some g) (some i) (e ∷ rows) eg ei h = (
    rw (eg, ei) (ground (arith, earlier-before i e.part_index)),
    unblocked (some g) (some i) rows eg ei (ground arith),
  )

All-insert :
    (P : Delivery → Type 0) (d : Delivery) (ds : List Delivery)
    → P d
    → All P ds
    → All P (insert_candidate d ds)
unfolding insert_candidate
All-insert P d [] h k = (h, tt)
All-insert P d (x ∷ xs) h k = elim (Bool-cases (comes_before d x)) [
  | inl e ↦ rw e (h, k)
  | inr e ↦ rw e (k.0, All-insert P d xs h k.1)
]

All-sort : (P : Delivery → Type 0) (ds : List Delivery) → All P ds → All P (sort_candidates ds)
unfolding sort_candidates
All-sort P [] h = tt
All-sort P (d ∷ ds) h = All-insert P d (sort_candidates ds) h.0 (All-sort P ds h.1)

-- The candidates of a table whose keys are primary are ready.
found-IsReady :
    (fresh : ℕ → String) (owner : String) (at until : ℕ) (channel target : Option String)
    (rows cs : List Delivery)
    → All (λ r. get_delivery_row r.id rows ≡ some r) cs
    → All (IsReady fresh owner at until rows) (keep (is_candidate at channel target rows) cs)
unfolding is_candidate
found-IsReady fresh owner at until channel target rows [] h = tt
found-IsReady fresh owner at until channel target rows (c ∷ cs) h =
    let rest = found-IsReady fresh owner at until channel target rows cs h.1 in
    elim (Bool-cases (is_candidate at channel target rows c)) [
      | inl e ↦ rw e ((λ x found. ground arith), rest)
      | inr e ↦ rw e rest
    ]

abbrev IsOrderly : List Delivery → Delivery → Type 0
IsOrderly rows d =
    (d.status ≡ DeliveryStatus.claimed) × (d.attempt_count ≤ d.max_attempts) × IsInOrder rows d

All-IsOrderly :
    (fresh : ℕ → String) (owner : String) (at until : ℕ) (rows claimed : List Delivery)
    → All (IsClaim fresh owner at until rows) claimed
    → All (IsOrderly rows) claimed
unfolding is_in_turn
All-IsOrderly fresh owner at until rows [] h = tt
All-IsOrderly fresh owner at until rows (d ∷ ds) h = (
  (h.0.1, h.0.2, unblocked d d.delivery_group_id d.part_index rows refl refl h.0.0),
  All-IsOrderly fresh owner at until rows ds h.1,
)

claim_due-IsOrderly :
    (opts : ClaimOpts) (owner : String) (limit at until : ℕ) (fresh : ℕ → String) (now : ℕ)
    (o : Outbox)
    → IsPrimary (map delivery_key o.rows)
    → let (after, claimed) = claim_due opts owner limit at until fresh now o in
      All (IsOrderly after.rows) claimed
unfolding claim_due
claim_due-IsOrderly opts owner limit at until fresh now o primary =
    let recovered = recover_expired_claims at now o in
    let rows = (fail_all_exhausted at now recovered).rows in
    let keys = (exhaust-To "" at now recovered).1 ∙ (recover-To "" at now o).1 in
    let found = All-found delivery_key rows (rw keys primary) in
    let ready = found-IsReady fresh owner at until opts.channel opts.target rows rows found in
    let sorted = All-sort (IsReady fresh owner at until rows) _ ready in
    All-IsOrderly fresh owner at until _ _ (
      candidates-IsClaim fresh owner at until 0 _ rows
        (All-take (IsReady fresh owner at until rows) limit _ sorted))

-- The claims of claimDueDeliveries respect the order of a multipart delivery: if the ids of the
-- table are primary keys, each delivery that it returns is claimed, has not more attempts than its
-- limit, and every numbered part before it in its group is delivered.
pub claims-IsInOrder :
    (opts : ClaimOpts) (fresh : ℕ → String) (now : ℕ) (o o' : Outbox) (claimed : List Delivery)
    → IsPrimary (map delivery_key o.rows)
    → claim_due_deliveries opts fresh now o ≡ ok (o', claimed)
    → All
        (λ d.
          (d.status ≡ DeliveryStatus.claimed)
          × (d.attempt_count ≤ d.max_attempts)
          × IsInOrder o'.rows d)
        claimed
unfolding claim_due_deliveries
claims-IsInOrder opts fresh now o o' claimed primary h =
    let (owner, _, h1) = >>=-eq-ok (check_owner opts) _ h in
    let (limit, _, h2) = >>=-eq-ok (check_limit opts) _ h1 in
    let (lease, _, h3) = >>=-eq-ok (check_lease opts.lease_ms) _ h2 in
    let at = time_of opts.now now in
    let result = claim_due opts owner limit (datetime at) (datetime (at + lease)) fresh now o in
    let is : result ≡ (o', claimed) = ground arith in
    subst (λ p. All (IsOrderly p.0.rows) p.1) is
      (claim_due-IsOrderly opts owner limit (datetime at) (datetime (at + lease)) fresh now o
        primary)
