-- ===== src/Outbox/InTurn.antt =====
-- A claim keeps every other delivery in turn (claimCandidates of delivery-outbox.js).
use mathlib.Core.Option
use openclaw_scheduler.Base.{
  ℕ, ◌+◌, ◌≤◌, ◌≡◌, refl, ◌∙◌, ap, sym, String, true, List, [], ◌∷◌, Option, none, some, All,
  any_of, arith, Bool-cases, Option-cases, inl, inr, str_eq, eq_iff,
}
use openclaw_scheduler.Base.Table.{
  modify, patch, returning, returning-some, find-modify, find-modify_ne,
}
use openclaw_scheduler.Outbox.Row.{Delivery, DeliveryStatus, delivery_key, get_delivery_row}
use openclaw_scheduler.Outbox.Claim.{
  blocks, in_turn_at, is_in_turn, may_claim, claim_row, claim_candidates,
}

-- A claim changes nothing that the order depends on.
claim-blocks :
    (g : String) (i : ℕ) (k : String) (at : ℕ) (owner token : String) (until : ℕ)
    (rows : List Delivery)
    → any_of (blocks g i) (modify delivery_key k (may_claim at) (claim_row owner token until) rows)
      ≡ any_of (blocks g i) rows
unfolding modify
claim-blocks g i k at owner token until [] = refl
claim-blocks g i k at owner token until (x ∷ rows) =
    ground (arith, claim-blocks g i k at owner token until rows)

in_turn-claim :
    (d : Delivery) (g : Option String) (i : Option ℕ) (k : String) (at : ℕ) (owner token : String)
    (until : ℕ) (rows : List Delivery)
    → in_turn_at (modify delivery_key k (may_claim at) (claim_row owner token until) rows) g i
      ≡ in_turn_at rows g i
in_turn-claim d none i k at owner token until rows = refl
in_turn-claim d (some g) none k at owner token until rows = refl
in_turn-claim d (some g) (some i) k at owner token until rows =
    rw (claim-blocks g i k at owner token until rows) refl

module _ (fresh : ℕ → String) (owner : String) (at until : ℕ) where
  abbrev pub after : ℕ → List Delivery → List Delivery → List Delivery
  after n ds rows = (claim_candidates fresh n owner at until ds rows).0

  in_turn-claims :
      (d : Delivery) (n : ℕ) (ds rows : List Delivery)
      → is_in_turn (after n ds rows) d ≡ is_in_turn rows d
  unfolding claim_candidates is_in_turn
  in_turn-claims d n [] rows = refl
  in_turn-claims d n (c ∷ ds) rows =
      in_turn-claims d (n + 1) ds
        (modify delivery_key c.id (may_claim at) (claim_row owner (fresh n) until) rows)
      ∙ in_turn-claim d d.delivery_group_id d.part_index c.id at owner (fresh n) until rows

  -- The row that a candidate's key finds is in turn.
  abbrev pub IsReady : List Delivery → Delivery → Type 0
  IsReady rows c = (x : Delivery) → get_delivery_row c.id rows ≡ some x → is_in_turn rows x ≡ true

  patched-in_turn :
      (token : String) (rows : List Delivery) (o : Option Delivery) (x : Delivery)
      → ((y : Delivery) → o ≡ some y → is_in_turn rows y ≡ true)
      → Option.map (patch (may_claim at) (claim_row owner token until)) o ≡ some x
      → in_turn_at rows x.delivery_group_id x.part_index ≡ true
  unfolding is_in_turn
  patched-in_turn token rows none x ready e = cc
  patched-in_turn token rows (some y) x ready e = elim (Bool-cases (may_claim at y)) [
    | inl may ↦ ground (arith, ready y refl)
    | inr barred ↦ ground (arith, ready y refl)
  ]

  claim-IsReady :
      (c : Delivery) (k token : String) (rows : List Delivery)
      → IsReady rows c
      → IsReady (modify delivery_key k (may_claim at) (claim_row owner token until) rows) c
  unfolding is_in_turn
  claim-IsReady c k token rows ready x found =
      in_turn-claim x x.delivery_group_id x.part_index k at owner token until rows
      ∙ elim (Bool-cases (str_eq c.id k)) [
        | inl same ↦
            let k_is : c.id ≡ k = (eq_iff c.id k).0 same in
            let law =
              ap
                (λ i.
                  get_delivery_row i
                    (modify delivery_key k (may_claim at) (claim_row owner token until) rows))
                k_is
              ∙ find-modify delivery_key (claim_row owner token until) (λ y. refl) k (may_claim at)
                  rows
              ∙ ap
                  (λ i.
                    Option.map (patch (may_claim at) (claim_row owner token until))
                      (get_delivery_row i rows))
                  (sym k_is) in
            patched-in_turn token rows (get_delivery_row c.id rows) x ready (sym law ∙ found)
        | inr other ↦ ready x (
            sym (
              find-modify_ne delivery_key (claim_row owner token until) (λ y. refl) c.id k
                (may_claim at) rows (λ e. ground (arith, eq_iff c.id k)))
            ∙ found)
      ]

  claims-IsReady :
      (k token : String) (rows ds : List Delivery)
      → All (IsReady rows) ds
      → All (IsReady (modify delivery_key k (may_claim at) (claim_row owner token until) rows)) ds
  claims-IsReady k token rows [] h = tt
  claims-IsReady k token rows (c ∷ ds) h =
      (claim-IsReady c k token rows h.0, claims-IsReady k token rows ds h.1)

  -- What is claimed is in turn, claimed, and within its attempts.
  abbrev pub IsClaim : List Delivery → Delivery → Type 0
  IsClaim rows c =
      (is_in_turn rows c ≡ true)
      × (c.status ≡ DeliveryStatus.claimed)
      × (c.attempt_count ≤ c.max_attempts)

  pub candidates-IsClaim :
      (n : ℕ) (ds rows : List Delivery)
      → All (IsReady rows) ds
      → All (IsClaim (after n ds rows)) (claim_candidates fresh n owner at until ds rows).1
  unfolding claim_candidates is_in_turn
  candidates-IsClaim n [] rows h = tt
  candidates-IsClaim n (c ∷ ds) rows h =
      let rows' : List Delivery =
        modify delivery_key c.id (may_claim at) (claim_row owner (fresh n) until) rows in
      let rest = candidates-IsClaim (n + 1) ds rows' (claims-IsReady c.id (fresh n) rows ds h.1) in
      elim (Option-cases
        (returning delivery_key c.id (may_claim at) (claim_row owner (fresh n) until) rows)) [
          | inl skipped ↦ rw skipped rest
          | inr (r, taken) ↦
              let (x, found, may, r_is, now_is) =
                returning-some delivery_key (claim_row owner (fresh n) until) (λ y. refl) c.id
                  (may_claim at) rows taken in
              rw taken (
                (
                  in_turn-claims r (n + 1) ds rows'
                      ∙ in_turn-claim r r.delivery_group_id r.part_index c.id at owner (fresh n)
                          until rows
                      ∙ rw r_is (h.0 x found),
                  rw r_is refl,
                  rw r_is (ground arith),
                ),
                rest,
              )
        ]
