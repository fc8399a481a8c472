-- ===== src/Outbox/Same.antt =====
-- When two requests with one idempotency key are the same (delivery-outbox.js,
-- assertEquivalentIdempotentDelivery).
use openclaw_scheduler.Base.{
  ℕ, ◌≡◌, ◌↔◌, String, true, List, [], ◌∷◌, map, Option, none, some, arith, eq_iff, same_text_iff,
  filled, is_some,
}
use openclaw_scheduler.Outbox.Row.{Delivery}
use openclaw_scheduler.Outbox.Request.{Attachment, Requested}
use openclaw_scheduler.Outbox.Enqueue.{
  same_route, same_origin, same_part, same_completion, new_delivery, same_attachment,
  same_attachments, same_number, is_legacy_upgrade, is_equivalent,
}

abbrev pub identity : Attachment → ℕ × String × Option String × ℕ × String
identity a = (a.ordinal, a.name, filled a.mime_type, a.size_bytes, a.sha256)

-- What a request asks for, without the number of attempts.
abbrev pub substance : Requested → Requested
substance r = record r { max_attempts = 0 }

same_number_iff : (a b : Option ℕ) → (same_number a b ≡ true) ↔ (a ≡ b)
unfolding same_number
same_number_iff none none = ground arith
same_number_iff none (some n) = ground arith
same_number_iff (some m) none = ground arith
same_number_iff (some m) (some n) = ground arith

same_attachment_iff : (a b : Attachment) → (same_attachment a b ≡ true) ↔ (identity a ≡ identity b)
unfolding same_attachment
same_attachment_iff a b = ground (
  arith,
  eq_iff a.name b.name,
  eq_iff a.sha256 b.sha256,
  same_text_iff (filled a.mime_type) (filled b.mime_type),
)

same_attachments_iff :
    (s t : List Attachment) → (same_attachments s t ≡ true) ↔ (map identity s ≡ map identity t)
unfolding same_attachments
same_attachments_iff [] [] = ground arith
same_attachments_iff [] (b ∷ t) = ground arith
same_attachments_iff (a ∷ s) [] = ground arith
same_attachments_iff (a ∷ s) (b ∷ t) =
    ground (arith, same_attachment_iff a b, same_attachments_iff s t)

module _ (r r' : Requested) (at : Option ℕ) (id : String) (now : ℕ) where
  abbrev row : Delivery
  row = new_delivery r at id now

  same_route_iff :
      (same_route row r' ≡ true)
      ↔ ((r.channel ≡ r'.channel) × (r.target ≡ r'.target) × (r.body ≡ r'.body))
  unfolding same_route new_delivery
  same_route_iff =
      ground (arith, eq_iff r.channel r'.channel, eq_iff r.target r'.target, eq_iff r.body r'.body)

  same_origin_iff :
      (same_origin row r' ≡ true)
      ↔ ((r.message_id ≡ r'.message_id) × (r.job_id ≡ r'.job_id) × (r.run_id ≡ r'.run_id))
  unfolding same_origin new_delivery
  same_origin_iff = ground (
    arith,
    same_text_iff r.message_id r'.message_id,
    same_text_iff r.job_id r'.job_id,
    same_text_iff r.run_id r'.run_id,
  )

  -- A row that names its group is no legacy row.
  same_part_iff :
      is_some r.delivery_group_id ≡ true
      → (same_part row r' ≡ true) ↔ (
          (r.delivery_group_id ≡ r'.delivery_group_id)
          × (r.part_index ≡ r'.part_index)
          × (r.part_count ≡ r'.part_count))
  unfolding same_part new_delivery is_legacy_upgrade
  same_part_iff grouped = ground (
    arith,
    same_text_iff r.delivery_group_id r'.delivery_group_id,
    same_number_iff r.part_index r'.part_index,
    same_number_iff r.part_count r'.part_count,
  )

  same_completion_iff :
      (same_completion row r' ≡ true)
      ↔ ((r.completion_label ≡ r'.completion_label) × (r.completion_scope ≡ r'.completion_scope))
  unfolding same_completion new_delivery
  same_completion_iff = ground (
    arith,
    same_text_iff r.completion_label r'.completion_label,
    same_text_iff r.completion_scope r'.completion_scope,
  )

  pub is_equivalent_iff :
      (s t : List Attachment)
      → is_some r.delivery_group_id ≡ true
      → r.idempotency_key ≡ r'.idempotency_key
      → (is_equivalent row r' s t ≡ true)
        ↔ ((substance r ≡ substance r') × (map identity s ≡ map identity t))
  unfolding is_equivalent
  is_equivalent_iff s t grouped keys =
      let part = same_part_iff grouped in
      let files = same_attachments_iff s t in
      let route = same_route_iff in
      let origin = same_origin_iff in
      let completion = same_completion_iff in (λ e. ground arith, λ (e, f). ground arith)
