-- ===== src/Outbox/Keyed.antt =====
-- An idempotency key names one delivery (delivery-outbox.js, enqueueDelivery).
use openclaw_scheduler.Base.{
  ℕ, ◌≡◌, refl, sym, ◌∙◌, subst, String, Bool, true, false, ◌↔◌, ◌⊎◌, List, [], ◌∷◌, ◌++◌, map,
  none, some, Result, ok, err, is_some, inl, inr, if◌then◌else◌, All, keep, sort_by, arith, str_eq,
  eq_iff, holds_text_iff,
}
use openclaw_scheduler.Outbox.Row.{Delivery, get_delivery_row}
use openclaw_scheduler.Outbox.Same.{identity, substance, is_equivalent_iff}
use openclaw_scheduler.Outbox.Request.{
  Attachment, StoredAttachment, DeliveryTables, EnqueueOpts, idempotency_collision, Requested,
  EnqueueError, requested_of,
}
use openclaw_scheduler.Outbox.Enqueue.{
  Enqueued, new_delivery, find_keyed, list_delivery_attachments, is_equivalent, stored_for,
  find_existing, is_part_taken, has_references, is_attachment_taken, insert_beside, insert_delivery,
  enqueue_delivery,
}

find_keyed-append :
    (k : String) (t : List Delivery) (d : Delivery)
    → find_keyed k t ≡ none
    → d.idempotency_key ≡ some k
    → find_keyed k (t ++ d ∷ []) ≡ some d
unfolding find_keyed
find_keyed-append k [] d h key = ground (arith, holds_text_iff d.idempotency_key k)
find_keyed-append k (x ∷ t) d h key = ground (arith, find_keyed-append k t d)

module _ (id : String) where
  abbrev is_of : StoredAttachment → Bool
  is_of s = str_eq s.outbox_id id

  keep-stored :
      (d : Delivery) (staged : List Attachment)
      → d.id ≡ id
      → map (λ s. s.attachment) (keep is_of (map (stored_for d) staged)) ≡ staged
  keep-stored d [] same = refl
  keep-stored d (a ∷ staged) same = ground (arith, eq_iff d.id id, keep-stored d staged same)

  keep-append_none :
      (s t : List StoredAttachment)
      → All (λ x. str_eq x.outbox_id id ≡ false) s
      → keep is_of (s ++ t) ≡ keep is_of t
  keep-append_none [] t h = refl
  keep-append_none (x ∷ s) t h = rw h.0 (keep-append_none s t h.1)

  -- What was stored is listed again, in the order of its ordinals.
  listed :
      (d : Delivery) (s : List StoredAttachment) (staged : List Attachment)
      → d.id ≡ id
      → All (λ x. str_eq x.outbox_id id ≡ false) s
      → sort_by (λ (a : Attachment). a.ordinal) staged ≡ staged
      → list_delivery_attachments id (s ++ map (stored_for d) staged) ≡ staged
  unfolding list_delivery_attachments
  listed d s staged same apart sorted =
      rw (keep-append_none s (map (stored_for d) staged) apart, keep-stored d staged same) sorted

inserted :
    (r : Requested) (d : Delivery) (k : String) (staged : List Attachment) (t : DeliveryTables)
    → d.idempotency_key ≡ some k
    → find_keyed k t.deliveries ≡ none
    → get_delivery_row d.id t.deliveries ≡ none
    → is_part_taken d.delivery_group_id d.part_index t.deliveries ≡ false
    → has_references d t ≡ true
    → is_attachment_taken d staged t.attachments ≡ false
    → insert_delivery d r staged t
      ≡ ok (
        record t {
          deliveries = t.deliveries ++ d ∷ [];
          attachments = t.attachments ++ map (stored_for d) staged;
        },
        record { id = d.id; deduped = false },
      )
unfolding insert_delivery insert_beside
inserted r d k staged t key new free part refers files =
    let absent : find_existing d.idempotency_key t.deliveries ≡ none =
      subst (λ o. find_existing o t.deliveries ≡ none) (sym key) new in
    rw absent (rw free (rw (part, refers, files) refl))

found_again :
    (r : Requested) (d x : Delivery) (k : String) (has staged : List Attachment)
    (t : DeliveryTables)
    → d.idempotency_key ≡ some k
    → find_keyed k t.deliveries ≡ some x
    → list_delivery_attachments x.id t.attachments ≡ has
    → insert_delivery d r staged t ≡ (
        if is_equivalent x r has staged
        then ok (t, record { id = x.id; deduped = true })
        else err idempotency_collision)
unfolding insert_delivery insert_beside
found_again r d x k has staged t key there lists =
    let present : find_existing d.idempotency_key t.deliveries ≡ some x =
      subst (λ o. find_existing o t.deliveries ≡ some x) (sym key) there in
    rw present (rw lists refl)

-- An answer is the row's id or the error, as the Boolean says.
answer_iff :
    (b : Bool) (t : DeliveryTables) (e : Enqueued)
    (x : Result EnqueueError (DeliveryTables × Enqueued))
    → x ≡ (if b then ok (t, e) else err idempotency_collision)
    → ((x ≡ ok (t, e)) ↔ (b ≡ true)) × ((x ≡ ok (t, e)) ⊎ (x ≡ err idempotency_collision))
answer_iff true t e x h = ((λ p. refl, λ p. h), inl h)
answer_iff false t e x h = ((λ p. cc, λ p. cc), inr h)

-- A valid request that names its group, with a new key, a part of the group that is free, and a
-- message, a job and a run that are there if it names them, inserts one row, under a new id and
-- without attachments of old; its own attachments have new ids, and ordinals of their own. When the next request comes to the tables that it leaves, a valid one
-- with the same key writes nothing, whatever its time and its generated id: it is answered with
-- that row exactly when it asks for the same, its attachments included, in all but the number of
-- attempts, and fails as a collision otherwise. The attachments are staged in the order of their
-- ordinals.
pub enqueue_once :
    (opts opts' : EnqueueOpts) (r r' : Requested) (k id id' : String) (now now' : ℕ)
    (staged staged' : List Attachment) (t : DeliveryTables)
    → requested_of opts staged ≡ ok r
    → r.idempotency_key ≡ some k
    → is_some r.delivery_group_id ≡ true
    → find_keyed k t.deliveries ≡ none
    → get_delivery_row id t.deliveries ≡ none
    → is_part_taken r.delivery_group_id r.part_index t.deliveries ≡ false
    → has_references (new_delivery r opts.next_attempt_at id now) t ≡ true
    → is_attachment_taken (new_delivery r opts.next_attempt_at id now) staged t.attachments ≡ false
    → All (λ s. str_eq s.outbox_id id ≡ false) t.attachments
    → sort_by (λ (a : Attachment). a.ordinal) staged ≡ staged
    → requested_of opts' staged' ≡ ok r'
    → r'.idempotency_key ≡ some k
    → (t1 : DeliveryTables) × (enqueue_delivery opts id now staged t
        ≡ ok (t1, record { id = id; deduped = false }))
      × (t1.deliveries ≡ t.deliveries ++ new_delivery r opts.next_attempt_at id now ∷ [])
      × (list_delivery_attachments id t1.attachments ≡ staged)
      × ((enqueue_delivery opts' id' now' staged' t1 ≡ ok (t1, record { id = id; deduped = true }))
          ↔ ((substance r ≡ substance r') × (map identity staged ≡ map identity staged')))
      × ((enqueue_delivery opts' id' now' staged' t1 ≡ ok (t1, record { id = id; deduped = true }))
          ⊎ (enqueue_delivery opts' id' now' staged' t1 ≡ err idempotency_collision))
unfolding enqueue_delivery new_delivery
enqueue_once opts opts' r r' k id id' now now' staged staged' t valid key grouped new free part
      refers files apart sorted valid' key' =
    let d : Delivery = new_delivery r opts.next_attempt_at id now in
    let t1 : DeliveryTables = record t {
      deliveries = t.deliveries ++ d ∷ [];
      attachments = t.attachments ++ map (stored_for d) staged;
    } in
    let there : find_keyed k t1.deliveries ≡ some d = find_keyed-append k t.deliveries d new key in
    let lists : list_delivery_attachments d.id t1.attachments ≡ staged =
      listed id d t.attachments staged refl apart sorted in
    let answered =
      answer_iff (is_equivalent d r' staged staged') t1 (record { id = id; deduped = true })
        (enqueue_delivery opts' id' now' staged' t1)
        (rw valid' (
          found_again r' (new_delivery r' opts'.next_attempt_at id' now') d k staged staged' t1 key'
            there lists)) in
    let same =
      is_equivalent_iff r r' opts.next_attempt_at id now staged staged' grouped (key ∙ sym key') in
    (
      t1,
      rw valid (inserted r d k staged t key new free part refers files),
      refl,
      lists,
      (λ p. same.0 (answered.0.0 p), λ p. answered.0.1 (same.1 p)),
      answered.1,
    )
