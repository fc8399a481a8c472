-- ===== src/Outbox/Enqueue.antt =====
-- enqueueDelivery: the insertion by idempotency key, and the comparison of a repeated request
-- (delivery-outbox.js). `staged` is what stageDeliveryAttachments makes of the attachments, whose
-- files are not modelled.
use openclaw_scheduler.Base.{
  ℕ, String, Bool, true, false, ◌&&◌, ◌||◌, List, [], ◌∷◌, ◌++◌, map, Option, none, some, ◌==◌,
  if◌then◌else◌, is_some, is_none, same_text, holds_text, filled, datetime, str_eq, Result, ok, err,
  ◌>>=◌, keep, sort_by, any_of, not,
}
use openclaw_scheduler.Outbox.Row.{Delivery, DeliveryStatus, get_delivery_row}
use openclaw_scheduler.Outbox.Recover.{time_of}
use openclaw_scheduler.Outbox.Request.{
  idempotency_collision, id_taken, part_taken, no_reference, attachment_taken, Attachment,
  DeliveryTables, EnqueueError, EnqueueOpts, Requested, StoredAttachment, requested_of,
}

-- The row of the INSERT
unfoldable pub new_delivery : Requested → Option ℕ → String → ℕ → Delivery
new_delivery r next_attempt_at id now = record {
  id = id;
  message_id = r.message_id;
  job_id = r.job_id;
  run_id = r.run_id;
  channel = r.channel;
  target = r.target;
  body = r.body;
  status = DeliveryStatus.pending;
  idempotency_key = r.idempotency_key;
  delivery_group_id = r.delivery_group_id;
  part_index = r.part_index;
  part_count = r.part_count;
  completion_label = r.completion_label;
  completion_scope = r.completion_scope;
  attempt_count = 0;
  max_attempts = r.max_attempts;
  next_attempt_at = datetime (time_of next_attempt_at now);
  claim_owner = none;
  claim_token = none;
  claim_expires_at = none;
  last_error = none;
  created_at = datetime now;
  delivered_at = none;
}

-- SELECT … WHERE idempotency_key = ?
unfoldable pub find_keyed : String → List Delivery → Option Delivery
unfolding holds_text
find_keyed k [] = none
find_keyed k (d ∷ ds) = if holds_text d.idempotency_key k then some d else find_keyed k ds

abbrev pub find_existing : Option String → List Delivery → Option Delivery
find_existing none ds = none
find_existing (some k) ds = find_keyed k ds

-- listDeliveryAttachments
unfoldable pub list_delivery_attachments : String → List StoredAttachment → List Attachment
list_delivery_attachments id stored =
    sort_by (λ a. a.ordinal) (map (λ s. s.attachment) (keep (λ s. str_eq s.outbox_id id) stored))

-- attachmentIdentity, compared
unfoldable pub same_attachment : Attachment → Attachment → Bool
unfolding same_text
same_attachment a b =
    a.ordinal == b.ordinal
    && str_eq a.name b.name
    && same_text (filled a.mime_type) (filled b.mime_type)
    && a.size_bytes == b.size_bytes
    && str_eq a.sha256 b.sha256

unfoldable pub same_attachments : List Attachment → List Attachment → Bool
unfolding same_attachment
same_attachments [] [] = true
same_attachments (a ∷ as_) (b ∷ bs) = same_attachment a b && same_attachments as_ bs
same_attachments _ _ = false

unfoldable pub same_number : Option ℕ → Option ℕ → Bool
same_number none none = true
same_number (some m) (some n) = m == n
same_number _ _ = false

-- `legacySinglePartUpgrade`
unfoldable pub is_legacy_upgrade : Delivery → Requested → Bool
unfolding same_number same_text
is_legacy_upgrade existing r =
    is_none existing.delivery_group_id
    && is_none existing.part_index
    && is_none existing.part_count
    && same_text r.delivery_group_id r.idempotency_key
    && same_number r.part_index (some 1)
    && same_number r.part_count (some 1)

-- The fields of the loop in assertEquivalentIdempotentDelivery, in groups.
unfoldable pub same_route : Delivery → Requested → Bool
same_route existing r =
    str_eq existing.channel r.channel
    && str_eq existing.target r.target
    && str_eq existing.body r.body

unfoldable pub same_origin : Delivery → Requested → Bool
unfolding same_text
same_origin existing r =
    same_text existing.message_id r.message_id
    && same_text existing.job_id r.job_id
    && same_text existing.run_id r.run_id

unfoldable pub same_part : Delivery → Requested → Bool
unfolding is_legacy_upgrade same_text same_number
same_part existing r =
    is_legacy_upgrade existing r
    || (same_text existing.delivery_group_id r.delivery_group_id
        && same_number existing.part_index r.part_index
        && same_number existing.part_count r.part_count)

unfoldable pub same_completion : Delivery → Requested → Bool
unfolding same_text
same_completion existing r =
    same_text existing.completion_label r.completion_label
    && same_text existing.completion_scope r.completion_scope

-- assertEquivalentIdempotentDelivery: no field differs.
unfoldable pub is_equivalent : Delivery → Requested → List Attachment → List Attachment → Bool
is_equivalent existing r has wants =
    same_route existing r
    && same_origin existing r
    && same_part existing r
    && same_completion existing r
    && same_attachments has wants

-- insertStagedAttachments
abbrev pub stored_for : Delivery → Attachment → StoredAttachment
stored_for d a = record { outbox_id = d.id; message_id = filled d.message_id; attachment = a }

-- The rows go in one after the other: an id or an ordinal of the delivery that is there throws.
unfoldable pub is_attachment_taken : Delivery → List Attachment → List StoredAttachment → Bool
is_attachment_taken d [] stored = false
is_attachment_taken d (a ∷ rest) stored =
    let later = is_attachment_taken d rest (stored ++ stored_for d a ∷ []) in
    any_of
      (λ s.
        str_eq s.attachment.id a.id
        || (str_eq s.outbox_id d.id && s.attachment.ordinal == a.ordinal))
      stored
    || later

-- What enqueueDelivery answers: the id of the row, and whether it was there.
pub record Enqueued : Type 0 where
  pub id : String
  pub deduped : Bool

-- A unique index holds of the group and the part, unless one of them is NULL.
unfoldable pub is_part_taken : Option String → Option ℕ → List Delivery → Bool
unfolding holds_text
is_part_taken (some g) (some i) ds =
    any_of (λ d. holds_text d.delivery_group_id g && same_number d.part_index (some i)) ds
is_part_taken _ _ ds = false

-- A foreign key: NULL, or an id of the table.
abbrev is_there : List String → Option String → Bool
is_there ids none = true
is_there ids (some id) = any_of (λ x. str_eq x id) ids

unfoldable pub has_references : Delivery → DeliveryTables → Bool
has_references d t =
    is_there t.message_ids d.message_id
    && is_there t.job_ids d.job_id
    && is_there t.run_ids d.run_id

-- INSERT … ON CONFLICT(idempotency_key) DO NOTHING beside the row that has the key. Without one, a
-- conflict of the primary key, of the index of the parts or of a foreign key throws.
unfoldable pub insert_beside :
    Option Delivery
    → Delivery
    → Requested
    → List Attachment
    → DeliveryTables
    → Result EnqueueError (DeliveryTables × Enqueued)
unfolding is_equivalent list_delivery_attachments is_part_taken has_references is_attachment_taken
insert_beside (some x) d r staged t =
    if is_equivalent x r (list_delivery_attachments x.id t.attachments) staged
    then ok (t, record { id = x.id; deduped = true })
    else err idempotency_collision
insert_beside none d r staged t =
    if is_some (get_delivery_row d.id t.deliveries)
    then err id_taken
    else if is_part_taken d.delivery_group_id d.part_index t.deliveries
    then err part_taken
    else if not (has_references d t)
    then err no_reference
    else if is_attachment_taken d staged t.attachments
    then err attachment_taken
    else ok (
      record t {
        deliveries = t.deliveries ++ d ∷ [];
        attachments = t.attachments ++ map (stored_for d) staged;
      },
      record { id = d.id; deduped = false },
    )

unfoldable pub insert_delivery :
    Delivery
    → Requested
    → List Attachment
    → DeliveryTables
    → Result EnqueueError (DeliveryTables × Enqueued)
unfolding find_keyed insert_beside
insert_delivery d r staged t =
    insert_beside (find_existing d.idempotency_key t.deliveries) d r staged t

-- The id is `opts.id`, or the text that randomUUID generates.
unfoldable pub enqueue_delivery :
    EnqueueOpts
    → String
    → ℕ
    → List Attachment
    → DeliveryTables
    → Result EnqueueError (DeliveryTables × Enqueued)
unfolding requested_of new_delivery insert_delivery
enqueue_delivery opts id now staged t = do
  r ← requested_of opts staged
  insert_delivery (new_delivery r opts.next_attempt_at id now) r staged t
