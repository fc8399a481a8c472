-- ===== src/Outbox/EnqueueTests.antt =====
-- Runs of enqueueDelivery at concrete inputs (delivery-outbox.js).
use openclaw_scheduler.Base.{
  ◌↔◌, ◌⊎◌, map, ◌≡◌, refl, true, false, List, [], ◌∷◌, ◌++◌, none, some, ok, err, is_blank, trim,
  sort_by, insert_by, holds_text,
}
use openclaw_scheduler.Base.Table.{find}
use openclaw_scheduler.Outbox.Row.{get_delivery_row}
use openclaw_scheduler.Outbox.Request.{
  Attachment, DeliveryTables, EnqueueOpts, Requested, idempotency_collision, bad_parts, part_taken,
  requested_of, required_string,
}
use openclaw_scheduler.Outbox.Enqueue.{
  new_delivery, find_keyed, list_delivery_attachments, is_equivalent, same_route, same_number,
  is_part_taken, has_references, is_attachment_taken, insert_beside, insert_delivery,
  enqueue_delivery,
}
use openclaw_scheduler.Outbox.Same.{identity, substance}
use openclaw_scheduler.Outbox.Keyed.{enqueue_once}

abbrev report : EnqueueOpts
report = record {
  channel = some "telegram";
  target = some " 42 ";
  body = some "done";
  max_attempts = none;
  idempotency_key = some "k1";
  next_attempt_at = none;
  message_id = none;
  job_id = some "j1";
  run_id = none;
  delivery_group_id = some "k1";
  part_index = some 1;
  part_count = some 1;
  completion_label = none;
  completion_scope = none;
}

abbrev requested : Requested
requested = record {
  channel = "telegram";
  target = "42";
  body = "done";
  message_id = none;
  job_id = some "j1";
  run_id = none;
  idempotency_key = some "k1";
  delivery_group_id = some "k1";
  part_index = some 1;
  part_count = some 1;
  completion_label = none;
  completion_scope = none;
  max_attempts = 5;
}

abbrev other_report : EnqueueOpts
other_report = record report { body = some "failed" }

abbrev log : List Attachment
log =
    record { id = "a1"; ordinal = 0; name = "log"; mime_type = none; size_bytes = 3; sha256 = "x" }
    ∷ []

abbrev empty : DeliveryTables
empty = record {
  deliveries = [];
  attachments = [];
  message_ids = [];
  job_ids = "j1" ∷ [];
  run_ids = [];
}

report_valid : requested_of report log ≡ ok requested
unfolding requested_of required_string is_blank trim
report_valid = refl

abbrev again : EnqueueOpts
again = record report { max_attempts = some 9 }

again_valid : requested_of again log ≡ ok (record requested { max_attempts = 9 })
unfolding requested_of required_string is_blank trim
again_valid = refl

half_a_part : requested_of (record report { part_count = none }) log ≡ err bad_parts
unfolding requested_of required_string is_blank trim
half_a_part = refl

abbrev after : DeliveryTables
after = record empty {
  deliveries = new_delivery requested none "d1" 5000 ∷ [];
  attachments =
      record {
        outbox_id = "d1";
        message_id = none;
        attachment = record {
          id = "a1";
          ordinal = 0;
          name = "log";
          mime_type = none;
          size_bytes = 3;
          sha256 = "x";
        };
      }
      ∷ [];
}

collides : enqueue_delivery other_report "d2" 6000 log after ≡ err idempotency_collision
unfolding enqueue_delivery requested_of required_string is_blank trim new_delivery insert_delivery
    insert_beside find_keyed holds_text is_equivalent same_route
collides = refl

nothing_found : find_keyed "k1" [] ≡ none
unfolding find_keyed
nothing_found = refl

no_row : get_delivery_row "d1" [] ≡ none
unfolding find
no_row = refl

part_free : is_part_taken (some "k1") (some 1) [] ≡ false
unfolding is_part_taken
part_free = refl

job_there : has_references (new_delivery requested none "d1" 5000) empty ≡ true
unfolding has_references new_delivery
job_there = refl

log_new : is_attachment_taken (new_delivery requested none "d1" 5000) log [] ≡ false
unfolding is_attachment_taken
log_new = refl

-- A new key does not make room for a part that is there.
abbrev same_part_report : EnqueueOpts
same_part_report = record report { idempotency_key = some "k2" }

part_conflicts : enqueue_delivery same_part_report "d2" 6000 log after ≡ err part_taken
unfolding enqueue_delivery requested_of required_string is_blank trim new_delivery insert_delivery
    insert_beside find_keyed holds_text is_part_taken same_number find
part_conflicts = refl

log_sorted : sort_by (λ (a : Attachment). a.ordinal) log ≡ log
unfolding sort_by insert_by
log_sorted = refl

enqueue_once_example :
    (t1 : DeliveryTables) × (enqueue_delivery report "d1" 5000 log empty
      ≡ ok (t1, record { id = "d1"; deduped = false }))
    × (t1.deliveries ≡ [] ++ new_delivery requested none "d1" 5000 ∷ [])
    × (list_delivery_attachments "d1" t1.attachments ≡ log)
    × ((enqueue_delivery again "d2" 6000 log t1 ≡ ok (t1, record { id = "d1"; deduped = true })) ↔ (
        (substance requested ≡ substance (record requested { max_attempts = 9 }))
        × (map identity log ≡ map identity log)))
    × ((enqueue_delivery again "d2" 6000 log t1 ≡ ok (t1, record { id = "d1"; deduped = true }))
        ⊎ (enqueue_delivery again "d2" 6000 log t1 ≡ err idempotency_collision))
enqueue_once_example =
    enqueue_once report again requested (record requested { max_attempts = 9 }) "k1" "d1" "d2" 5000
      6000 log log empty report_valid refl refl nothing_found no_row part_free job_there log_new tt
      log_sorted again_valid refl
