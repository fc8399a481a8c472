-- ===== src/Outbox/Request.antt =====
-- The options of enqueueDelivery, their checks, and the request that they make
-- (delivery-outbox.js). A field of the options stands for its two spellings.
use openclaw_scheduler.Base.{
  ℕ, String, Bool, true, false, not, ◌||◌, List, Option, none, some, ◌==◌, ltb, if◌then◌else◌,
  is_some, is_none, is_blank, trim, Result, ok, err, guard, ◌>>=◌, ◌>>◌, length,
}
use openclaw_scheduler.Outbox.Row.{Delivery}

pub record Attachment : Type 0 where
  pub id : String
  pub ordinal : ℕ
  pub name : String
  pub mime_type : Option String
  pub size_bytes : ℕ
  pub sha256 : String

-- A row of delivery_attachments.
pub record StoredAttachment : Type 0 where
  pub outbox_id : String
  pub message_id : Option String
  pub attachment : Attachment

-- The two tables, and the ids of the tables that a delivery refers to.
pub record DeliveryTables : Type 0 where
  pub deliveries : List Delivery
  pub attachments : List StoredAttachment
  pub message_ids : List String
  pub job_ids : List String
  pub run_ids : List String

pub record EnqueueOpts : Type 0 where
  pub channel : Option String
  pub target : Option String
  pub body : Option String
  pub max_attempts : Option ℕ
  pub idempotency_key : Option String
  pub next_attempt_at : Option ℕ
  pub message_id : Option String
  pub job_id : Option String
  pub run_id : Option String
  pub delivery_group_id : Option String
  pub part_index : Option ℕ
  pub part_count : Option ℕ
  pub completion_label : Option String
  pub completion_scope : Option String

pub data EnqueueError : Type 0 where
  channel_required target_required body_required nothing_to_send bad_attempts blank_key :
      EnqueueError
  group_required bad_parts part_beyond_count parts_without_group : EnqueueError
  label_required scope_required bad_completion idempotency_collision : EnqueueError
  id_taken part_taken no_reference attachment_taken : EnqueueError

-- requiredString
unfoldable pub required_string : Option String → EnqueueError → Result EnqueueError String
unfolding is_blank trim
required_string none missing = err missing
required_string (some s) missing = if is_blank s then err missing else ok (trim s)

abbrev any_text : Option String → Result EnqueueError String
any_text none = err body_required
any_text (some s) = ok s

abbrev optional_string : Option String → EnqueueError → Result EnqueueError (Option String)
optional_string none missing = ok none
optional_string (some s) missing = do text ← required_string (some s) missing; ok (some text)

-- positiveInteger; 0 stands for every value that it refuses.
abbrev positive : Option ℕ → EnqueueError → Result EnqueueError (Option ℕ)
positive none bad = ok none
positive (some n) bad = if n == 0 then err bad else ok (some n)

abbrev attempts_of : Option ℕ → ℕ
attempts_of none = 5
attempts_of (some n) = n

abbrev same_presence {ℓ κ} : {A : Type ℓ} {B : Type κ} → Option A → Option B → Bool
same_presence none none = true
same_presence (some a) (some b) = true
same_presence _ _ = false

abbrev exceeds : Option ℕ → Option ℕ → Bool
exceeds (some i) (some n) = ltb n i
exceeds _ _ = false

-- The object `requested`, and the number of attempts.
pub record Requested : Type 0 where
  pub channel : String
  pub target : String
  pub body : String
  pub message_id : Option String
  pub job_id : Option String
  pub run_id : Option String
  pub idempotency_key : Option String
  pub delivery_group_id : Option String
  pub part_index : Option ℕ
  pub part_count : Option ℕ
  pub completion_label : Option String
  pub completion_scope : Option String
  pub max_attempts : ℕ

unfoldable pub requested_of : EnqueueOpts → List Attachment → Result EnqueueError Requested
unfolding required_string
requested_of opts staged = do
  channel ← required_string opts.channel channel_required
  target ← required_string opts.target target_required
  body ← any_text opts.body
  guard (not (is_blank body) || not (length staged == 0)) nothing_to_send
  attempts ← positive opts.max_attempts bad_attempts
  key ← optional_string opts.idempotency_key blank_key
  group ← optional_string opts.delivery_group_id group_required
  guard (same_presence opts.part_index opts.part_count) bad_parts
  index ← positive opts.part_index bad_parts
  count ← positive opts.part_count bad_parts
  guard (not (exceeds index count)) part_beyond_count
  guard (is_some group || is_none index) parts_without_group
  guard (same_presence opts.completion_label opts.completion_scope) bad_completion
  label ← optional_string opts.completion_label label_required
  scope ← optional_string opts.completion_scope scope_required
  ok (record {
    channel = channel;
    target = target;
    body = body;
    message_id = opts.message_id;
    job_id = opts.job_id;
    run_id = opts.run_id;
    idempotency_key = key;
    delivery_group_id = group;
    part_index = index;
    part_count = count;
    completion_label = label;
    completion_scope = scope;
    max_attempts = attempts_of attempts;
  })
