-- ===== src/Inbox/Row.antt =====
-- A row of `messages` and of `message_receipts`, and the reservation that a prompt keeps in the
-- metadata (messages.js, schema.sql).
use openclaw_scheduler.Base.{
  ℕ, String, Bool, true, false, ◌&&◌, ◌||◌, List, Option, none, some, str_eq, is_none, holds_text,
  datetime, if◌then◌else◌,
}
use openclaw_scheduler.Base.Table.{find}

pub data MessageStatus : Type 0 where
  pending prompt_claimed delivered read expired failed : MessageStatus

abbrev pub is_pending : MessageStatus → Bool
is_pending MessageStatus.pending = true
is_pending _ = false

abbrev pub is_prompt_claimed : MessageStatus → Bool
is_prompt_claimed MessageStatus.prompt_claimed = true
is_prompt_claimed _ = false

-- `status IN ('pending', 'delivered')`
abbrev pub is_unread : MessageStatus → Bool
is_unread MessageStatus.pending = true
is_unread MessageStatus.delivered = true
is_unread _ = false

-- VALID_KINDS
pub data MessageKind : Type 0 where
  text task result status system spawn decision constraint fact preference : MessageKind

-- The object at `$._scheduler_prompt_claim`.
pub record PromptClaim : Type 0 where
  pub run_id : Option String
  pub claimed_at : Option ℕ
  pub metadata_wrapped : Bool

-- The other fields of an object: one text, or the single field that keeps what was no object.
pub data Fields : Type 0 where
  plain original_metadata original_metadata_raw : String → Fields

-- The column `metadata`: NULL, white space, an object, another JSON value, or no JSON at all.
pub data Metadata : Type 0 where
  null blank : Metadata
  object : Fields → Option PromptClaim → Metadata
  value raw : String → Metadata

abbrev pub claim_of : Metadata → Option PromptClaim
claim_of (Metadata.object fields claim) = claim
claim_of _ = none

-- json_extract(metadata, '$._scheduler_prompt_claim.run_id'), and `.claimed_at`
unfoldable pub prompt_run_id : Metadata → Option String
prompt_run_id metadata = elim (claim_of metadata) [ none ↦ none | some c ↦ c.run_id ]

unfoldable pub prompt_claimed_at : Metadata → Option ℕ
prompt_claimed_at metadata = elim (claim_of metadata) [ none ↦ none | some c ↦ c.claimed_at ]

-- claimableMetadataSql
abbrev pub claimable_metadata : Metadata → Fields
claimable_metadata Metadata.null = Fields.plain "{}"
claimable_metadata Metadata.blank = Fields.plain "{}"
claimable_metadata (Metadata.object fields claim) = fields
claimable_metadata (Metadata.value v) = Fields.original_metadata v
claimable_metadata (Metadata.raw s) = Fields.original_metadata_raw s

abbrev pub needs_wrapper : Metadata → Bool
needs_wrapper (Metadata.value v) = true
needs_wrapper (Metadata.raw s) = true
needs_wrapper _ = false

-- json_set(…, '$._scheduler_prompt_claim', json_object(…))
unfoldable pub set_prompt_claim : String → ℕ → Metadata → Metadata
set_prompt_claim run_id now metadata = Metadata.object (claimable_metadata metadata) (
    some (record {
      run_id = some run_id;
      claimed_at = some (datetime now);
      metadata_wrapped = needs_wrapper metadata;
    }))

-- NULLIF(…, '{}')
abbrev pub null_if_empty : Fields → Metadata
null_if_empty (Fields.plain t) =
    if str_eq t "{}" then Metadata.null else Metadata.object (Fields.plain t) none
null_if_empty fields = Metadata.object fields none

abbrev pub unwrapped : Fields → Metadata
unwrapped (Fields.plain t) = Metadata.null
unwrapped (Fields.original_metadata v) = Metadata.value v
unwrapped (Fields.original_metadata_raw s) = Metadata.raw s

-- removePromptClaimSql
unfoldable pub remove_prompt_claim : Metadata → Metadata
remove_prompt_claim (Metadata.object fields (some c)) =
    if c.metadata_wrapped then unwrapped fields else null_if_empty fields
remove_prompt_claim (Metadata.object fields none) = null_if_empty fields
remove_prompt_claim (Metadata.value v) = Metadata.value v
remove_prompt_claim _ = Metadata.null

-- What last_error holds: a text that a caller passes, or one of the templates.
pub data MessageError : Type 0 where
  reason : String → MessageError
  recovered_from : String → MessageError
  recovered_malformed : MessageError

-- `content` stands for the columns that no operation here reads or writes; `priority` is one of the
-- levels of schema.sql, 0 and up.
pub record Message : Type 0 where
  pub id : String
  pub from_agent : String
  pub to_agent : String
  pub kind : MessageKind
  pub body : String
  pub content : String
  pub metadata : Metadata
  pub priority : ℕ
  pub channel : Option String
  pub delivery_to : Option String
  pub status : MessageStatus
  pub delivered_at : Option ℕ
  pub read_at : Option ℕ
  pub ack_at : Option ℕ
  pub delivery_attempts : ℕ
  pub last_error : Option MessageError
  pub expires_at : Option ℕ
  pub idempotency_key : Option String
  pub created_at : ℕ

abbrev pub message_key : Message → String
message_key m = m.id

abbrev pub get_message : String → List Message → Option Message
get_message = find message_key

-- INTERNAL_ROUTE_SQL
abbrev pub is_internal : Message → Bool
is_internal m = is_none m.channel && is_none m.delivery_to

-- `(to_agent = ? OR to_agent = 'broadcast') AND ${INTERNAL_ROUTE_SQL}`
unfoldable pub is_for : String → Message → Bool
is_for agent_id m = (str_eq m.to_agent agent_id || str_eq m.to_agent "broadcast") && is_internal m

-- `status = 'prompt_claimed' AND … '.run_id') = ?`
unfoldable pub is_reserved_by : String → Message → Bool
unfolding holds_text prompt_run_id
is_reserved_by run_id m = is_prompt_claimed m.status && holds_text (prompt_run_id m.metadata) run_id

pub data ReceiptEvent : Type 0 where
  attempt ack error : ReceiptEvent

pub data ReceiptDetail : Type 0 where
  text : String → ReceiptDetail
  injected_into : String → ReceiptDetail

pub record Receipt : Type 0 where
  pub message_id : String
  pub event_type : ReceiptEvent
  pub attempt : Option ℕ
  pub actor : String
  pub detail : Option ReceiptDetail
  pub created_at : ℕ

-- The two tables.
pub record Inbox : Type 0 where
  pub messages : List Message
  pub receipts : List Receipt
