-- ===== src/Inbox/Send.antt =====
-- sendMessage (messages.js).
use openclaw_scheduler.Base.{
  ℕ, String, List, [], ◌∷◌, ◌++◌, Option, none, some, ◌==◌, if◌then◌else◌, is_some, filled,
  filled_or, holds_text, datetime, str_eq, Result, ok, err, guard, ◌>>=◌, ◌>>◌,
}
use openclaw_scheduler.Inbox.Row.{Message, MessageStatus, MessageKind, Metadata, get_message}

-- The options of sendMessage; `metadata` is the text that JSON.stringify makes of them.
pub record SendOpts : Type 0 where
  pub from_agent : Option String
  pub to_agent : Option String
  pub body : Option String
  pub attachments : ℕ
  pub kind : Option String
  pub metadata : Metadata
  pub content : String
  pub priority : ℕ
  pub channel : Option String
  pub delivery_to : Option String
  pub expires_at : Option ℕ
  pub idempotency_key : Option String

pub data SendError : Type 0 where
  from_required to_required body_required no_attachments bad_kind id_taken : SendError

abbrev pub filled_text : Option String → SendError → Result SendError String
filled_text o missing = elim (filled o) [ none ↦ err missing | some s ↦ ok s ]

abbrev pub given_text : Option String → Result SendError String
given_text none = err body_required
given_text (some s) = ok s

abbrev pub find_kind : String → List (String × MessageKind) → Result SendError MessageKind
find_kind s [] = err bad_kind
find_kind s ((name, kind) ∷ rest) =
    let later = find_kind s rest in if str_eq name s then ok kind else later

-- VALID_KINDS
abbrev pub kinds : List (String × MessageKind)
kinds =
    ("text", MessageKind.text)
    ∷ ("task", MessageKind.task)
    ∷ ("result", MessageKind.result)
    ∷ ("status", MessageKind.status)
    ∷ ("system", MessageKind.system)
    ∷ ("spawn", MessageKind.spawn)
    ∷ ("decision", MessageKind.decision)
    ∷ ("constraint", MessageKind.constraint)
    ∷ ("fact", MessageKind.fact)
    ∷ ("preference", MessageKind.preference)
    ∷ []

-- SELECT … WHERE idempotency_key = ?
unfoldable pub find_by_key : String → List Message → Option Message
unfolding holds_text
find_by_key k [] = none
find_by_key k (m ∷ ms) = if holds_text m.idempotency_key k then some m else find_by_key k ms

abbrev pub new_message : String → String → String → String → MessageKind → SendOpts → ℕ → Message
new_message id from to body kind opts now = record {
  id = id;
  from_agent = from;
  to_agent = to;
  kind = kind;
  body = body;
  content = opts.content;
  metadata = opts.metadata;
  priority = opts.priority;
  channel = filled opts.channel;
  delivery_to = filled opts.delivery_to;
  status = MessageStatus.pending;
  delivered_at = none;
  read_at = none;
  ack_at = none;
  delivery_attempts = 0;
  last_error = none;
  expires_at = opts.expires_at;
  idempotency_key = filled opts.idempotency_key;
  created_at = datetime now;
}

-- INSERT … ON CONFLICT(idempotency_key) DO NOTHING; a conflict of the primary key throws.
abbrev pub existing_message : Option String → List Message → Option Message
existing_message none ms = none
existing_message (some k) ms = find_by_key k ms

unfoldable pub insert_message_row :
    Message → List Message → Result SendError (List Message × Message)
unfolding find_by_key
insert_message_row m ms = elim (existing_message m.idempotency_key ms) [
  | some x ↦ ok (ms, x)
  | none ↦ if is_some (get_message m.id ms) then err id_taken else ok (ms ++ m ∷ [], m)
]

-- The rows, and the message that was inserted or that has the key already.
unfoldable pub send_message :
    SendOpts → String → ℕ → List Message → Result SendError (List Message × Message)
unfolding insert_message_row
send_message opts fresh now ms = do
  from ← filled_text opts.from_agent from_required
  to ← filled_text opts.to_agent to_required
  body ← given_text opts.body
  guard (opts.attachments == 0) no_attachments
  kind ← find_kind (filled_or opts.kind "text") kinds
  insert_message_row (new_message fresh from to body kind opts now) ms
