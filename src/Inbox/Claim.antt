-- ===== src/Inbox/Claim.antt =====
-- The reservations of messages for a prompt: claimInboxForRun, ackClaimedInboxForRun,
-- releaseClaimedInboxForRun and recoverStaleInboxClaims (messages.js).
use Prim.Native.Nat
use Prim.Native.String
use openclaw_scheduler.Base.{
  ℕ, ◌+◌, ◌-◌, String, Bool, true, not, ◌&&◌, ◌||◌, List, [], ◌∷◌, ◌++◌, map, Option, none, some,
  ◌==◌, ltb, leb, if◌then◌else◌, first_by, is_blank, trim, or_else, slice, datetime, str_eq, Result,
  ok, err, guard, ◌>>=◌, ◌>>◌, keep, count_of, take, length,
}
use openclaw_scheduler.Base.Table.{modify, returning}
use openclaw_scheduler.Inbox.Row.{
  Message, MessageStatus, MessageKind, MessageError, Receipt, ReceiptEvent, ReceiptDetail, Inbox,
  message_key, is_pending, is_for, is_internal, is_reserved_by, set_prompt_claim,
  remove_prompt_claim,
}

pub data MessageFault : Type 0 where
  missing_id bad_limit too_many_ids bad_age : MessageFault

-- requiredId; `none` is a value that is no text.
unfoldable pub required_id : Option String → Result MessageFault String
unfolding is_blank trim
required_id none = err missing_id
required_id (some s) = if is_blank s then err missing_id else ok (trim s)

-- `[...new Set(ids)]`
abbrev pub unique : List String → List String
unique [] = []
unique (x ∷ xs) = x ∷ keep (λ y. not (str_eq x y)) (unique xs)

abbrev required_ids : List (Option String) → Result MessageFault (List String)
required_ids [] = ok []
required_ids (o ∷ os) = do id ← required_id o; rest ← required_ids os; ok (id ∷ rest)

unfoldable pub normalize_message_ids : List (Option String) → Result MessageFault (List String)
unfolding required_id
normalize_message_ids message_ids = do
  ids ← required_ids message_ids
  guard (leb (length (unique ids)) 1000) too_many_ids
  ok (unique ids)

-- CASE kind WHEN …
abbrev pub kind_rank : MessageKind → ℕ
kind_rank MessageKind.constraint = 0
kind_rank MessageKind.decision = 1
kind_rank MessageKind.fact = 2
kind_rank MessageKind.task = 3
kind_rank MessageKind.preference = 4
kind_rank _ = 5

-- ORDER BY CASE kind … END ASC, priority DESC, created_at ASC, id ASC
unfoldable pub comes_before : Message → Message → Bool
comes_before a b = first_by (Nat.compare (kind_rank a.kind) (kind_rank b.kind)) (
    first_by (Nat.compare b.priority a.priority)
      (first_by (Nat.compare a.created_at b.created_at) (first_by (String.compare a.id b.id) true)))

unfoldable pub insert_message : (Message → Message → Bool) → Message → List Message → List Message
insert_message before m [] = m ∷ []
insert_message before m (x ∷ xs) =
    let rest = insert_message before m xs in if before m x then m ∷ x ∷ xs else x ∷ rest

unfoldable pub sort_messages : (Message → Message → Bool) → List Message → List Message
unfolding insert_message
sort_messages before [] = []
sort_messages before (m ∷ ms) = insert_message before m (sort_messages before ms)

abbrev pub reserve_row : String → ℕ → Message → Message
reserve_row run_id now m = record m {
  status = MessageStatus.prompt_claimed;
  metadata = set_prompt_claim run_id now m.metadata;
  last_error = none;
}

abbrev pub may_reserve : String → Message → Bool
may_reserve agent_id m = is_pending m.status && is_for agent_id m

unfoldable pub reserve_each : String → String → ℕ → List Message → List Message → List Message
reserve_each agent_id run_id now [] ms = ms
reserve_each agent_id run_id now (c ∷ cs) ms =
    reserve_each agent_id run_id now cs
      (modify message_key c.id (may_reserve agent_id) (reserve_row run_id now) ms)

abbrev pub is_own : String → String → Message → Bool
is_own agent_id run_id m = is_for agent_id m && is_reserved_by run_id m

-- `Math.max(0, limit - alreadyClaimed)`
abbrev pub remaining_of : String → String → ℕ → List Message → ℕ
remaining_of agent_id run_id limit ms = limit - count_of (is_own agent_id run_id) ms

unfoldable pub candidates : String → String → ℕ → List Message → List Message
unfolding comes_before sort_messages
candidates agent_id run_id limit ms =
    take (remaining_of agent_id run_id limit ms)
      (sort_messages comes_before (keep (may_reserve agent_id) ms))

unfoldable pub reserved : String → String → ℕ → ℕ → List Message → List Message
unfolding candidates reserve_each
reserved agent_id run_id limit now ms =
    reserve_each agent_id run_id now (candidates agent_id run_id limit ms) ms

abbrev pub check_limit : Option ℕ → Result MessageFault ℕ
check_limit none = ok 5
check_limit (some n) = if n == 0 || ltb 1000 n then err bad_limit else ok n

-- The rows, and the messages that are reserved for the run.
unfoldable pub claim_inbox_for_run :
    Option String
    → Option String
    → Option ℕ
    → ℕ
    → List Message
    → Result MessageFault (List Message × List Message)
unfolding required_id reserved
claim_inbox_for_run agent run limit now ms = do
  agent_id ← required_id agent
  run_id ← required_id run
  n ← check_limit limit
  let rows = reserved agent_id run_id n now ms
  ok (rows, take n (sort_messages comes_before (keep (is_own agent_id run_id) rows)))

abbrev pub may_settle : String → Message → Bool
may_settle run_id m = is_internal m && is_reserved_by run_id m

abbrev pub ack_row : ℕ → Message → Message
ack_row now m = record m {
  status = MessageStatus.delivered;
  delivered_at = or_else m.delivered_at (some (datetime now));
  delivery_attempts = m.delivery_attempts + 1;
  metadata = remove_prompt_claim m.metadata;
  last_error = none;
}

abbrev injected : String → ℕ → Message → Receipt
injected run_id now m = record {
  message_id = m.id;
  event_type = ReceiptEvent.attempt;
  attempt = some m.delivery_attempts;
  actor = "dispatcher";
  detail = some (ReceiptDetail.injected_into run_id);
  created_at = datetime now;
}

-- An update that returns no row is skipped.
abbrev pub also : Option Message → List Message → List Message
also none ms = ms
also (some m) ms = m ∷ ms

unfoldable pub ack_each : String → ℕ → List String → List Message → List Message × List Message
ack_each run_id now [] ms = (ms, [])
ack_each run_id now (id ∷ ids) ms =
    let rest =
      ack_each run_id now ids (modify message_key id (may_settle run_id) (ack_row now) ms) in
    (rest.0, also (returning message_key id (may_settle run_id) (ack_row now) ms) rest.1)

unfoldable pub ack_claimed_inbox_for_run :
    Option String → List (Option String) → ℕ → Inbox → Result MessageFault (Inbox × List Message)
unfolding required_id normalize_message_ids ack_each
ack_claimed_inbox_for_run run message_ids now s = do
  run_id ← required_id run
  ids ← normalize_message_ids message_ids
  let after = ack_each run_id now ids s.messages
  ok (
    record { messages = after.0; receipts = s.receipts ++ map (injected run_id now) after.1 },
    after.1,
  )

abbrev pub release_row : Option MessageError → Message → Message
release_row reason m = record m {
  status = MessageStatus.pending;
  metadata = remove_prompt_claim m.metadata;
  last_error = reason;
}

unfoldable pub release_each :
    String → Option MessageError → List String → List Message → List Message × List Message
release_each run_id reason [] ms = (ms, [])
release_each run_id reason (id ∷ ids) ms =
    let rest =
      release_each run_id reason ids
        (modify message_key id (may_settle run_id) (release_row reason) ms) in
    (rest.0, also (returning message_key id (may_settle run_id) (release_row reason) ms) rest.1)

-- `opts.reason ? String(opts.reason).slice(0, 4000) : null`
abbrev pub reason_of : Option String → Option MessageError
reason_of none = none
reason_of (some String.[]) = none
reason_of (some (String.◌∷◌ c s)) = some (MessageError.reason (slice 4000 (String.◌∷◌ c s)))

unfoldable pub release_claimed_inbox_for_run :
    Option String
    → List (Option String)
    → Option String
    → List Message
    → Result MessageFault (List Message × List Message)
unfolding required_id normalize_message_ids release_each slice
release_claimed_inbox_for_run run message_ids reason ms = do
  run_id ← required_id run
  ids ← normalize_message_ids message_ids
  ok (release_each run_id (reason_of reason) ids ms)
