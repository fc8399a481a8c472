-- ===== src/Inbox/Tests.antt =====
-- Runs of the message queue at concrete inputs (messages.js).
use openclaw_scheduler.Base.{
  if◌then◌else◌, ◌≡◌, ◌≢◌, refl, ◌≤◌, min, max, String, true, false, List, [], ◌∷◌, none, some, ok,
  err, All, arith, map, is_blank, trim, holds_text, datetime, count_of, length, eq_iff,
}
use openclaw_scheduler.Base.Table.{find, modify, returning}
use openclaw_scheduler.Base.Table.Primary.{IsPrimary}
use openclaw_scheduler.Run.Row.{Run, RunStatus, null}
use openclaw_scheduler.Inbox.Row.{
  message_key, Message, MessageStatus, MessageKind, MessageError, Metadata, Inbox, get_message,
  is_for, is_reserved_by, prompt_run_id, prompt_claimed_at, set_prompt_claim, remove_prompt_claim,
}
use openclaw_scheduler.Inbox.Claim.{
  bad_limit, required_id, normalize_message_ids, comes_before, insert_message, sort_messages,
  reserve_row, reserve_each, candidates, reserved, is_own, claim_inbox_for_run, release_each,
  release_claimed_inbox_for_run, reason_of,
}
use openclaw_scheduler.Inbox.Recover.{
  has_active_owner, is_abandoned, is_older, age_of, detail_of, recover_each,
  recover_stale_inbox_claims,
}
use openclaw_scheduler.Inbox.Calls.{InboxCall, Moment, call_inbox, run_inbox}
use openclaw_scheduler.Inbox.Exclusive.{IsForeign, reserved_for_one}
use openclaw_scheduler.Inbox.Consumed.{is_consumed, consumed_for_ever}
use openclaw_scheduler.Inbox.Freed.{recovery_frees}
use openclaw_scheduler.Inbox.Limit.{claim_bounded}
use openclaw_scheduler.Inbox.Release.{own_metadata, release_restores}

abbrev active_run : Run
active_run = record {
  id = "r1";
  job_id = "j1";
  status = RunStatus.running;
  started_at = some 1000;
  finished_at = none;
  duration_ms = none;
  terminal_transition_at = none;
  dispatcher_owner = some "a";
  dispatcher_token = some 3;
  dispatch_started_at = some 1000;
  dispatched_at = some 1000;
  cancel_requested_at = none;
  cancel_requested_by = none;
  cancel_reason = none;
  agent_cancel_requested_at = none;
  process_pid = none;
  process_pgid = none;
  process_identity = none;
  process_started_at = none;
  dispatch_queue_id = none;
  handoff_artifact_digest = none;
  source_run_id = none;
  source_run_handoff_artifact_digest = none;
  idempotency_key = none;
  evidence_required = false;
  approval_used = none;
  columns = λ c. null;
}

abbrev note : Message
note = record {
  id = "m1";
  from_agent = "ops";
  to_agent = "main";
  kind = MessageKind.text;
  body = "look";
  content = "";
  metadata = Metadata.value "[1]";
  priority = 0;
  channel = none;
  delivery_to = none;
  status = MessageStatus.pending;
  delivered_at = none;
  read_at = none;
  ack_at = none;
  delivery_attempts = 0;
  last_error = none;
  expires_at = none;
  idempotency_key = none;
  created_at = 1000;
}

abbrev rule : Message
rule = record note {
  id = "m2";
  kind = MessageKind.constraint;
  metadata = Metadata.null;
  created_at = 2000;
}

abbrev rows : List Message
rows = note ∷ rule ∷ []

abbrev held_note : Message
held_note = reserve_row "r1" 5000 note

-- A constraint comes before a text that is older.
one_claimed :
    claim_inbox_for_run (some " main ") (some "r1") (some 1) 5000 rows
    ≡ ok (note ∷ reserve_row "r1" 5000 rule ∷ [], reserve_row "r1" 5000 rule ∷ [])
unfolding claim_inbox_for_run required_id is_blank trim reserved candidates comes_before
    insert_message sort_messages reserve_each modify is_for is_reserved_by holds_text prompt_run_id
    set_prompt_claim
one_claimed = refl

both_claimed :
    claim_inbox_for_run (some "main") (some "r1") none 5000 rows
    ≡ ok (held_note ∷ reserve_row "r1" 5000 rule ∷ [], reserve_row "r1" 5000 rule ∷ held_note ∷ [])
unfolding claim_inbox_for_run required_id is_blank trim reserved candidates comes_before
    insert_message sort_messages reserve_each modify is_for is_reserved_by holds_text prompt_run_id
    set_prompt_claim
both_claimed = refl

no_limit : claim_inbox_for_run (some "main") (some "r1") (some 0) 5000 rows ≡ err bad_limit
unfolding claim_inbox_for_run required_id is_blank trim
no_limit = refl

recovered : recover_stale_inbox_claims none 400000 [] (held_note ∷ []) ≡ (
  record note { last_error = some (MessageError.recovered_from "r1") } ∷ [],
  record note { last_error = some (MessageError.recovered_from "r1") } ∷ [],
)
unfolding recover_stale_inbox_claims recover_each is_abandoned is_older insert_message sort_messages
    modify returning find prompt_run_id prompt_claimed_at set_prompt_claim remove_prompt_claim
    has_active_owner datetime
recovered = refl

abbrev held : Inbox
held = record { messages = held_note ∷ rule ∷ []; receipts = [] }

abbrev moment : Moment
moment = record { now = 400000; runs = active_run ∷ [] }

abbrev calls : List (Moment × InboxCall)
calls =
    (moment, InboxCall.recovers none)
    ∷ (moment, InboxCall.releases (some "r2") (some "m1" ∷ []) none)
    ∷ []

abbrev after_calls : List Message
after_calls = held_note ∷ reserve_row "r2" 500000 rule ∷ []

abbrev read_note : Message
read_note = record note { status = MessageStatus.read; read_at = some 400000; ack_at = some 400000 }

abbrev read_already : Inbox
read_already = record { messages = read_note ∷ rule ∷ []; receipts = [] }

other_run : required_id (some "r2") ≢ ok "r1"
unfolding required_id is_blank trim
other_run = λ e. ground (arith, eq_iff "r2" "r1")

as_main : required_id (some "main") ≡ ok "main"
unfolding required_id is_blank trim
as_main = refl

as_r1 : required_id (some "r1") ≡ ok "r1"
unfolding required_id is_blank trim
as_r1 = refl

as_m1 : required_id (some "m1") ≡ ok "m1"
unfolding required_id is_blank trim
as_m1 = refl

note_found : get_message "m1" rows ≡ some note
unfolding find
note_found = refl

held_found : get_message "m1" held.messages ≡ some held_note
unfolding find
held_found = refl

held_note_found : get_message "m1" (held_note ∷ reserve_row "r1" 5000 rule ∷ []) ≡ some held_note
unfolding find
held_note_found = refl

held_own : is_reserved_by "r1" held_note ≡ true
unfolding is_reserved_by prompt_run_id set_prompt_claim holds_text
held_own = refl

held_keys : IsPrimary (map message_key held.messages)
held_keys = ((refl, tt), (tt, tt))

calls-IsForeign : All (λ c. IsForeign "r1" "m1" c.0 c.1) calls
unfolding has_active_owner
calls-IsForeign = (refl, (other_run, tt))

abbrev theirs : List Message
theirs = reserve_row "r2" 500000 rule ∷ []

others_claim :
    claim_inbox_for_run (some "main") (some "r2") none 500000 (run_inbox calls held).messages
    ≡ ok (after_calls, theirs)
unfolding run_inbox call_inbox recover_stale_inbox_claims recover_each is_abandoned is_older
    insert_message sort_messages modify returning find prompt_run_id prompt_claimed_at
    set_prompt_claim has_active_owner datetime claim_inbox_for_run required_id is_blank trim
    reserved candidates comes_before reserve_each is_for is_reserved_by holds_text
    release_claimed_inbox_for_run release_each normalize_message_ids
others_claim = refl

note_gone : All (λ (x : Message). x.id ≡ "m1" → is_consumed x.status ≡ true) read_already.messages
note_gone = (λ e. refl, (λ e. absurd (apart e), tt))
  where
    apart : ◌≢◌ {A = String} "m2" "m1"
    apart = ground (arith, eq_iff "m2" "m1")

still_read :
    claim_inbox_for_run
      (some "main")
      (some "r2")
      none
      500000
      (run_inbox calls read_already).messages
    ≡ ok (read_note ∷ theirs, theirs)
unfolding run_inbox call_inbox recover_stale_inbox_claims recover_each is_abandoned is_older
    insert_message sort_messages modify returning find prompt_run_id prompt_claimed_at
    set_prompt_claim has_active_owner datetime claim_inbox_for_run required_id is_blank trim
    reserved candidates comes_before reserve_each is_for is_reserved_by holds_text
    release_claimed_inbox_for_run release_each normalize_message_ids
still_read = refl

reserved_for_one_example :
    (m' : Message) × (get_message "m1" after_calls ≡ some m')
    × (is_reserved_by "r1" m' ≡ true)
    × All (λ (x : Message). x.id ≢ "m1") theirs
reserved_for_one_example =
    reserved_for_one "r1" "m1" held_note held calls (some "main") (some "r2") none 500000
      after_calls theirs held_keys held_found held_own refl calls-IsForeign other_run others_claim

consumed_for_ever_example :
    All (λ (x : Message). x.id ≡ "m1" → is_consumed x.status ≡ true) (read_note ∷ theirs)
    × All (λ (x : Message). x.id ≢ "m1") theirs
consumed_for_ever_example =
    consumed_for_ever "m1" read_already calls (some "main") (some "r2") none 500000
      (read_note ∷ theirs) theirs note_gone (tt, (tt, tt)) still_read

claim_bounded_example :
    (ms mine : List Message) × (claim_inbox_for_run (some "main") (some "r1") (some 1) 5000 rows
      ≡ ok (ms, mine))
    × (count_of (is_own "main" "r1") ms ≤ max 1 (count_of (is_own "main" "r1") rows))
    × (length mine ≡ min 1 (count_of (is_own "main" "r1") ms))
    × All (λ m. is_own "main" "r1" m ≡ true) mine
    × (1 ≤ 1000)
claim_bounded_example =
    claim_bounded (some "main") (some "r1") (some 1) 5000 rows "main" "r1" 1 as_main as_r1 refl

release_restores_example :
    (back given : List Message) × (release_claimed_inbox_for_run
        (some "r1")
        (some "m1" ∷ [])
        (some "deferred")
        (held_note ∷ reserve_row "r1" 5000 rule ∷ [])
      ≡ ok (back, given))
    × (get_message "m1" back
        ≡ some (record note {
          metadata = own_metadata note.metadata;
          last_error = reason_of (some "deferred");
        }))
release_restores_example =
    release_restores (some "main") (some "r1") none 5000 "m1" "r1" (some "deferred") rows
      (held_note ∷ reserve_row "r1" 5000 rule ∷ []) (reserve_row "r1" 5000 rule ∷ held_note ∷ [])
      note held_note both_claimed as_r1 as_m1 note_found refl held_note_found held_own

recovery_frees_example :
    (m' : Message) × (get_message "m1" (recover_stale_inbox_claims none 400000 [] held.messages).0
      ≡ some m')
    × (m' ≡ (
        if is_abandoned (age_of none) 400000 [] held_note
        then record held_note {
          status = MessageStatus.pending;
          metadata = remove_prompt_claim held_note.metadata;
          last_error = some (detail_of (prompt_run_id held_note.metadata));
        }
        else held_note))
    × (is_abandoned (age_of none) 400000 [] m' ≡ false)
recovery_frees_example =
    recovery_frees none 400000 [] "m1" held_note held.messages held_keys held_found
