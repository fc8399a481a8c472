-- ===== src/Inbox/Calls.antt =====
-- Histories of the message queue (messages.js): what a call leaves of the two tables, beside the
-- runs as they stand at its moment.
use openclaw_scheduler.Base.{ℕ, String, Bool, List, [], ◌∷◌, Option, Result, written}
use openclaw_scheduler.Run.Row.{Run}
use openclaw_scheduler.Inbox.Row.{Message, Inbox}
use openclaw_scheduler.Inbox.Claim.{
  claim_inbox_for_run, ack_claimed_inbox_for_run, release_claimed_inbox_for_run,
}
use openclaw_scheduler.Inbox.Recover.{recover_stale_inbox_claims}
use openclaw_scheduler.Inbox.Send.{SendOpts, send_message}
use openclaw_scheduler.Inbox.Ops.{
  record_message_attempt, mark_delivered, mark_read, ack_message, mark_all_read, expire_messages,
  prune_messages,
}

pub data InboxCall : Type 0 where
  sends : SendOpts → String → InboxCall
  claims : Option String → Option String → Option ℕ → InboxCall
  acks : Option String → List (Option String) → InboxCall
  releases : Option String → List (Option String) → Option String → InboxCall
  recovers : Option ℕ → InboxCall
  records_attempt : String → Bool → Option String → Option String → InboxCall
  marks_delivered : String → InboxCall
  marks_read : String → InboxCall
  acknowledges : String → String → Option String → InboxCall
  marks_all_read : String → InboxCall
  expires : InboxCall
  prunes : ℕ → ℕ → ℕ → InboxCall

-- The clock and the runs at a call.
pub record Moment : Type 0 where
  pub now : ℕ
  pub runs : List Run

-- The messages that a call leaves; a call that throws leaves them as they were.
abbrev pub left {ℓ} : {E : Type 0} {A : Type ℓ} → Inbox → Result E (List Message × A) → Inbox
left s r = record s { messages = written s.messages r }

unfoldable pub call_inbox : Moment → InboxCall → Inbox → Inbox
call_inbox m (sends opts fresh) s = left s (send_message opts fresh m.now s.messages)
call_inbox m (claims agent run limit) s =
    left s (claim_inbox_for_run agent run limit m.now s.messages)
call_inbox m (acks run ids) s = written s (ack_claimed_inbox_for_run run ids m.now s)
call_inbox m (releases run ids reason) s =
    left s (release_claimed_inbox_for_run run ids reason s.messages)
call_inbox m (recovers older_than) s = record s {
  messages = (recover_stale_inbox_claims older_than m.now m.runs s.messages).0;
}
call_inbox m (records_attempt id succeeded actor error) s =
    record_message_attempt id succeeded actor error m.now s
call_inbox m (marks_delivered id) s = mark_delivered id m.now s
call_inbox m (marks_read id) s = mark_read id m.now s
call_inbox m (acknowledges id actor detail) s = (ack_message id actor detail m.now s).0
call_inbox m (marks_all_read agent_id) s = record s {
  messages = mark_all_read agent_id m.now s.messages;
}
call_inbox m expires s = record s { messages = expire_messages m.now s.messages }
call_inbox m (prunes days delivered_days system_days) s = record s {
  messages = prune_messages days delivered_days system_days m.now s.messages;
}

unfoldable pub run_inbox : List (Moment × InboxCall) → Inbox → Inbox
run_inbox [] s = s
run_inbox ((m, c) ∷ cs) s = run_inbox cs (call_inbox m c s)
