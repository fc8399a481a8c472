-- ===== src/Inbox/Every.antt =====
-- A property that every single write to a message keeps holds of every message after any history
-- of calls (messages.js).
use openclaw_scheduler.Base.{
  ◌≡◌, refl, String, true, List, [], ◌∷◌, Option, none, some, written-bind, guard, ◌==◌, filled_or,
  All, inl, inr, Option-cases,
}
use openclaw_scheduler.Base.Table.{modify, patch, returning}
use openclaw_scheduler.Base.Table.Every.{All-update_where, All-passed, All-modify, All-keep_of}
use openclaw_scheduler.Inbox.Row.{Message, MessageError, Inbox, message_key}
use openclaw_scheduler.Inbox.Claim.{
  required_id, normalize_message_ids, check_limit, claim_inbox_for_run, ack_claimed_inbox_for_run,
  release_claimed_inbox_for_run,
}
use openclaw_scheduler.Inbox.Recover.{is_abandoned, is_older, recover_stale_inbox_claims}
use openclaw_scheduler.Inbox.Send.{
  new_message, find_kind, kinds, filled_text, given_text, send_message,
}
use openclaw_scheduler.Inbox.Ops.{
  attempt_row, deliver_row, can_deliver, mark_delivered, read_row, can_read, mark_read,
  acknowledge_row, ack_message, is_unread_for, mark_all_read, is_expired, expire_row,
  expire_messages, prune_messages,
}
use openclaw_scheduler.Inbox.Calls.{InboxCall, Moment, call_inbox, run_inbox}
use openclaw_scheduler.Inbox.Writes.{
  All-sort, Keeps, ack_each-All, insert-All, record-All, recover_each-All, release_each-All,
  reserved-All,
}

module _ (P : Message → Type 0) (m : Moment) (s : Inbox) (h : All P s.messages) where
  abbrev Holds : List Message → Type 0
  Holds = All P

  delivered-All :
      (id : String)
      → ((x : Message) → P x → P (patch can_deliver (deliver_row m.now) x))
      → ((e : Option MessageError) (x : Message) → P x → P (attempt_row e x))
      → All P (mark_delivered id m.now s).messages
  unfolding mark_delivered
  delivered-All id delivers attempts =
      elim (Option-cases (returning message_key id can_deliver (deliver_row m.now) s.messages)) [
        | inl e ↦ rw (e, mark_delivered) h
        | inr (y, e) ↦
            rw (e, mark_delivered)
              (record-All P id true (some "dispatcher") none m.now
                (record s {
                  messages = modify message_key id can_deliver (deliver_row m.now) s.messages;
                })
                attempts
                (All-modify P message_key id can_deliver (deliver_row m.now) s.messages
                  (λ x _. delivers x) h))
      ]

  pub call-Keeps : (c : InboxCall) → Keeps P m c → All P (call_inbox m c s).messages
  unfolding call_inbox send_message claim_inbox_for_run ack_claimed_inbox_for_run
      release_claimed_inbox_for_run recover_stale_inbox_claims mark_read ack_message mark_all_read
      expire_messages prune_messages
  call-Keeps (InboxCall.sends opts fresh) keeps =
      written-bind Holds s.messages (filled_text opts.from_agent _) _ h λ from _.
        written-bind Holds s.messages (filled_text opts.to_agent _) _ h λ to _.
          written-bind Holds s.messages (given_text opts.body) _ h λ body _.
            written-bind Holds s.messages (guard (opts.attachments == 0) _) _ h λ _ _.
              written-bind Holds s.messages (find_kind (filled_or opts.kind "text") kinds) _ h
                λ kind _.
                  insert-All P (new_message fresh from to body kind opts m.now) s.messages
                    (keeps _ refl) h
  call-Keeps (InboxCall.claims agent run limit) keeps =
      written-bind Holds s.messages (required_id agent) _ h λ a _.
        written-bind Holds s.messages (required_id run) _ h λ r e.
          written-bind Holds s.messages (check_limit limit) _ h
            λ n _. reserved-All P a r n m.now s.messages (λ x. keeps a r x e) h
  call-Keeps (InboxCall.acks run ids) keeps =
      written-bind (λ (s' : Inbox). All P s'.messages) s (required_id run) _ h
        λ r e.
          written-bind (λ (s' : Inbox). All P s'.messages) s (normalize_message_ids ids) _ h
            λ ns _. ack_each-All P r m.now ns s.messages (λ x. keeps r x e) h
  call-Keeps (InboxCall.releases run ids reason) keeps =
      written-bind Holds s.messages (required_id run) _ h λ r e.
        written-bind Holds s.messages (normalize_message_ids ids) _ h
          λ ns _. release_each-All P r _ ns s.messages (λ x. keeps r _ x e) h
  call-Keeps (InboxCall.recovers older_than) keeps =
      recover_each-All P (λ c. (is_abandoned _ m.now m.runs c ≡ true) × P c) _ s.messages
        (λ c x q. keeps _ c x q.0 q.1) (All-sort _ is_older _ (All-passed P _ s.messages h)) h
  call-Keeps (InboxCall.records_attempt id succeeded actor error) keeps =
      record-All P id succeeded actor error m.now s keeps h
  call-Keeps (InboxCall.marks_delivered id) keeps = delivered-All id keeps.0 keeps.1
  call-Keeps (InboxCall.marks_read id) keeps =
      All-modify P message_key id can_read (read_row m.now) s.messages (λ x _. keeps x) h
  call-Keeps (InboxCall.acknowledges id actor detail) keeps =
      All-modify P message_key id _ (acknowledge_row m.now) s.messages (λ x _. keeps x) h
  call-Keeps (InboxCall.marks_all_read agent_id) keeps =
      All-update_where P (is_unread_for agent_id) (read_row m.now) s.messages keeps h
  call-Keeps InboxCall.expires keeps =
      All-update_where P (is_expired m.now) expire_row s.messages keeps h
  call-Keeps (InboxCall.prunes days delivered_days system_days) keeps = All-keep_of P _ s.messages h

pub run-Keeps :
    (P : Message → Type 0) (cs : List (Moment × InboxCall)) (s : Inbox)
    → All (λ c. Keeps P c.0 c.1) cs
    → All P s.messages
    → All P (run_inbox cs s).messages
unfolding run_inbox
run-Keeps P [] s keeps h = h
run-Keeps P ((m, c) ∷ cs) s keeps h =
    run-Keeps P cs (call_inbox m c s) keeps.1 (call-Keeps P m s h c keeps.0)
