-- ===== src/Inbox/Writes.antt =====
-- What each call may write to one message, and the writes that it repeats (messages.js).
use openclaw_scheduler.Base.{
  ℕ, ◌≡◌, String, Bool, true, List, [], ◌∷◌, Option, ok, written, is_some, All, inl, inr,
  Bool-cases, Option-cases,
}
use openclaw_scheduler.Base.Table.{patch}
use openclaw_scheduler.Base.Table.Every.{All-append, All-modify}
use openclaw_scheduler.Inbox.Row.{Message, MessageError, Inbox, message_key, get_message}
use openclaw_scheduler.Inbox.Claim.{
  required_id, insert_message, sort_messages, reserve_row, may_reserve, reserve_each, candidates,
  reserved, may_settle, ack_row, ack_each, release_row, release_each,
}
use openclaw_scheduler.Inbox.Recover.{is_abandoned, may_recover, recovers_to, recover_each}
use openclaw_scheduler.Inbox.Send.{existing_message, insert_message_row}
use openclaw_scheduler.Inbox.Ops.{
  attempt_row, record_message_attempt, deliver_row, can_deliver, read_row, can_read,
  acknowledge_row, is_unread_for, is_expired, expire_row,
}
use openclaw_scheduler.Inbox.Calls.{InboxCall, Moment}

module _ {κ} (P : Message → Type κ) (before : Message → Message → Bool) where
  All-insert :
      (m : Message) (ms : List Message) → P m → All P ms → All P (insert_message before m ms)
  unfolding insert_message
  All-insert m [] p h = (p, tt)
  All-insert m (x ∷ ms) p h = elim (Bool-cases (before m x)) [
    | inl e ↦ rw e (p, h)
    | inr e ↦ rw e (h.0, All-insert m ms p h.1)
  ]

  pub All-sort : (ms : List Message) → All P ms → All P (sort_messages before ms)
  unfolding sort_messages
  All-sort [] h = tt
  All-sort (m ∷ ms) h = All-insert m (sort_messages before ms) h.0 (All-sort ms h.1)

module _ (P : Message → Type 0) (m : Moment) where
  -- What a call may write to one message.
  abbrev pub Keeps : InboxCall → Type 0
  Keeps (InboxCall.sends opts fresh) = (x : Message) → x.id ≡ fresh → P x
  Keeps (InboxCall.claims agent run limit) =
      (a r : String) (x : Message)
      → required_id run ≡ ok r
      → P x
      → P (patch (may_reserve a) (reserve_row r m.now) x)
  Keeps (InboxCall.acks run ids) =
      (r : String) (x : Message)
      → required_id run ≡ ok r
      → P x
      → P (patch (may_settle r) (ack_row m.now) x)
  Keeps (InboxCall.releases run ids reason) =
      (r : String) (e : Option MessageError) (x : Message)
      → required_id run ≡ ok r
      → P x
      → P (patch (may_settle r) (release_row e) x)
  Keeps (InboxCall.recovers older_than) =
      (seconds : ℕ) (c x : Message)
      → is_abandoned seconds m.now m.runs c ≡ true
      → P c
      → x.id ≡ c.id
      → P x
      → P (patch may_recover (recovers_to c) x)
  Keeps (InboxCall.records_attempt id succeeded actor error) =
      (e : Option MessageError) (x : Message) → P x → P (attempt_row e x)
  Keeps (InboxCall.marks_delivered id) =
      ((x : Message) → P x → P (patch can_deliver (deliver_row m.now) x))
      × ((e : Option MessageError) (x : Message) → P x → P (attempt_row e x))
  Keeps (InboxCall.marks_read id) = (x : Message) → P x → P (patch can_read (read_row m.now) x)
  Keeps (InboxCall.acknowledges id actor detail) = (x : Message) → P x → P (acknowledge_row m.now x)
  Keeps (InboxCall.marks_all_read agent_id) =
      (x : Message) → P x → P (patch (is_unread_for agent_id) (read_row m.now) x)
  Keeps InboxCall.expires = (x : Message) → P x → P (patch (is_expired m.now) expire_row x)
  Keeps (InboxCall.prunes days delivered_days system_days) = Unit

module _ (P : Message → Type 0) where
  pub reserve_each-All :
      (a r : String) (now : ℕ) (cs ms : List Message)
      → ((x : Message) → P x → P (patch (may_reserve a) (reserve_row r now) x))
      → All P ms
      → All P (reserve_each a r now cs ms)
  unfolding reserve_each
  reserve_each-All a r now [] ms moves h = h
  reserve_each-All a r now (c ∷ cs) ms moves h =
      reserve_each-All a r now cs _ moves
        (All-modify P message_key c.id (may_reserve a) (reserve_row r now) ms (λ x e. moves x) h)

  pub reserved-All :
      (a r : String) (limit now : ℕ) (ms : List Message)
      → ((x : Message) → P x → P (patch (may_reserve a) (reserve_row r now) x))
      → All P ms
      → All P (reserved a r limit now ms)
  unfolding reserved
  reserved-All a r limit now ms moves h =
      reserve_each-All a r now (candidates a r limit ms) ms moves h

  pub ack_each-All :
      (r : String) (now : ℕ) (ids : List String) (ms : List Message)
      → ((x : Message) → P x → P (patch (may_settle r) (ack_row now) x))
      → All P ms
      → All P (ack_each r now ids ms).0
  unfolding ack_each
  ack_each-All r now [] ms moves h = h
  ack_each-All r now (id ∷ ids) ms moves h =
      ack_each-All r now ids _ moves
        (All-modify P message_key id (may_settle r) (ack_row now) ms (λ x e. moves x) h)

  pub release_each-All :
      (r : String) (reason : Option MessageError) (ids : List String) (ms : List Message)
      → ((x : Message) → P x → P (patch (may_settle r) (release_row reason) x))
      → All P ms
      → All P (release_each r reason ids ms).0
  unfolding release_each
  release_each-All r reason [] ms moves h = h
  release_each-All r reason (id ∷ ids) ms moves h =
      release_each-All r reason ids _ moves
        (All-modify P message_key id (may_settle r) (release_row reason) ms (λ x e. moves x) h)

  pub recover_each-All :
      (Q : Message → Type 0) (cs ms : List Message)
      → ((c x : Message) → Q c → x.id ≡ c.id → P x → P (patch may_recover (recovers_to c) x))
      → All Q cs
      → All P ms
      → All P (recover_each cs ms).0
  unfolding recover_each
  recover_each-All Q [] ms moves q h = h
  recover_each-All Q (c ∷ cs) ms moves q h =
      recover_each-All Q cs _ moves q.1
        (All-modify P message_key c.id may_recover (recovers_to c) ms (λ x. moves c x q.0) h)

  pub insert-All :
      (x : Message) (ms : List Message)
      → P x
      → All P ms
      → All P (written ms (insert_message_row x ms))
  unfolding insert_message_row
  insert-All x ms p h = elim (Option-cases (existing_message x.idempotency_key ms)) [
    | inr (y, e) ↦ rw (e, insert_message_row) h
    | inl e ↦ elim (Bool-cases (is_some (get_message x.id ms))) [
      | inl taken ↦ rw (e, insert_message_row, taken) h
      | inr free ↦ rw (e, insert_message_row, free) (All-append P ms x h p)
    ]
  ]

  pub record-All :
      (id : String) (succeeded : Bool) (actor error : Option String) (now : ℕ) (s : Inbox)
      → ((e : Option MessageError) (x : Message) → P x → P (attempt_row e x))
      → All P s.messages
      → All P (record_message_attempt id succeeded actor error now s).messages
  unfolding record_message_attempt
  record-All id succeeded actor error now s moves h =
      elim (Option-cases (get_message id s.messages)) [
        | inl e ↦ rw (e, record_message_attempt) h
        | inr (y, e) ↦
            rw (e, record_message_attempt)
              (All-modify P message_key id _ _ s.messages (λ x _. moves _ x) h)
      ]
