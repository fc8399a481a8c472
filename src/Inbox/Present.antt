-- ===== src/Inbox/Present.antt =====
-- A message that the prune spares stays in the table over any history of calls (messages.js).
use openclaw_scheduler.Base.{
  ℕ, ◌≡◌, refl, ◌∙◌, subst, String, Bool, true, false, ◌==◌, ◌++◌, List, [], ◌∷◌, map, Option, none,
  some, ok, written, written-bind, guard, filled_or, is_some, keep, any_of, All, arith, inl, inr,
  str_eq, eq_iff, Bool-cases, Option-cases,
}
use openclaw_scheduler.Base.Table.{find, returning}
use openclaw_scheduler.Base.Table.Primary.{keys-modify, keys-update_where}
use openclaw_scheduler.Inbox.Row.{Message, MessageError, Inbox, message_key, get_message}
use openclaw_scheduler.Inbox.Claim.{
  required_id, normalize_message_ids, check_limit, claim_inbox_for_run, ack_claimed_inbox_for_run,
  release_claimed_inbox_for_run, reserve_each, candidates, reserved, may_reserve, reserve_row,
  sort_messages, may_settle, ack_row, ack_each, release_row, release_each,
}
use openclaw_scheduler.Inbox.Recover.{
  may_recover, recovers_to, recover_each, is_older, is_abandoned, age_of,
  recover_stale_inbox_claims,
}
use openclaw_scheduler.Inbox.Send.{
  new_message, find_kind, kinds, filled_text, given_text, send_message, existing_message,
  insert_message_row,
}
use openclaw_scheduler.Inbox.Ops.{
  record_message_attempt, deliver_row, can_deliver, mark_delivered, read_row, can_read, mark_read,
  acknowledge_row, ack_message, is_unread_for, mark_all_read, is_expired, expire_row,
  expire_messages, is_prunable, prune_messages,
}
use openclaw_scheduler.Inbox.Calls.{InboxCall, Moment, call_inbox, run_inbox}
use openclaw_scheduler.Inbox.Writes.{Keeps}
use openclaw_scheduler.Inbox.Every.{call-Keeps}
use openclaw_scheduler.Inbox.Returns.{claim-returns}

abbrev keys : List Message → List String
keys = map message_key

keys-reserve_each :
    (a r : String) (now : ℕ) (cs ms : List Message) → keys (reserve_each a r now cs ms) ≡ keys ms
unfolding reserve_each
keys-reserve_each a r now [] ms = refl
keys-reserve_each a r now (c ∷ cs) ms =
    keys-reserve_each a r now cs _
    ∙ keys-modify message_key (reserve_row r now) (λ x. refl) c.id (may_reserve a) ms

keys-ack_each :
    (r : String) (now : ℕ) (ids : List String) (ms : List Message)
    → keys (ack_each r now ids ms).0 ≡ keys ms
unfolding ack_each
keys-ack_each r now [] ms = refl
keys-ack_each r now (id ∷ ids) ms =
    keys-ack_each r now ids _
    ∙ keys-modify message_key (ack_row now) (λ x. refl) id (may_settle r) ms

keys-release_each :
    (r : String) (reason : Option MessageError) (ids : List String) (ms : List Message)
    → keys (release_each r reason ids ms).0 ≡ keys ms
unfolding release_each
keys-release_each r reason [] ms = refl
keys-release_each r reason (id ∷ ids) ms =
    keys-release_each r reason ids _
    ∙ keys-modify message_key (release_row reason) (λ x. refl) id (may_settle r) ms

keys-recover_each : (cs ms : List Message) → keys (recover_each cs ms).0 ≡ keys ms
unfolding recover_each
keys-recover_each [] ms = refl
keys-recover_each (c ∷ cs) ms =
    keys-recover_each cs _ ∙ keys-modify message_key (recovers_to c) (λ x. refl) c.id may_recover ms

keys-record :
    (id : String) (succeeded : Bool) (actor error : Option String) (now : ℕ) (s : Inbox)
    → keys (record_message_attempt id succeeded actor error now s).messages ≡ keys s.messages
unfolding record_message_attempt
keys-record id succeeded actor error now s = elim (Option-cases (get_message id s.messages)) [
  | inl e ↦ rw (e, record_message_attempt) refl
  | inr (y, e) ↦
      rw (e, record_message_attempt) (keys-modify message_key _ (λ x. refl) id _ s.messages)
]

keys-delivered :
    (id : String) (now : ℕ) (s : Inbox) → keys (mark_delivered id now s).messages ≡ keys s.messages
unfolding mark_delivered
keys-delivered id now s =
    elim (Option-cases (returning message_key id can_deliver (deliver_row now) s.messages)) [
      | inl e ↦ rw (e, mark_delivered) refl
      | inr (y, e) ↦
          rw (e, mark_delivered)
            (keys-record id true (some "dispatcher") none now _
              ∙ keys-modify message_key (deliver_row now) (λ x. refl) id can_deliver s.messages)
    ]

module _ (j : String) where
  -- A row has this id.
  abbrev pub IsThere : List Message → Type 0
  IsThere ms = any_of (λ k. str_eq k j) (keys ms) ≡ true

  -- No row with this id may be pruned at the moment, whatever the ages given.
  abbrev pub IsSpared : Message → Type 0
  IsSpared x = x.id ≡ j → (a b c now : ℕ) → is_prunable a b c now x ≡ false

  same-IsThere : (ms ms' : List Message) → keys ms' ≡ keys ms → IsThere ms → IsThere ms'
  same-IsThere ms ms' same h = rw same h

  append-IsThere : (ms : List Message) (x : Message) → IsThere ms → IsThere (ms ++ x ∷ [])
  append-IsThere [] x h = cc
  append-IsThere (y ∷ ms) x h = ground (arith, append-IsThere ms x)

  prune-IsThere :
      (a b c now : ℕ) (ms : List Message)
      → All IsSpared ms
      → IsThere ms
      → IsThere (prune_messages a b c now ms)
  unfolding prune_messages
  prune-IsThere a b c now [] spared h = cc
  prune-IsThere a b c now (x ∷ ms) spared h = elim (Bool-cases (str_eq x.id j)) [
    | inl same ↦ rw (spared.0 ((eq_iff x.id j).0 same) a b c now) (ground arith)
    | inr other ↦
        let rest = prune-IsThere a b c now ms spared.1 (ground arith) in
        elim (Bool-cases (is_prunable a b c now x)) [
          | inl gone ↦ rw gone rest
          | inr stays ↦ rw stays (ground arith)
        ]
  ]

  insert-IsThere :
      (x : Message) (ms : List Message)
      → IsThere ms
      → IsThere (written ms (insert_message_row x ms))
  unfolding insert_message_row
  insert-IsThere x ms h = elim (Option-cases (existing_message x.idempotency_key ms)) [
    | inr (y, e) ↦ rw (e, insert_message_row) h
    | inl e ↦ elim (Bool-cases (is_some (get_message x.id ms))) [
      | inl taken ↦ rw (e, insert_message_row, taken) h
      | inr free ↦ rw (e, insert_message_row, free) (append-IsThere ms x h)
    ]
  ]

  module _ (m : Moment) (s : Inbox) (h : IsThere s.messages) where
    pub call-IsThere :
        (c : InboxCall) → All IsSpared s.messages → IsThere (call_inbox m c s).messages
    unfolding call_inbox send_message claim_inbox_for_run ack_claimed_inbox_for_run
        release_claimed_inbox_for_run recover_stale_inbox_claims mark_read ack_message mark_all_read
        expire_messages reserved
    call-IsThere (InboxCall.sends opts fresh) spared =
        written-bind IsThere s.messages (filled_text opts.from_agent _) _ h λ from _.
          written-bind IsThere s.messages (filled_text opts.to_agent _) _ h λ to _.
            written-bind IsThere s.messages (given_text opts.body) _ h λ body _.
              written-bind IsThere s.messages (guard (opts.attachments == 0) _) _ h λ _ _.
                written-bind IsThere s.messages (find_kind (filled_or opts.kind "text") kinds) _ h
                  λ kind _.
                    insert-IsThere (new_message fresh from to body kind opts m.now) s.messages h
    call-IsThere (InboxCall.claims agent run limit) spared =
        written-bind IsThere s.messages (required_id agent) _ h λ a _.
          written-bind IsThere s.messages (required_id run) _ h λ r e.
            written-bind IsThere s.messages (check_limit limit) _ h λ n _.
              same-IsThere s.messages _
                (keys-reserve_each a r m.now (candidates a r n s.messages) s.messages) h
    call-IsThere (InboxCall.acks run ids) spared =
        written-bind (λ (s' : Inbox). IsThere s'.messages) s (required_id run) _ h
          λ r e.
            written-bind (λ (s' : Inbox). IsThere s'.messages) s (normalize_message_ids ids) _ h
              λ ns _. same-IsThere s.messages _ (keys-ack_each r m.now ns s.messages) h
    call-IsThere (InboxCall.releases run ids reason) spared =
        written-bind IsThere s.messages (required_id run) _ h λ r e.
          written-bind IsThere s.messages (normalize_message_ids ids) _ h
            λ ns _. same-IsThere s.messages _ (keys-release_each r _ ns s.messages) h
    call-IsThere (InboxCall.recovers older_than) spared =
        let old =
          sort_messages is_older
            (keep (is_abandoned (age_of older_than) m.now m.runs) s.messages) in
        same-IsThere s.messages _ (keys-recover_each old s.messages) h
    call-IsThere (InboxCall.records_attempt id succeeded actor error) spared =
        same-IsThere s.messages _ (keys-record id succeeded actor error m.now s) h
    call-IsThere (InboxCall.marks_delivered id) spared =
        same-IsThere s.messages _ (keys-delivered id m.now s) h
    call-IsThere (InboxCall.marks_read id) spared =
        same-IsThere s.messages _
          (keys-modify message_key (read_row m.now) (λ x. refl) id can_read s.messages) h
    call-IsThere (InboxCall.acknowledges id actor detail) spared =
        same-IsThere s.messages _
          (keys-modify message_key (acknowledge_row m.now) (λ x. refl) id _ s.messages) h
    call-IsThere (InboxCall.marks_all_read agent_id) spared =
        same-IsThere s.messages _
          (keys-update_where message_key (read_row m.now) (λ x. refl) (is_unread_for agent_id)
            s.messages)
          h
    call-IsThere InboxCall.expires spared =
        same-IsThere s.messages _
          (keys-update_where message_key expire_row (λ x. refl) (is_expired m.now) s.messages) h
    call-IsThere (InboxCall.prunes days delivered_days system_days) spared =
        prune-IsThere days delivered_days system_days m.now s.messages spared h

  pub claim-IsThere :
      (agent run : Option String) (limit : Option ℕ) (now : ℕ) (ms rows mine : List Message)
      → IsThere ms
      → claim_inbox_for_run agent run limit now ms ≡ ok (rows, mine)
      → IsThere rows
  unfolding reserved
  claim-IsThere agent run limit now ms rows mine h done =
      let (a, r, n, _, _, _, left, _) = claim-returns agent run limit now ms rows mine done in
      subst IsThere left (same-IsThere ms _ (keys-reserve_each a r now (candidates a r n ms) ms) h)

  pub found-IsThere : (ms : List Message) {x : Message} → get_message j ms ≡ some x → IsThere ms
  unfolding find
  found-IsThere [] h = cc
  found-IsThere (y ∷ ms) {x} h = ground (arith, found-IsThere ms {x = x})

  -- The row with this id, of which holds what holds of all rows.
  pub IsThere-found :
      (P : Message → Type 0) (ms : List Message)
      → IsThere ms
      → All P ms
      → (x : Message) × (get_message j ms ≡ some x) × P x
  unfolding find
  IsThere-found P [] h all = cc
  IsThere-found P (y ∷ ms) h all = elim (Bool-cases (str_eq y.id j)) [
    | inl same ↦ (y, rw same refl, all.0)
    | inr other ↦
        let (x, found, p) = IsThere-found P ms (ground arith) all.1 in (x, rw other found, p)
  ]

-- What every call keeps of all rows, and spares from the prune, stays in the table.
pub run-IsThere :
    (P : Message → Type 0) (j : String) (cs : List (Moment × InboxCall)) (s : Inbox)
    → ((x : Message) → P x → IsSpared j x)
    → All (λ c. Keeps P c.0 c.1) cs
    → All P s.messages
    → IsThere j s.messages
    → IsThere j (run_inbox cs s).messages
unfolding run_inbox
run-IsThere P j [] s spares keeps all h = h
run-IsThere P j ((m, c) ∷ cs) s spares keeps all h =
    run-IsThere P j cs (call_inbox m c s) spares keeps.1 (call-Keeps P m s all c keeps.0)
      (call-IsThere j m s h c (All-spared s.messages all))
  where
    All-spared : (ms : List Message) → All P ms → All (IsSpared j) ms
    All-spared [] a = tt
    All-spared (x ∷ ms) a = (spares x a.0, All-spared ms a.1)
