-- ===== src/Inbox/Exclusive.antt =====
-- A message that is reserved for a run is not given to another one (messages.js).
use openclaw_scheduler.Base.{
  ℕ, ◌≡◌, ◌≢◌, sym, ◌∙◌, ap, String, true, false, List, [], ◌∷◌, map, Option, some, ok, All, arith,
  holds_text_iff,
}
use openclaw_scheduler.Base.Table.Primary.{IsPrimary, All-found}
use openclaw_scheduler.Run.Row.{Run}
use openclaw_scheduler.Inbox.Row.{
  Message, Inbox, message_key, get_message, prompt_run_id, is_reserved_by,
}
use openclaw_scheduler.Inbox.Claim.{required_id, is_own, claim_inbox_for_run}
use openclaw_scheduler.Inbox.Recover.{is_abandoned, has_active_owner}
use openclaw_scheduler.Inbox.Calls.{InboxCall, Moment, run_inbox}
use openclaw_scheduler.Inbox.Returns.{claim-All}
use openclaw_scheduler.Inbox.Writes.{Keeps}
use openclaw_scheduler.Inbox.Every.{run-Keeps}
use openclaw_scheduler.Inbox.Ops.{is_notice}
use openclaw_scheduler.Inbox.Present.{
  IsSpared, IsThere-found, found-IsThere, run-IsThere, claim-IsThere,
}
use openclaw_scheduler.Base.Table.{find-key}

module _ (run j : String) where
  abbrev pub IsKept : Message → Type 0
  IsKept x = x.id ≡ j → (is_reserved_by run x ≡ true) × (is_notice x.kind ≡ false)

  -- A call that neither settles the run's reservations nor sends a message under the same id; a
  -- recovery finds the run active.
  abbrev pub IsForeign : Moment → InboxCall → Type 0
  IsForeign m (InboxCall.sends opts fresh) = fresh ≢ j
  IsForeign m (InboxCall.acks r ids) = required_id r ≢ ok run
  IsForeign m (InboxCall.releases r ids reason) = required_id r ≢ ok run
  IsForeign m (InboxCall.recovers older_than) = has_active_owner m.runs (some run) ≡ true
  IsForeign m _ = Unit

  other_run :
      (r : String) (x : Message)
      → r ≢ run
      → is_reserved_by run x ≡ true
      → is_reserved_by r x ≡ false
  unfolding is_reserved_by
  other_run r x ne h = ground (
    arith,
    holds_text_iff (prompt_run_id x.metadata) r,
    holds_text_iff (prompt_run_id x.metadata) run,
  )

  owner_active :
      (seconds now : ℕ) (runs : List Run) (x : Message)
      → has_active_owner runs (some run) ≡ true
      → is_reserved_by run x ≡ true
      → is_abandoned seconds now runs x ≡ false
  unfolding is_reserved_by is_abandoned
  owner_active seconds now runs x active h =
      let owner : prompt_run_id x.metadata ≡ some run =
        ground (arith, holds_text_iff (prompt_run_id x.metadata) run) in
      rw owner (rw active (ground arith))

  foreign-Keeps : (m : Moment) (c : InboxCall) → IsForeign m c → Keeps IsKept m c
  unfolding is_reserved_by
  foreign-Keeps m (InboxCall.sends opts fresh) foreign = λ x e same. absurd (foreign (sym e ∙ same))
  foreign-Keeps m (InboxCall.claims agent r limit) foreign = λ a r' x e h same. ground arith
  foreign-Keeps m (InboxCall.acks r ids) foreign = λ r' x e h same.
      let named : x.id ≡ j = ground arith in
      ground (arith, h named, other_run r' x (λ p. foreign (e ∙ ap ok p)) (h named).0)
  foreign-Keeps m (InboxCall.releases r ids reason) foreign = λ r' t x e h same.
      let named : x.id ≡ j = ground arith in
      ground (arith, h named, other_run r' x (λ p. foreign (e ∙ ap ok p)) (h named).0)
  foreign-Keeps m (InboxCall.recovers older_than) foreign =
      λ seconds c x old h id_is k same. ground (arith, owner_active seconds m.now m.runs c foreign)
  foreign-Keeps m (InboxCall.records_attempt id succeeded actor error) foreign =
      λ e x h same. h same
  foreign-Keeps m (InboxCall.marks_delivered id) foreign =
      (λ x h same. ground arith, λ e x h same. h same)
  foreign-Keeps m (InboxCall.marks_read id) foreign = λ x h same. ground arith
  foreign-Keeps m (InboxCall.acknowledges id actor detail) foreign = λ x h same. ground arith
  foreign-Keeps m (InboxCall.marks_all_read agent_id) foreign = λ x h same. ground arith
  foreign-Keeps m InboxCall.expires foreign = λ x h same. ground arith
  foreign-Keeps m (InboxCall.prunes days delivered_days system_days) foreign = tt

  foreign-All :
      (cs : List (Moment × InboxCall))
      → All (λ c. IsForeign c.0 c.1) cs
      → All (λ c. Keeps IsKept c.0 c.1) cs
  foreign-All [] h = tt
  foreign-All ((m, c) ∷ cs) h = (foreign-Keeps m c h.0, foreign-All cs h.1)

  IsKept-All :
      (m : Message) (t : List Message)
      → IsPrimary (map message_key t)
      → get_message j t ≡ some m
      → is_reserved_by run m ≡ true
      → is_notice m.kind ≡ false
      → All IsKept t
  IsKept-All m t keys found own kind = from t (All-found message_key t keys)
    where
      from : (u : List Message) → All (λ x. get_message x.id t ≡ some x) u → All IsKept u
      from [] h = tt
      from (x ∷ u) h = (λ same. ground arith, from u h.1)

  others_only :
      (agent r : String) (t : List Message)
      → r ≢ run
      → All (λ x. (is_own agent r x ≡ true) × IsKept x) t
      → All (λ x. x.id ≢ j) t
  others_only agent r [] ne h = tt
  others_only agent r (x ∷ t) ne h =
      (λ same. ground (arith, other_run r x ne (h.0.1 same).0), others_only agent r t ne h.1)

  -- The prune deletes no message that is reserved, but notices.
  kept-IsSpared : (x : Message) → IsKept x → IsSpared j x
  unfolding is_reserved_by
  kept-IsSpared x h same = λ a b c now. ground (arith, h same)

-- A message other than a `system` or `result` notice that is reserved for a run is, after any calls
-- that neither settle that run's reservations nor send a message under the same id, and after a
-- claim by any other run, in the table and reserved for it; and the claim does not return it. The
-- ids are a primary key, and the run is active at each recovery. A notice is excepted, since the
-- prune deletes an old one even while it is reserved.
pub reserved_for_one :
    (run j : String) (m : Message) (s : Inbox) (cs : List (Moment × InboxCall))
    (agent other : Option String) (limit : Option ℕ) (now : ℕ) (rows theirs : List Message)
    → IsPrimary (map message_key s.messages)
    → get_message j s.messages ≡ some m
    → is_reserved_by run m ≡ true
    → is_notice m.kind ≡ false
    → All (λ c. IsForeign run j c.0 c.1) cs
    → required_id other ≢ ok run
    → claim_inbox_for_run agent other limit now (run_inbox cs s).messages ≡ ok (rows, theirs)
    → (m' : Message) × (get_message j rows ≡ some m')
      × (is_reserved_by run m' ≡ true)
      × All (λ x. x.id ≢ j) theirs
reserved_for_one run j m s cs agent other limit now rows theirs keys found own kind foreign ne
      done =
    let moves = foreign-All run j cs foreign in
    let first = IsKept-All run j m s.messages keys found own kind in
    let held = run-Keeps (IsKept run j) cs s moves first in
    let there =
      run-IsThere (IsKept run j) j cs s (kept-IsSpared run j) moves first
        (found-IsThere j s.messages found) in
    let (a, r, as_run, after, given) =
      claim-All (IsKept run j) agent other limit now (run_inbox cs s).messages rows theirs
        (foreign-Keeps run j (record { now = now; runs = [] }) (InboxCall.claims agent other limit)
          tt)
        held done in
    let (m', found', kept) =
      IsThere-found j (IsKept run j) rows
        (claim-IsThere j agent other limit now _ rows theirs there done) after in
    (
      m',
      found',
      (kept (find-key message_key j rows found')).0,
      others_only run j a r theirs (λ p. ne (as_run ∙ ap ok p)) given,
    )
