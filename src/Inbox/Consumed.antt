-- ===== src/Inbox/Consumed.antt =====
-- A message that has left the queue does not come back to a prompt (messages.js).
use openclaw_scheduler.Base.{
  ℕ, ◌≡◌, ◌≢◌, sym, ◌∙◌, String, Bool, true, false, List, [], ◌∷◌, Option, ok, All, arith,
}
use openclaw_scheduler.Inbox.Row.{Message, MessageStatus, Inbox, is_reserved_by}
use openclaw_scheduler.Inbox.Claim.{is_own, claim_inbox_for_run}
use openclaw_scheduler.Inbox.Calls.{InboxCall, Moment, run_inbox}
use openclaw_scheduler.Inbox.Returns.{claim-All}
use openclaw_scheduler.Inbox.Writes.{Keeps}
use openclaw_scheduler.Inbox.Every.{run-Keeps}

abbrev pub is_consumed : MessageStatus → Bool
is_consumed MessageStatus.pending = false
is_consumed MessageStatus.prompt_claimed = false
is_consumed _ = true

module _ (j : String) where
  abbrev pub IsGone : Message → Type 0
  IsGone x = x.id ≡ j → is_consumed x.status ≡ true

  -- No message is sent under the id again.
  abbrev pub IsFresh : InboxCall → Type 0
  IsFresh (InboxCall.sends opts fresh) = fresh ≢ j
  IsFresh _ = Unit

  fresh-Keeps : (m : Moment) (c : InboxCall) → IsFresh c → Keeps IsGone m c
  unfolding is_reserved_by
  fresh-Keeps m (InboxCall.sends opts id) fresh = λ x e same. absurd (fresh (sym e ∙ same))
  fresh-Keeps m (InboxCall.claims agent r limit) fresh = λ a r' x e h same. ground arith
  fresh-Keeps m (InboxCall.acks r ids) fresh = λ r' x e h same. ground arith
  fresh-Keeps m (InboxCall.releases r ids reason) fresh = λ r' t x e h same. ground arith
  fresh-Keeps m (InboxCall.recovers older_than) fresh =
      λ seconds c x old h id_is k same. ground arith
  fresh-Keeps m (InboxCall.records_attempt id succeeded actor error) fresh = λ e x h same. h same
  fresh-Keeps m (InboxCall.marks_delivered id) fresh =
      (λ x h same. ground arith, λ e x h same. h same)
  fresh-Keeps m (InboxCall.marks_read id) fresh = λ x h same. ground arith
  fresh-Keeps m (InboxCall.acknowledges id actor detail) fresh = λ x h same. ground arith
  fresh-Keeps m (InboxCall.marks_all_read agent_id) fresh = λ x h same. ground arith
  fresh-Keeps m InboxCall.expires fresh = λ x h same. ground arith
  fresh-Keeps m (InboxCall.prunes days delivered_days system_days) fresh = tt

  fresh-All :
      (cs : List (Moment × InboxCall))
      → All (λ c. IsFresh c.1) cs
      → All (λ c. Keeps IsGone c.0 c.1) cs
  fresh-All [] h = tt
  fresh-All ((m, c) ∷ cs) h = (fresh-Keeps m c h.0, fresh-All cs h.1)

  gone_apart :
      (agent r : String) (t : List Message)
      → All (λ x. (is_own agent r x ≡ true) × IsGone x) t
      → All (λ x. x.id ≢ j) t
  unfolding is_reserved_by
  gone_apart agent r [] h = tt
  gone_apart agent r (x ∷ t) h = (λ same. ground (arith, h.0.1 same), gone_apart agent r t h.1)

-- A message that is delivered, read, expired or failed stays so, whatever calls follow that do not
-- send a message under the same id, and no claim by any run returns it.
pub consumed_for_ever :
    (j : String) (s : Inbox) (cs : List (Moment × InboxCall)) (agent run : Option String)
    (limit : Option ℕ) (now : ℕ) (rows mine : List Message)
    → All (λ x. x.id ≡ j → is_consumed x.status ≡ true) s.messages
    → All (λ c. IsFresh j c.1) cs
    → claim_inbox_for_run agent run limit now (run_inbox cs s).messages ≡ ok (rows, mine)
    → All (λ x. x.id ≡ j → is_consumed x.status ≡ true) rows × All (λ x. x.id ≢ j) mine
consumed_for_ever j s cs agent run limit now rows mine gone fresh done =
    let held = run-Keeps (IsGone j) cs s (fresh-All j cs fresh) gone in
    let (a, r, as_run, after, given) =
      claim-All (IsGone j) agent run limit now (run_inbox cs s).messages rows mine
        (fresh-Keeps j (record { now = now; runs = [] }) (InboxCall.claims agent run limit) tt) held
        done in
    (after, gone_apart j a r mine given)
