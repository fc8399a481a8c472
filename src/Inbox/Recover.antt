-- ===== src/Inbox/Recover.antt =====
-- recoverStaleInboxClaims (messages.js).
use Prim.Native.Nat
use Prim.Native.String
use openclaw_scheduler.Base.{
  ℕ, ◌+◌, ◌*◌, String, Bool, true, false, not, ◌&&◌, List, [], ◌∷◌, Option, none, some, leb,
  first_by, datetime, str_eq, keep, any_of,
}
use openclaw_scheduler.Base.Table.{modify, returning}
use openclaw_scheduler.Run.Row.{Run, is_active}
use openclaw_scheduler.Inbox.Row.{
  Message, MessageStatus, MessageError, message_key, is_prompt_claimed, is_internal, prompt_run_id,
  prompt_claimed_at, remove_prompt_claim,
}
use openclaw_scheduler.Inbox.Claim.{sort_messages, also}

-- No valid time, or one that is `seconds` ago at least.
abbrev is_old : ℕ → ℕ → Option ℕ → Bool
is_old seconds now none = true
is_old seconds now (some t) = leb (t + 1000 * seconds) (datetime now)

-- EXISTS (SELECT 1 FROM runs r WHERE r.id = … AND r.status IN …)
unfoldable pub has_active_owner : List Run → Option String → Bool
has_active_owner runs none = false
has_active_owner runs (some id) = any_of (λ r. str_eq r.id id && is_active r.status) runs

unfoldable pub is_abandoned : ℕ → ℕ → List Run → Message → Bool
unfolding prompt_claimed_at prompt_run_id has_active_owner datetime
is_abandoned seconds now runs m =
    is_prompt_claimed m.status
    && is_internal m
    && is_old seconds now (prompt_claimed_at m.metadata)
    && not (has_active_owner runs (prompt_run_id m.metadata))

-- ORDER BY created_at ASC, id ASC
unfoldable pub is_older : Message → Message → Bool
is_older a b =
    first_by (Nat.compare a.created_at b.created_at) (first_by (String.compare a.id b.id) true)

-- `candidate.prompt_run_id ? … : …`
abbrev pub detail_of : Option String → MessageError
detail_of none = MessageError.recovered_malformed
detail_of (some String.[]) = MessageError.recovered_malformed
detail_of (some (String.◌∷◌ c s)) = MessageError.recovered_from (String.◌∷◌ c s)

abbrev pub recover_row : MessageError → Message → Message
recover_row detail m = record m {
  status = MessageStatus.pending;
  metadata = remove_prompt_claim m.metadata;
  last_error = some detail;
}

abbrev pub may_recover : Message → Bool
may_recover m = is_prompt_claimed m.status

abbrev pub recovers_to : Message → Message → Message
recovers_to candidate = recover_row (detail_of (prompt_run_id candidate.metadata))

unfoldable pub recover_each : List Message → List Message → List Message × List Message
recover_each [] ms = (ms, [])
recover_each (c ∷ cs) ms =
    let rest = recover_each cs (modify message_key c.id may_recover (recovers_to c) ms) in
    (rest.0, also (returning message_key c.id may_recover (recovers_to c) ms) rest.1)

-- The age in seconds is 300 by default.
abbrev pub age_of : Option ℕ → ℕ
age_of none = 300
age_of (some n) = n

unfoldable pub recover_stale_inbox_claims :
    Option ℕ → ℕ → List Run → List Message → List Message × List Message
unfolding is_abandoned is_older recover_each
recover_stale_inbox_claims older_than now runs ms =
    recover_each (sort_messages is_older (keep (is_abandoned (age_of older_than) now runs) ms)) ms
