-- ===== src/Dispatch/Claim.antt =====
-- The claim identity of a dispatch, and claiming, renewing and releasing (dispatch-queue.js).
use openclaw_scheduler.Base.{
  ℕ, ◌+◌, String, Bool, true, false, not, ◌&&◌, ◌||◌, List, Option, none, some, ◌==◌, ltb,
  if◌then◌else◌, is_blank, has_text, or_else, holds_text, is_none, filled, datetime, Result, ok,
  err, guard, ◌>>=◌, ◌>>◌, ◌≡◌, arith,
}
use openclaw_scheduler.Base.Table.{modify, returning}
use openclaw_scheduler.Run.Fence.{same_bool}
use openclaw_scheduler.Job.Row.{Job, has_enabled}
use openclaw_scheduler.Dispatch.Row.{
  Dispatch, DispatchStatus, dispatch_key, is_pending, is_claimed, is_settled, is_unclaimed,
  is_releasable, parse_status,
}

pub data DispatchError : Type 0 where
  bad_lease identity_incomplete identity_required bad_status bad_kind bad_limit : DispatchError
  job_not_found artifact_required source_run_missing source_artifact_required : DispatchError
  source_artifact_mismatch different_invocation different_binding not_enqueued : DispatchError

-- The spellings of the options; a lease that is no positive integer is 0 here.
pub record ClaimOpts : Type 0 where
  pub owner_id : Option String
  pub claim_owner_camel : Option String
  pub claim_owner : Option String
  pub claim_token_camel : Option String
  pub claim_token : Option String
  pub lease_ms : Option ℕ
  pub last_error : Option String

pub record Identity : Type 0 where
  pub owner : String
  pub token : String

abbrev identity_of : Option String → Option String → Option Identity
identity_of (some owner) (some token) =
    if is_blank owner then none else some (record { owner = owner; token = token })
identity_of _ _ = none

-- `if (hasOwner && !hasToken && generateToken) token = randomUUID();`
abbrev generated : Bool → Option String → Option String → String → Option String
generated generate owner token fresh =
    if has_text owner && not (has_text token) && generate then some fresh else token

-- `fresh` is the text that randomUUID would return.
unfoldable pub normalize_claim_identity :
    ClaimOpts → Bool → String → Result DispatchError (Option Identity)
normalize_claim_identity opts generate fresh = do
  let owner = or_else opts.owner_id (or_else opts.claim_owner_camel opts.claim_owner)
  let given = or_else opts.claim_token_camel opts.claim_token
  let token = generated generate owner given fresh
  guard (same_bool (has_text owner) (has_text token)) identity_incomplete
  ok (identity_of owner token)

abbrev lease_or_default : Option ℕ → ℕ
lease_or_default none = 30000
lease_or_default (some ms) = ms

unfoldable pub claim_expiry : Option ℕ → ℕ → Result DispatchError ℕ
claim_expiry lease_ms now =
    let ms = lease_or_default lease_ms in if ms == 0 then err bad_lease else ok (now + ms)

-- UPDATE … RETURNING *: the rows and the row that was written.
abbrev pub update_dispatch :
    String
    → (Dispatch → Bool)
    → (Dispatch → Dispatch)
    → List Dispatch
    → List Dispatch × Option Dispatch
update_dispatch id guard f q =
    (modify dispatch_key id guard f q, returning dispatch_key id guard f q)

abbrev pub may_claim : List Job → Dispatch → Bool
may_claim jobs d = is_pending d.status && has_enabled d.job_id jobs

-- Without an identity the claim columns keep what they hold.
abbrev pub claimant : Option Identity → Option String → Option String
claimant none old = old
claimant (some i) old = some i.owner

abbrev pub claim_token_of : Option Identity → Option String → Option String
claim_token_of none old = old
claim_token_of (some i) old = some i.token

abbrev pub claim_row : Option Identity → ℕ → ℕ → Dispatch → Dispatch
claim_row identity now expires d = record d {
  status = DispatchStatus.claimed;
  claimed_at = some (datetime now);
  claim_owner = claimant identity d.claim_owner;
  claim_token = claim_token_of identity d.claim_token;
  claim_expires_at = some expires;
  attempt_count = d.attempt_count + 1;
  last_error = none;
}

unfoldable pub claim_dispatch :
    String
    → ClaimOpts
    → String
    → ℕ
    → List Job
    → List Dispatch
    → Result DispatchError (List Dispatch × Option Dispatch)
claim_dispatch id opts fresh now jobs q = do
  identity ← normalize_claim_identity opts true fresh
  expires ← claim_expiry opts.lease_ms now
  ok (update_dispatch id (may_claim jobs) (claim_row identity now expires) q)

-- `claim_owner = ? AND claim_token = ?`
unfoldable pub is_claimed_by : Identity → Dispatch → Bool
is_claimed_by i d = holds_text d.claim_owner i.owner && holds_text d.claim_token i.token

-- `julianday(claim_expires_at) > julianday('now')`
abbrev pub is_unexpired : ℕ → Option ℕ → Bool
is_unexpired now none = false
is_unexpired now (some t) = ltb now t

abbrev pub may_renew : Identity → ℕ → Dispatch → Bool
may_renew i now d = is_claimed d.status && is_claimed_by i d && is_unexpired now d.claim_expires_at

abbrev pub extend_claim : ℕ → Dispatch → Dispatch
extend_claim expires d = record d { claim_expires_at = some expires }

unfoldable pub require_identity : Option Identity → Result DispatchError Identity
require_identity none = err identity_required
require_identity (some i) = ok i

unfoldable pub renew_dispatch_claim :
    String → ClaimOpts → ℕ → List Dispatch → Result DispatchError (List Dispatch × Option Dispatch)
renew_dispatch_claim id opts now q = do
  identity ← normalize_claim_identity opts false String.[]
  i ← require_identity identity
  expires ← claim_expiry opts.lease_ms now
  ok (update_dispatch id (may_renew i now) (extend_claim expires) q)

-- With no identity only a row that nobody claimed by name is written.
unfoldable pub owns : Option Identity → Dispatch → Bool
owns none d = is_none d.claim_owner && is_none d.claim_token
owns (some i) d = is_claimed_by i d

abbrev pub may_release : Option Identity → Dispatch → Bool
may_release identity d = is_releasable d.status && owns identity d

abbrev pub time_or : Option ℕ → ℕ → ℕ
time_or none old = old
time_or (some t) old = t

abbrev pub release_row : Option ℕ → Option String → Dispatch → Dispatch
release_row scheduled_for last_error d = record d {
  status = DispatchStatus.pending;
  scheduled_for = time_or scheduled_for d.scheduled_for;
  last_error = or_else last_error d.last_error;
  claimed_at = none;
  claim_owner = none;
  claim_token = none;
  claim_expires_at = none;
}

-- The time to release to is an argument of its own; the code also takes it among the options.
unfoldable pub release_dispatch :
    String
    → Option ℕ
    → ClaimOpts
    → List Dispatch
    → Result DispatchError (List Dispatch × Option Dispatch)
release_dispatch id scheduled_for opts q = do
  identity ← normalize_claim_identity opts false String.[]
  ok (
      update_dispatch id (may_release identity) (release_row scheduled_for (filled opts.last_error))
        q)

abbrev pub may_set : Option Identity → Dispatch → Bool
may_set identity d = not (is_settled d.status) && owns identity d

abbrev pub settled_at : DispatchStatus → ℕ → Option ℕ
settled_at status now = if is_settled status then some (datetime now) else none

abbrev pub set_row : DispatchStatus → ℕ → Option String → Dispatch → Dispatch
set_row status now last_error d = record d {
  status = status;
  processed_at = or_else (settled_at status now) d.processed_at;
  last_error = or_else last_error d.last_error;
  claimed_at = if is_unclaimed status then none else d.claimed_at;
  claim_owner = if is_unclaimed status then none else d.claim_owner;
  claim_token = if is_unclaimed status then none else d.claim_token;
  claim_expires_at = if is_unclaimed status || is_settled status then none else d.claim_expires_at;
}

abbrev pub valid_status : Option DispatchStatus → Result DispatchError DispatchStatus
valid_status none = err bad_status
valid_status (some s) = ok s

unfoldable pub assert_status : String → Result DispatchError DispatchStatus
unfolding parse_status
assert_status s = valid_status (parse_status s)

unfoldable pub set_dispatch_status :
    String
    → String
    → ClaimOpts
    → ℕ
    → List Dispatch
    → Result DispatchError (List Dispatch × Option Dispatch)
set_dispatch_status id status opts now q = do
  s ← assert_status status
  identity ← normalize_claim_identity opts false String.[]
  ok (update_dispatch id (may_set identity) (set_row s now (filled opts.last_error)) q)

pub require_identity-some :
    (o : Option Identity) {i : Identity} → require_identity o ≡ ok i → o ≡ some i
unfolding require_identity
require_identity-some none h = cc
require_identity-some (some x) h = ground arith
