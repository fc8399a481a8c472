-- ===== src/Ledger.antt =====
-- idempotency.js: the ledger of idempotency keys. `sha256` is the hexadecimal digest that the
-- crypto module computes, and `fresh` the text that randomUUID would return.
mod Holding
mod Exclusive
mod Tests
use Prim.Native.String
use openclaw_scheduler.Base.{
  ℕ, String, Bool, true, false, not, List, [], ◌∷◌, ◌++◌, Option, none, some, ltb, leb,
  if◌then◌else◌, is_blank, trim, filled, datetime, slice, keep, take, count_of, holds_text, Result,
  ok, err, guard, ◌>>=◌, ◌>>◌,
}
use openclaw_scheduler.Base.Table.{find, modify}

pub data EntryStatus : Type 0 where
  claimed released : EntryStatus

pub record Entry : Type 0 where
  pub key : String
  pub job_id : String
  pub run_id : String
  pub status : EntryStatus
  pub claimed_at : ℕ
  pub released_at : Option ℕ
  pub result_hash : Option String
  pub expires_at : ℕ

abbrev pub entry_key : Entry → String
entry_key e = e.key

abbrev pub is_claimed : EntryStatus → Bool
is_claimed claimed = true
is_claimed released = false

pub data KeyError : Type 0 where
  id_required time_required : KeyError

unfoldable required_id : String → Result KeyError String
required_id value = if is_blank value then err id_required else ok (trim value)

abbrev required_time : Option String → Result KeyError String
required_time none = err time_required
required_time (some t) = ok t

abbrev digest_key : (String → String) → String → String
digest_key sha256 raw = slice 32 (sha256 raw)

abbrev colon : String → String → String
colon a b = String.◌++◌ a (String.◌++◌ ":" b)

unfoldable generate_idempotency_key :
    (String → String) → String → Option String → Result KeyError String
generate_idempotency_key sha256 job_id scheduled_time = do
  id ← required_id job_id
  time ← required_time (filled scheduled_time)
  ok (digest_key sha256 (colon id time))

unfoldable generate_chain_idempotency_key :
    (String → String) → String → String → Result KeyError String
generate_chain_idempotency_key sha256 parent_run_id child_job_id = do
  parent ← required_id parent_run_id
  child ← required_id child_job_id
  ok (digest_key sha256 (colon "chain" (colon parent child)))

abbrev seed : Option String → String → Result KeyError String
seed none fresh = ok (colon "nonce" fresh)
seed (some dispatch_id) fresh = do id ← required_id dispatch_id; ok (colon "dispatch" id)

unfoldable generate_run_now_idempotency_key :
    (String → String) → String → Option String → String → Result KeyError String
generate_run_now_idempotency_key sha256 job_id dispatch_id fresh = do
  id ← required_id job_id
  s ← seed dispatch_id fresh
  ok (digest_key sha256 (colon "run_now" (colon id s)))

abbrev pub get_idempotency_entry : String → List Entry → Option Entry
get_idempotency_entry = find entry_key

abbrev pub if_claimed : Option Entry → Option Entry
if_claimed none = none
if_claimed (some e) = if is_claimed e.status then some e else none

unfoldable pub check_idempotency_key : String → List Entry → Option Entry
check_idempotency_key k t = if_claimed (get_idempotency_entry k t)

abbrev pub new_entry : String → String → String → ℕ → ℕ → Entry
new_entry k job_id run_id expires_at now = record {
  key = k;
  job_id = job_id;
  run_id = run_id;
  status = claimed;
  claimed_at = datetime now;
  released_at = none;
  result_hash = none;
  expires_at = expires_at;
}

abbrev pub reclaim : String → String → ℕ → ℕ → Entry → Entry
reclaim job_id run_id expires_at now e = record e {
  status = claimed;
  job_id = job_id;
  run_id = run_id;
  claimed_at = datetime now;
  released_at = none;
  result_hash = none;
  expires_at = expires_at;
}

abbrev pub always : Entry → Bool
always e = true

-- The transaction, for the entry that it finds: the rows, and whether the key is claimed now.
unfoldable pub claim_found :
    Option Entry → String → String → String → ℕ → ℕ → List Entry → List Entry × Bool
claim_found none k job_id run_id expires_at now t =
    (t ++ new_entry k job_id run_id expires_at now ∷ [], true)
claim_found (some e) k job_id run_id expires_at now t =
    let taken = modify entry_key k always (reclaim job_id run_id expires_at now) t in
    if is_claimed e.status then (t, false) else (taken, true)

abbrev claim_filled : Option String → String → String → ℕ → ℕ → List Entry → List Entry × Bool
claim_filled none job_id run_id expires_at now t = (t, true)
claim_filled (some k) job_id run_id expires_at now t =
    claim_found (get_idempotency_entry k t) k job_id run_id expires_at now t

unfoldable pub claim_idempotency_key :
    Option String → String → String → ℕ → ℕ → List Entry → List Entry × Bool
claim_idempotency_key key job_id run_id expires_at now t =
    claim_filled (filled key) job_id run_id expires_at now t

abbrev pub release_entry : ℕ → Entry → Entry
release_entry now e = record e { status = released; released_at = some (datetime now) }

abbrev pub is_claimed_entry : Entry → Bool
is_claimed_entry e = is_claimed e.status

abbrev release_filled : Option String → ℕ → List Entry → List Entry
release_filled none now t = t
release_filled (some k) now t = modify entry_key k is_claimed_entry (release_entry now) t

unfoldable pub release_idempotency_key : Option String → ℕ → List Entry → List Entry
release_idempotency_key key now t = release_filled (filled key) now t

abbrev pub set_hash : String → Entry → Entry
set_hash hash e = record e { result_hash = some hash }

abbrev hash_filled : (String → String) → Option String → Option String → List Entry → List Entry
hash_filled sha256 (some k) (some content) t =
    modify entry_key k always (set_hash (slice 16 (sha256 content))) t
hash_filled sha256 _ _ t = t

unfoldable pub update_idempotency_result_hash :
    (String → String) → Option String → Option String → List Entry → List Entry
update_idempotency_result_hash sha256 key content t =
    hash_filled sha256 (filled key) (filled content) t

-- ORDER BY claimed_at DESC
unfoldable insert_latest : Entry → List Entry → List Entry
insert_latest e [] = e ∷ []
insert_latest e (x ∷ xs) =
    let rest = insert_latest e xs in if leb x.claimed_at e.claimed_at then e ∷ x ∷ xs else x ∷ rest

unfoldable sort_latest : List Entry → List Entry
unfolding insert_latest
sort_latest [] = []
sort_latest (e ∷ es) = insert_latest e (sort_latest es)

unfoldable list_idempotency_for_job : String → ℕ → List Entry → List Entry
unfolding sort_latest
list_idempotency_for_job job_id limit t =
    take limit (sort_latest (keep (λ e. holds_text (some e.job_id) job_id) t))

abbrev pub is_past : ℕ → Entry → Bool
is_past now e = ltb e.expires_at (datetime now)

-- DELETE FROM idempotency_ledger WHERE …: the rows that stay, and how many went.
unfoldable pub force_prune_idempotency : ℕ → List Entry → List Entry × ℕ
force_prune_idempotency now t = (keep (λ e. not (is_past now e)) t, count_of (is_past now) t)
