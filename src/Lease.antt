-- ===== src/Lease.antt =====
-- runtime-lease.js: the named singleton leases of the dispatcher, with fencing tokens.
-- Times are milliseconds; `julianday` compares them exactly. An argument that must be a positive
-- integer is a number here, and 0 stands for everything that the code refuses.
pub mod Fencing
pub mod Acquire
mod Tests
use openclaw_scheduler.Base.{
  ℕ, ◌+◌, String, Bool, true, false, not, ◌&&◌, ◌||◌, List, [], ◌∷◌, ◌++◌, Option, none, some, ltb,
  leb, ◌==◌, if◌then◌else◌, str_eq, is_blank, is_some, Result, ok, err, guard, written, ◌>>=◌, ◌>>◌,
  arith,
}
use openclaw_scheduler.Base.Table.{find, modify, returning}

pub record Lease : Type 0 where
  pub name : String
  pub owner_id : String
  pub fencing_token : ℕ
  pub acquired_at : ℕ
  pub renewed_at : ℕ
  pub expires_at : ℕ

pub data LeaseError : Type 0 where
  name_required owner_required bad_ttl bad_token : LeaseError

abbrev pub lease_key : Lease → String
lease_key l = l.name

abbrev pub find_lease : String → List Lease → Option Lease
find_lease = find lease_key

-- `julianday(expires_at) > julianday('now')`
abbrev pub is_live : ℕ → Lease → Bool
is_live now l = ltb now l.expires_at

assert_identity : String → String → Result LeaseError (Unit {0})
assert_identity name owner = do
  guard (not (is_blank name)) name_required
  guard (not (is_blank owner)) owner_required

normalize_ttl : ℕ → Result LeaseError ℕ
normalize_ttl ttl = if ttl == 0 then err bad_ttl else ok ttl

-- The row and whether it is active now.
unfoldable get_dispatcher_lease :
    String → ℕ → List Lease → Result LeaseError (Option (Lease × Bool))
get_dispatcher_lease name now t = do
  guard (not (is_blank name)) name_required
  ok (elim (find_lease name t) [ none ↦ none | some l ↦ some (l, is_live now l) ])

abbrev pub first_lease : String → String → ℕ → ℕ → Lease
first_lease name owner now expires = record {
  name = name;
  owner_id = owner;
  fencing_token = 1;
  acquired_at = now;
  renewed_at = now;
  expires_at = expires;
}

-- The WHERE and the SET of ON CONFLICT(name) DO UPDATE.
abbrev pub may_take : String → ℕ → Lease → Bool
may_take owner now l = str_eq l.owner_id owner || leb l.expires_at now

abbrev pub take_lease : String → ℕ → ℕ → Lease → Lease
take_lease owner now expires l = record l {
  owner_id = owner;
  fencing_token = if leb l.expires_at now then l.fencing_token + 1 else l.fencing_token;
  acquired_at = if leb l.expires_at now then now else l.acquired_at;
  renewed_at = now;
  expires_at = expires;
}

unfoldable pub upsert_lease : String → String → ℕ → ℕ → List Lease → List Lease × Option Lease
upsert_lease name owner now expires t = elim (find_lease name t) [
  | none ↦ let fresh : Lease = first_lease name owner now expires in (t ++ fresh ∷ [], some fresh)
  | some l ↦ (
    modify lease_key name (may_take owner now) (take_lease owner now expires) t,
    returning lease_key name (may_take owner now) (take_lease owner now expires) t,
  )
]

unfoldable pub acquire_dispatcher_lease :
    String → String → ℕ → ℕ → List Lease → Result LeaseError (List Lease × Option Lease)
unfolding assert_identity normalize_ttl upsert_lease
acquire_dispatcher_lease name owner ttl now t = do
  assert_identity name owner
  ms ← normalize_ttl ttl
  ok (upsert_lease name owner now (now + ms) t)

-- `owner_id = ? AND fencing_token = ? AND julianday(expires_at) > julianday('now')`
abbrev pub holds : String → ℕ → ℕ → Lease → Bool
holds owner token now l = str_eq l.owner_id owner && l.fencing_token == token && is_live now l

abbrev pub extend_lease : ℕ → ℕ → Lease → Lease
extend_lease now expires l = record l { renewed_at = now; expires_at = expires }

unfoldable pub renew_dispatcher_lease :
    String → String → ℕ → ℕ → ℕ → List Lease → Result LeaseError (List Lease × Option Lease)
unfolding assert_identity normalize_ttl
renew_dispatcher_lease name owner token ttl now t = do
  assert_identity name owner
  guard (not (token == 0)) bad_token
  ms ← normalize_ttl ttl
  ok (
    modify lease_key name (holds owner token now) (extend_lease now (now + ms)) t,
    returning lease_key name (holds owner token now) (extend_lease now (now + ms)) t,
  )

-- SELECT 1 FROM dispatcher_leases WHERE …: also the EXISTS of every fenced run update.
unfoldable pub is_held : String → String → ℕ → ℕ → List Lease → Bool
is_held name owner token now t = elim (find_lease name t) [
  | none ↦ false
  | some l ↦ holds owner token now l
]

unfoldable pub assert_dispatcher_lease :
    String → String → ℕ → ℕ → List Lease → Result LeaseError Bool
unfolding assert_identity is_held
assert_dispatcher_lease name owner token now t = do
  assert_identity name owner
  ok (if token == 0 then false else is_held name owner token now t)

unfoldable pub release_dispatcher_lease :
    String → String → ℕ → ℕ → List Lease → Result LeaseError (List Lease × Bool)
unfolding assert_identity
release_dispatcher_lease name owner token now t = do
  assert_identity name owner
  let rows = modify lease_key name (holds owner token now) (extend_lease now now) t
  let row = returning lease_key name (holds owner token now) (extend_lease now now) t
  ok (if token == 0 then (t, false) else (rows, is_some row))

-- One call by anyone: what is written, with a refused or failed call leaving the table alone.
pub data LeaseCall : Type 0 where
  acquires : String → String → ℕ → LeaseCall
  renews : String → String → ℕ → ℕ → LeaseCall
  releases : String → String → ℕ → LeaseCall

unfoldable pub call_lease : ℕ × LeaseCall → List Lease → List Lease
call_lease (now, acquires name owner ttl) t =
    written t (acquire_dispatcher_lease name owner ttl now t)
call_lease (now, renews name owner token ttl) t =
    written t (renew_dispatcher_lease name owner token ttl now t)
call_lease (now, releases name owner token) t =
    written t (release_dispatcher_lease name owner token now t)

unfoldable pub run_calls : List (ℕ × LeaseCall) → List Lease → List Lease
run_calls [] t = t
run_calls (c ∷ cs) t = run_calls cs (call_lease c t)

-- Every call either leaves the table or writes the rows of its statement.
acquire-cases :
    (P : List Lease → Type 0) (name owner : String) (ttl now : ℕ) (t : List Lease)
    → P t
    → P (upsert_lease name owner now (now + ttl) t).0
    → P (written t (acquire_dispatcher_lease name owner ttl now t))
unfolding acquire_dispatcher_lease
acquire-cases P name owner ttl now t refused taken = ground arith

extend_rows : String → String → ℕ → ℕ → ℕ → List Lease → List Lease
extend_rows name owner token now expires =
    modify lease_key name (holds owner token now) (extend_lease now expires)

renew-cases :
    (P : List Lease → Type 0) (name owner : String) (token ttl now : ℕ) (t : List Lease)
    → P t
    → P (extend_rows name owner token now (now + ttl) t)
    → P (written t (renew_dispatcher_lease name owner token ttl now t))
unfolding renew_dispatcher_lease extend_rows
renew-cases P name owner token ttl now t refused renewed = ground arith

release-cases :
    (P : List Lease → Type 0) (name owner : String) (token now : ℕ) (t : List Lease)
    → P t
    → P (extend_rows name owner token now now t)
    → P (written t (release_dispatcher_lease name owner token now t))
unfolding release_dispatcher_lease extend_rows
release-cases P name owner token now t refused released = ground arith
