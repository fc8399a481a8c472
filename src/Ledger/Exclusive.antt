-- ===== src/Ledger/Exclusive.antt =====
-- A claimed key is claimed by nobody else until it is released or pruned (idempotency.js).
use openclaw_scheduler.Base.{
  ℕ, ◌≡◌, refl, String, true, false, List, Option, none, some, All, filled, ap, ◌∙◌,
}
use openclaw_scheduler.Base.Table.{modify, find-modify}
use openclaw_scheduler.Ledger.{
  Entry, EntryStatus, entry_key, get_idempotency_entry, claim_idempotency_key, claim_found,
  release_idempotency_key, check_idempotency_key, if_claimed, is_claimed_entry, release_entry,
  reclaim, always, is_claimed,
}
use openclaw_scheduler.Ledger.Holding.{
  LedgerCall, run_ledger, Spares, IsHolding, run-IsHolding, claimed-IsHolding, held-refused,
}

-- Once a run has claimed a key, the key stays claimed for that run, and every later claim of it is
-- refused and writes nothing, whatever calls on the ledger come between, as long as none of them
-- releases this key and none prunes after its expiry.
pub claim_exclusive :
    (sha256 : String → String) (o : Option String) (k job run job' run' : String)
    (expires expires' now now' : ℕ) (cs : List (ℕ × LedgerCall)) (t t' : List Entry)
    → filled o ≡ some k
    → claim_idempotency_key o job run expires now t ≡ (t', true)
    → All (Spares k expires) cs
    → let later = run_ledger sha256 cs t' in
      IsHolding k job run expires later
      × (claim_idempotency_key o job' run' expires' now' later ≡ (later, false))
claim_exclusive sha256 o k job run job' run' expires expires' now now' cs t t' named done spares =
    let held =
      run-IsHolding k job run expires sha256 cs t' spares
        (claimed-IsHolding k job run expires o now t t' named done) in
    (held, held-refused k job run expires o job' run' expires' now' _ named held)

release-is :
    (o : Option String) (k : String) (now : ℕ) (t : List Entry)
    → filled o ≡ some k
    → release_idempotency_key o now t ≡ modify entry_key k is_claimed_entry (release_entry now) t
unfolding release_idempotency_key
release-is o k now t named = rw named

released_claim :
    (o : Option String) (k job run : String) (expires now : ℕ) (t : List Entry) (e : Entry)
    → filled o ≡ some k
    → get_idempotency_entry k t ≡ some e
    → is_claimed e.status ≡ false
    → claim_idempotency_key o job run expires now t
      ≡ (modify entry_key k always (reclaim job run expires now) t, true)
unfolding claim_idempotency_key claim_found
released_claim o k job run expires now t e named found free = rw (named, found) (rw free)

unclaimed :
    (k : String) (t : List Entry) (e : Entry)
    → get_idempotency_entry k t ≡ some e
    → is_claimed e.status ≡ false
    → check_idempotency_key k t ≡ none
unfolding check_idempotency_key
unclaimed k t e found free = ap if_claimed found ∙ rw free

-- Releasing a claimed key reports it as unclaimed, and the next claim of it succeeds and holds it
-- for the new run, whoever held it before.
pub release_reopens :
    (o : Option String) (k job run : String) (expires now now' : ℕ) (t : List Entry) (e : Entry)
    → filled o ≡ some k
    → get_idempotency_entry k t ≡ some e
    → e.status ≡ EntryStatus.claimed
    → let released = release_idempotency_key o now t in
      (check_idempotency_key k released ≡ none)
      × (t' : List Entry) × (claim_idempotency_key o job run expires now' released ≡ (t', true))
      × IsHolding k job run expires t'
release_reopens o k job run expires now now' t e named found held =
    let t1 : List Entry = modify entry_key k is_claimed_entry (release_entry now) t in
    let there : get_idempotency_entry k t1 ≡ some (release_entry now e) =
      find-modify entry_key (release_entry now) (λ x. refl) k is_claimed_entry t
      ∙ rw (found, held) in
    let done = released_claim o k job run expires now' t1 (release_entry now e) named there refl in
    rw (release-is o k now t named) (
      unclaimed k t1 (release_entry now e) there refl,
      modify entry_key k always (reclaim job run expires now') t1,
      done,
      claimed-IsHolding k job run expires o now' t1 _ named done,
    )
