-- ===== src/Ledger/Tests.antt =====
-- The ledger at concrete inputs.
use openclaw_scheduler.Base.{
  ℕ, ◌≡◌, refl, true, false, List, [], ◌∷◌, none, some, arith, datetime, eq_iff,
}
use openclaw_scheduler.Base.Table.{find}
use openclaw_scheduler.Ledger.{
  Entry, EntryStatus, claim_idempotency_key, claim_found, check_idempotency_key,
  release_idempotency_key,
}
use openclaw_scheduler.Ledger.Holding.{
  LedgerCall, claims, releases, hashes, prunes, run_ledger, IsHolding,
}
use openclaw_scheduler.Ledger.Exclusive.{claim_exclusive, release_reopens}

abbrev claimed_entry : Entry
claimed_entry = record {
  key = "k";
  job_id = "j";
  run_id = "r1";
  status = EntryStatus.claimed;
  claimed_at = 1000;
  released_at = none;
  result_hash = none;
  expires_at = 90000;
}

abbrev calls : List (ℕ × LedgerCall)
calls =
    (2000, claims (some "k") "j" "r2" 95000)
    ∷ (3000, hashes (some "k") (some "content"))
    ∷ (4000, releases (some "other"))
    ∷ (5000, prunes)
    ∷ []

claim_exclusive_example :
    let later = run_ledger (λ s. s) calls (claimed_entry ∷ []) in
    IsHolding "k" "j" "r1" 90000 later
    × (claim_idempotency_key (some "k") "j" "r3" 99000 6000 later ≡ (later, false))
unfolding claim_idempotency_key claim_found find datetime
claim_exclusive_example =
    claim_exclusive (λ s. s) (some "k") "k" "j" "r1" "j" "r3" 90000 99000 1500 6000 calls []
      (claimed_entry ∷ []) refl refl
      (tt, (tt, (ground (arith, eq_iff "other" "k"), (omega arith, tt))))

release_reopens_example :
    let released = release_idempotency_key (some "k") 2500 (claimed_entry ∷ []) in
    (check_idempotency_key "k" released ≡ none)
    × (t' : List Entry) × (claim_idempotency_key (some "k") "j" "r2" 99000 3500 released
        ≡ (t', true))
    × IsHolding "k" "j" "r2" 99000 t'
unfolding find
release_reopens_example =
    release_reopens (some "k") "k" "j" "r2" 99000 2500 3500 (claimed_entry ∷ []) claimed_entry refl
      refl refl
