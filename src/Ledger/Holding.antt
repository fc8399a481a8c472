-- ===== src/Ledger/Holding.antt =====
-- Calls on the ledger, and what keeps a key claimed (idempotency.js).
use openclaw_scheduler.Base.{
  ℕ, ◌≤◌, ◌≡◌, ◌≢◌, refl, String, Bool, true, false, not, List, [], ◌∷◌, ◌++◌, Option, some, All,
  filled, datetime, arith, str_eq, sym, ap, ◌∙◌, eq_iff, Option-cases, inl, inr, Bool-cases,
}
use openclaw_scheduler.Base.Table.{
  find, modify, patch, find-keep, find-append, find-modify, find-modify_ne,
}
use openclaw_scheduler.Ledger.{
  Entry, EntryStatus, entry_key, get_idempotency_entry, claim_idempotency_key, claim_found,
  release_idempotency_key, update_idempotency_result_hash, force_prune_idempotency, is_past,
  is_claimed_entry, release_entry, new_entry, reclaim, always, is_claimed,
}

-- Any call on the ledger, by any dispatcher.
pub data LedgerCall : Type 0 where
  claims : Option String → String → String → ℕ → LedgerCall
  releases : Option String → LedgerCall
  hashes : Option String → Option String → LedgerCall
  prunes : LedgerCall

unfoldable pub call_ledger : (String → String) → ℕ × LedgerCall → List Entry → List Entry
call_ledger sha256 (now, claims k job run expires) t =
    (claim_idempotency_key k job run expires now t).0
call_ledger sha256 (now, releases k) t = release_idempotency_key k now t
call_ledger sha256 (now, hashes k content) t = update_idempotency_result_hash sha256 k content t
call_ledger sha256 (now, prunes) t = (force_prune_idempotency now t).0

unfoldable pub run_ledger : (String → String) → List (ℕ × LedgerCall) → List Entry → List Entry
run_ledger sha256 [] t = t
run_ledger sha256 (c ∷ cs) t = run_ledger sha256 cs (call_ledger sha256 c t)

-- The call does not release `k`, and prunes nothing that expires at `expires`.
abbrev pub Spares : String → ℕ → ℕ × LedgerCall → Type 0
Spares k expires (now, releases o) = filled o ≢ some k
Spares k expires (now, prunes) = datetime now ≤ expires
Spares k expires _ = Unit

module _ (k job run : String) (expires : ℕ) where
  -- The key is claimed for this run.
  pub record IsClaim (e : Entry) : Type 0 where
    pub claimed : e.status ≡ EntryStatus.claimed
    pub job_kept : e.job_id ≡ job
    pub run_kept : e.run_id ≡ run
    pub expiry_kept : e.expires_at ≡ expires

  abbrev pub IsHolding : List Entry → Type 0
  IsHolding t = (e : Entry) × (get_idempotency_entry k t ≡ some e) × IsClaim e

  modify-IsHolding :
      (j : String) (guard : Entry → Bool) (f : Entry → Entry) (t : List Entry)
      → ((e : Entry) → entry_key (f e) ≡ entry_key e)
      → ((e : Entry) → j ≡ k → find entry_key j t ≡ some e → IsClaim e → IsClaim (patch guard f e))
      → IsHolding t
      → IsHolding (modify entry_key j guard f t)
  modify-IsHolding j guard f t same kept (e, found, held) = elim (Bool-cases (str_eq j k)) [
    | inl eq ↦
        let j_is : k ≡ j = sym ((eq_iff j k).0 eq) in
        let there : find entry_key j t ≡ some e = rw (← j_is) found in
        (
          patch guard f e,
          rw j_is (rw (find-modify entry_key f same j guard t) (rw there)),
          kept e (sym j_is) there held,
        )
    | inr ne ↦
        let other : k ≢ j = ground (arith, eq_iff j k) in
        (e, rw (find-modify_ne entry_key f same k j guard t other) found, held)
  ]

  claim_found-IsHolding :
      (j job' run' : String) (expires' now : ℕ) (t : List Entry)
      → IsHolding t
      → IsHolding (claim_found (get_idempotency_entry j t) j job' run' expires' now t).0
  unfolding claim_found
  claim_found-IsHolding j job' run' expires' now t (e, found, held) =
      elim (Option-cases (get_idempotency_entry j t)) [
        | inl absent ↦
            rw absent
              (e, find-append entry_key k t (new_entry j job' run' expires' now) ∙ rw found, held)
        | inr (x, there) ↦ elim (Bool-cases (is_claimed x.status)) [
          | inl taken ↦ rw (there, taken) (e, found, held)
          | inr free ↦
              rw (there, free)
                (modify-IsHolding j always (reclaim job' run' expires' now) t (λ y. refl)
                  (λ y is at claim. ground arith) (e, found, held))
        ]
      ]

  claim-IsHolding :
      (o : Option String) (job' run' : String) (expires' now : ℕ) (t : List Entry)
      → IsHolding t
      → IsHolding (claim_idempotency_key o job' run' expires' now t).0
  unfolding claim_idempotency_key
  claim-IsHolding o job' run' expires' now t h = elim (Option-cases (filled o)) [
    | inl e ↦ rw e h
    | inr (j, e) ↦ rw e (claim_found-IsHolding j job' run' expires' now t h)
  ]

  release-IsHolding :
      (o : Option String) (now : ℕ) (t : List Entry)
      → filled o ≢ some k
      → IsHolding t
      → IsHolding (release_idempotency_key o now t)
  unfolding release_idempotency_key
  release-IsHolding o now t other h = elim (Option-cases (filled o)) [
    | inl e ↦ rw e h
    | inr (j, e) ↦ rw e (
        modify-IsHolding j is_claimed_entry (release_entry now) t (λ x. refl)
          (λ x is at claim. absurd (other (e ∙ ap some is))) h)
  ]

  hash-IsHolding :
      (sha256 : String → String) (o content : Option String) (t : List Entry)
      → IsHolding t
      → IsHolding (update_idempotency_result_hash sha256 o content t)
  unfolding update_idempotency_result_hash
  hash-IsHolding sha256 o content t h = elim (Option-cases (filled o)) [
    | inl e ↦ rw e h
    | inr (j, e) ↦ elim (Option-cases (filled content)) [
      | inl none_there ↦ rw (e, none_there) h
      | inr (c, there) ↦
          rw (e, there) (modify-IsHolding j _ _ t (λ x. refl) (λ x is at claim. ground arith) h)
    ]
  ]

  prune-IsHolding :
      (now : ℕ) (t : List Entry)
      → datetime now ≤ expires
      → IsHolding t
      → IsHolding (force_prune_idempotency now t).0
  unfolding force_prune_idempotency
  prune-IsHolding now t early (e, found, held) =
      (e, find-keep entry_key k (λ x. not (is_past now x)) t found (ground arith), held)

  call-IsHolding :
      (sha256 : String → String) (c : ℕ × LedgerCall) (t : List Entry)
      → Spares k expires c
      → IsHolding t
      → IsHolding (call_ledger sha256 c t)
  unfolding call_ledger
  call-IsHolding sha256 (now, claims o job' run' expires') t spares h =
      claim-IsHolding o job' run' expires' now t h
  call-IsHolding sha256 (now, releases o) t spares h = release-IsHolding o now t spares h
  call-IsHolding sha256 (now, hashes o content) t spares h = hash-IsHolding sha256 o content t h
  call-IsHolding sha256 (now, prunes) t spares h = prune-IsHolding now t spares h

  pub run-IsHolding :
      (sha256 : String → String) (cs : List (ℕ × LedgerCall)) (t : List Entry)
      → All (Spares k expires) cs
      → IsHolding t
      → IsHolding (run_ledger sha256 cs t)
  unfolding run_ledger
  run-IsHolding sha256 [] t spares h = h
  run-IsHolding sha256 (c ∷ cs) t spares h =
      run-IsHolding sha256 cs (call_ledger sha256 c t) spares.1
        (call-IsHolding sha256 c t spares.0 h)

  -- A claim that reports success holds the key.
  pub claimed-IsHolding :
      (o : Option String) (now : ℕ) (t t' : List Entry)
      → filled o ≡ some k
      → claim_idempotency_key o job run expires now t ≡ (t', true)
      → IsHolding t'
  unfolding claim_idempotency_key claim_found
  claimed-IsHolding o now t t' named done = elim (Option-cases (get_idempotency_entry k t)) [
    | inl absent ↦
        let rows : t ++ new_entry k job run expires now ∷ [] ≡ t' =
          ap (λ p. p.0) (rw (named, absent) at done) in
        (
          new_entry k job run expires now,
          rw (← rows) (
              find-append entry_key k t (new_entry k job run expires now)
              ∙ rw absent (ground (arith, eq_iff k k))),
          record { claimed = refl; job_kept = refl; run_kept = refl; expiry_kept = refl },
        )
    | inr (e, found) ↦ elim (Bool-cases (is_claimed e.status)) [
      | inl taken ↦ ground arith
      | inr free ↦
          let rows : modify entry_key k always (reclaim job run expires now) t ≡ t' =
            ground arith in
          (
            reclaim job run expires now e,
            rw (← rows) (
                find-modify entry_key (reclaim job run expires now) (λ x. refl) k always t
                ∙ rw found),
            record { claimed = refl; job_kept = refl; run_kept = refl; expiry_kept = refl },
          )
    ]
  ]

  pub held-refused :
      (o : Option String) (job' run' : String) (expires' now : ℕ) (t : List Entry)
      → filled o ≡ some k
      → IsHolding t
      → claim_idempotency_key o job' run' expires' now t ≡ (t, false)
  unfolding claim_idempotency_key claim_found
  held-refused o job' run' expires' now t named (e, found, held) =
      rw (named, found) (rw (held.claimed))
