-- ===== src/Lease/Tests.antt =====
-- Runs of the lease at concrete inputs.
use openclaw_scheduler.Base.{
  ◌≢◌, ◌⊎◌, String, ℕ, ◌<◌, ◌≡◌, refl, false, List, [], ◌∷◌, none, some, arith, ok, eq_iff, ◌≤◌,
}
use openclaw_scheduler.Base.{is_blank}
use openclaw_scheduler.Base.Table.{find, modify, returning}
use openclaw_scheduler.Lease.{
  call_lease, upsert_lease, Lease, LeaseCall, acquires, find_lease, acquire_dispatcher_lease,
  renew_dispatcher_lease, release_dispatcher_lease, assert_dispatcher_lease, run_calls,
}
use openclaw_scheduler.Lease.Fencing.{token_names_holder, stale_token_refused}
use openclaw_scheduler.Lease.Acquire.{IsTaken, acquire_outcome, takeover_raises_token}

abbrev held : Lease
held = record {
  name = "d";
  owner_id = "a";
  fencing_token = 3;
  acquired_at = 100;
  renewed_at = 100;
  expires_at = 500;
}

abbrev held_table : List Lease
held_table = held ∷ []

abbrev takeover : List (ℕ × LeaseCall)
takeover = (200, acquires "d" "b" 50) ∷ (600, acquires "d" "b" 50) ∷ []

token_names_holder_example :
    (m : Lease) × (find_lease "d" (run_calls takeover held_table) ≡ some m)
    × (3 ≤ m.fencing_token)
    × (◌≡◌ {A = ℕ} 3 m.fencing_token → "a" ≡ m.owner_id)
unfolding find
token_names_holder_example = token_names_holder "d" takeover held_table held refl

stale_token_refused_example :
    let t' = run_calls takeover held_table in
    (assert_dispatcher_lease "d" "a" 2 610 t' ≡ ok false)
    × (renew_dispatcher_lease "d" "a" 2 30 610 t' ≡ ok (t', none))
    × (release_dispatcher_lease "d" "a" 2 610 t' ≡ ok (t', false))
unfolding find is_blank
stale_token_refused_example =
    stale_token_refused "d" "a" 2 30 610 takeover held_table held refl refl (omega arith)
      (omega arith) refl (omega arith)

taken_over :
    run_calls takeover held_table
    ≡ record held {
      owner_id = "b";
      fencing_token = 4;
      acquired_at = 600;
      renewed_at = 600;
      expires_at = 650;
    }
      ∷ []
unfolding run_calls call_lease acquire_dispatcher_lease is_blank find modify
taken_over = refl

acquire_outcome_example :
    (((◌≡◌ {A = String} "b" "a") ⊎ (500 ≤ 600)) × IsTaken "d" "b" 50 600 held_table held)
    ⊎ ((◌≢◌ {A = String} "b" "a")
        × (600 < 500)
        × (acquire_dispatcher_lease "d" "b" 50 600 held_table ≡ ok (held_table, none)))
unfolding find is_blank
acquire_outcome_example =
    acquire_outcome "d" "b" 50 600 held_table held refl refl (omega arith) refl (omega arith)

takeover_raises_token_example : ◌<◌ 3 4
unfolding run_calls call_lease acquire_dispatcher_lease upsert_lease is_blank find modify returning
takeover_raises_token_example =
    takeover_raises_token "d" "b" 50 600 ((200, acquires "d" "b" 50) ∷ []) held_table
      (record held {
        owner_id = "b";
        fencing_token = 4;
        acquired_at = 600;
        renewed_at = 600;
        expires_at = 650;
      }
        ∷ [])
      held
      (record held {
        owner_id = "b";
        fencing_token = 4;
        acquired_at = 600;
        renewed_at = 600;
        expires_at = 650;
      })
      refl refl (ground (arith, eq_iff "b" "a"))
