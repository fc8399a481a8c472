-- ===== src/Lease/Fencing.antt =====
-- The lease's promise (runtime-lease.js): a fencing token names one holder, for ever.
use openclaw_scheduler.Base.{
  ℕ, ◌+◌, ◌≤◌, ◌<◌, ◌≡◌, refl, ◌∙◌, inl, inr, String, Bool, false, List, [], ◌∷◌, none, some, arith,
  eq_iff, Option-cases, ok, is_blank,
}
use openclaw_scheduler.Base.Table.{patch, refused}
use openclaw_scheduler.Base.Table.Follows.{
  Follows, refl-Follows, trans-Follows, append-Follows, modify-Follows,
}
use openclaw_scheduler.Lease.{
  Lease, LeaseCall, acquires, renews, releases, lease_key, find_lease, may_take, take_lease,
  extend_lease, holds, upsert_lease, renew_dispatcher_lease, release_dispatcher_lease,
  assert_dispatcher_lease, call_lease, run_calls, extend_rows, acquire-cases, renew-cases,
  release-cases,
}

-- What may become of a lease row: its token never falls, and while it stands the holder stands.
pub record IsLater (l m : Lease) : Type 0 where
  pub token_le : l.fencing_token ≤ m.fencing_token
  pub holder_fixed : l.fencing_token ≡ m.fencing_token → l.owner_id ≡ m.owner_id

pub IsLater-refl : (l : Lease) → IsLater l l
IsLater-refl l = ground arith

pub IsLater-trans : (l m n : Lease) → IsLater l m → IsLater m n → IsLater l n
IsLater-trans l m n p q = record {
  token_le = omega arith;
  holder_fixed = λ e. p.holder_fixed (omega arith) ∙ q.holder_fixed (omega arith);
}

take-IsLater :
    (owner : String) (now expires : ℕ) (l : Lease)
    → IsLater l (patch (may_take owner now) (take_lease owner now expires) l)
take-IsLater owner now expires l = ground (arith, eq_iff l.owner_id owner)

extend-IsLater :
    (guard : Lease → Bool) (now expires : ℕ) (l : Lease)
    → IsLater l (patch guard (extend_lease now expires) l)
extend-IsLater guard now expires l = ground arith

module _ (j : String) (t : List Lease) where
  pub upsert-Follows :
      (name owner : String) (now expires : ℕ)
      → Follows lease_key IsLater j t (upsert_lease name owner now expires t).0
  unfolding upsert_lease
  upsert-Follows name owner now expires = elim (Option-cases (find_lease name t)) [
    | inl e ↦ rw (e, upsert_lease) (append-Follows lease_key IsLater IsLater-refl j t _)
    | inr (l, e) ↦
        rw (e, upsert_lease)
          (modify-Follows lease_key IsLater (take_lease owner now expires) (λ r. refl) IsLater-refl
            j name (may_take owner now) t (take-IsLater owner now expires))
  ]

  extend-Follows :
      (name owner : String) (token now expires : ℕ)
      → Follows lease_key IsLater j t (extend_rows name owner token now expires t)
  unfolding extend_rows
  extend-Follows name owner token now expires =
      modify-Follows lease_key IsLater (extend_lease now expires) (λ r. refl) IsLater-refl j name
        (holds owner token now) t (extend-IsLater (holds owner token now) now expires)

  same-Follows : Follows lease_key IsLater j t t
  same-Follows = refl-Follows lease_key IsLater IsLater-refl j t

  call-Follows : (now : ℕ) (c : LeaseCall) → Follows lease_key IsLater j t (call_lease (now, c) t)
  unfolding call_lease
  call-Follows now (acquires name owner ttl) =
      acquire-cases (Follows lease_key IsLater j t) name owner ttl now t same-Follows
        (upsert-Follows name owner now (now + ttl))
  call-Follows now (renews name owner token ttl) =
      renew-cases (Follows lease_key IsLater j t) name owner token ttl now t same-Follows
        (extend-Follows name owner token now (now + ttl))
  call-Follows now (releases name owner token) =
      release-cases (Follows lease_key IsLater j t) name owner token now t same-Follows
        (extend-Follows name owner token now now)

pub run-Follows :
    (j : String) (cs : List (ℕ × LeaseCall)) (t : List Lease)
    → Follows lease_key IsLater j t (run_calls cs t)
unfolding run_calls
run-Follows j [] t = same-Follows j t
run-Follows j ((now, c) ∷ cs) t =
    trans-Follows lease_key IsLater IsLater-trans j t (call_lease (now, c) t)
      (run_calls cs (call_lease (now, c) t)) (call-Follows j t now c) (run-Follows j cs _)

-- However the lease is acquired, renewed and released afterwards, by anyone and at any times, a
-- lease row is never lost, its token never falls, and as long as the token stands so does its
-- holder: a token is never reused for another owner.
pub token_names_holder :
    (name : String) (calls : List (ℕ × LeaseCall)) (t : List Lease) (l : Lease)
    → find_lease name t ≡ some l
    → (m : Lease) × (find_lease name (run_calls calls t) ≡ some m)
      × (l.fencing_token ≤ m.fencing_token)
      × (l.fencing_token ≡ m.fencing_token → l.owner_id ≡ m.owner_id)
token_names_holder name calls t l e =
    let (m, found, later) = run-Follows name calls t l e in
    (m, found, later.token_le, later.holder_fixed)

-- A row that does not carry this owner and token, or has run out, yields to none of its calls.
not_held :
    (name owner : String) (token ttl now : ℕ) (t : List Lease) (m : Lease)
    → is_blank name ≡ false
    → is_blank owner ≡ false
    → 0 < token
    → 0 < ttl
    → find_lease name t ≡ some m
    → holds owner token now m ≡ false
    → (assert_dispatcher_lease name owner token now t ≡ ok false)
      × (renew_dispatcher_lease name owner token ttl now t ≡ ok (t, none))
      × (release_dispatcher_lease name owner token now t ≡ ok (t, false))
unfolding assert_dispatcher_lease renew_dispatcher_lease release_dispatcher_lease
not_held name owner token ttl now t m named owned live lasting e no_hold =
    let renewal =
      refused lease_key (extend_lease now (now + ttl)) name (holds owner token now) t m e no_hold in
    let release =
      refused lease_key (extend_lease now now) name (holds owner token now) t m e no_hold in
    (ground arith, ground (arith, renewal.0, renewal.1), ground (arith, release.0, release.1))

-- Once the row has moved past a token, that token is dead: after any further calls its holder
-- fails `assertDispatcherLease`, renews nothing and releases nothing.
pub stale_token_refused :
    (name owner : String) (token ttl now : ℕ) (calls : List (ℕ × LeaseCall)) (t : List Lease)
    (l : Lease)
    → is_blank name ≡ false
    → is_blank owner ≡ false
    → 0 < token
    → 0 < ttl
    → find_lease name t ≡ some l
    → token < l.fencing_token
    → let t' = run_calls calls t in
      (assert_dispatcher_lease name owner token now t' ≡ ok false)
      × (renew_dispatcher_lease name owner token ttl now t' ≡ ok (t', none))
      × (release_dispatcher_lease name owner token now t' ≡ ok (t', false))
stale_token_refused name owner token ttl now calls t l named owned live lasting e past =
    let (m, found, later) = run-Follows name calls t l e in
    not_held name owner token ttl now (run_calls calls t) m named owned live lasting found
      (other_token later)
  where
    other_token : {m : Lease} → IsLater l m → holds owner token now m ≡ false
    other_token later = ground arith
