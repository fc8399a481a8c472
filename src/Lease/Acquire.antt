-- ===== src/Lease/Acquire.antt =====
-- What acquiring a lease yields (acquireDispatcherLease of runtime-lease.js).
use openclaw_scheduler.Base.{
  ℕ, ◌+◌, ◌≤◌, ◌<◌, ◌≡◌, refl, ◌≢◌, ◌⊎◌, inl, inr, String, true, false, List, some, arith, eq_iff,
  none, ok, is_blank, Option-cases, ap, Bool-cases, str_eq, leb, leb→le, if◌then◌else◌,
}
use openclaw_scheduler.Base.Table.{
  modify, returning, find-modify, refused, accepted, find-append, returning-some,
}
use openclaw_scheduler.Lease.{
  Lease, LeaseCall, lease_key, find_lease, may_take, take_lease, first_lease, upsert_lease,
  acquire_dispatcher_lease, assert_dispatcher_lease, run_calls,
}
use openclaw_scheduler.Lease.Fencing.{IsLater, IsLater-trans, run-Follows, upsert-Follows}
use openclaw_scheduler.Base.Table.Follows.{trans-Follows}

-- The caller holds the lease until `now + ttlMs`, under the token of old if the lease was alive,
-- and the next one if it had run out.
abbrev pub IsTaken : String → String → ℕ → ℕ → List Lease → Lease → Type 0
IsTaken name owner ttl now t l =
    (m : Lease) × (t' : List Lease) × (acquire_dispatcher_lease name owner ttl now t
      ≡ ok (t', some m))
    × (find_lease name t' ≡ some m)
    × (m.owner_id ≡ owner)
    × (m.expires_at ≡ now + ttl)
    × (m.fencing_token ≡ (if leb l.expires_at now then l.fencing_token + 1 else l.fencing_token))
    × (assert_dispatcher_lease name owner m.fencing_token now t' ≡ ok true)

module _ (name owner : String) (ttl now : ℕ) (t : List Lease) (l : Lease)
    (named : is_blank name ≡ false) (owned : is_blank owner ≡ false) (lasting : 0 < ttl)
    (e : find_lease name t ≡ some l) where
  live_refused :
      owner ≢ l.owner_id
      → now < l.expires_at
      → acquire_dispatcher_lease name owner ttl now t ≡ ok (t, none)
  unfolding acquire_dispatcher_lease
  live_refused other live =
      let kept =
        refused lease_key (take_lease owner now (now + ttl)) name (may_take owner now) t l e
          (ground (arith, eq_iff l.owner_id owner)) in
      ground (arith, kept.0, kept.1)

  takes :
      0 < l.fencing_token
      → (owner ≡ l.owner_id) ⊎ (l.expires_at ≤ now)
      → IsTaken name owner ttl now t l
  unfolding acquire_dispatcher_lease assert_dispatcher_lease
  takes issued may =
      let m : Lease = take_lease owner now (now + ttl) l in
      let t' : List Lease =
        modify lease_key name (may_take owner now) (take_lease owner now (now + ttl)) t in
      let allowed : may_take owner now l ≡ true = ground (arith, eq_iff l.owner_id owner) in
      let row =
        accepted lease_key (take_lease owner now (now + ttl)) name (may_take owner now) t l e
          allowed in
      let found : find_lease name t' ≡ some m =
        rw
          (find-modify lease_key (take_lease owner now (now + ttl)) (λ r. refl) name
            (may_take owner now) t)
          (ground arith) in
      (
        m,
        t',
        ground (arith, row),
        found,
        refl,
        refl,
        ground arith,
        ground (arith, found, eq_iff owner owner),
      )

  -- Acquiring with valid arguments where the lease has a row with a token ends in one of two ways.
  -- If the lease is the caller's own or has run out, the caller holds it until `now + ttlMs`, under
  -- the token of old if the lease was alive and the next one if it had run out. If it is alive and
  -- another's, nothing is returned and nothing is written.
  pub acquire_outcome :
      0 < l.fencing_token
      → (((owner ≡ l.owner_id) ⊎ (l.expires_at ≤ now)) × IsTaken name owner ttl now t l)
        ⊎ ((owner ≢ l.owner_id)
            × (now < l.expires_at)
            × (acquire_dispatcher_lease name owner ttl now t ≡ ok (t, none)))
  acquire_outcome issued = elim (Bool-cases (str_eq owner l.owner_id)) [
    | inl own ↦ let may = inl ((eq_iff owner l.owner_id).0 own) in inl (may, takes issued may)
    | inr another ↦ elim (Bool-cases (leb l.expires_at now)) [
      | inl over ↦ let may = inr (leb→le l.expires_at now over) in inl (may, takes issued may)
      | inr alive ↦
          let other : owner ≢ l.owner_id = ground (arith, eq_iff owner l.owner_id) in
          let live : now < l.expires_at = ground arith in inr (other, live, live_refused other live)
    ]
  ]

-- The row that an acquisition returns is the row of the table, and carries the caller's name.
upsert-row :
    (name owner : String) (now expires : ℕ) (t : List Lease) (m : Lease)
    → (upsert_lease name owner now expires t).1 ≡ some m
    → (find_lease name (upsert_lease name owner now expires t).0 ≡ some m) × (m.owner_id ≡ owner)
unfolding upsert_lease
upsert-row name owner now expires t m h = elim (Option-cases (find_lease name t)) [
  | inl e ↦
      let fresh : Lease = first_lease name owner now expires in
      ground (arith, find-append lease_key name t fresh, eq_iff name name)
  | inr (l, e) ↦
      let row : returning lease_key name (may_take owner now) (take_lease owner now expires) t
          ≡ some m =
        ground arith in
      let (x, _, _, is, found) =
        returning-some lease_key (take_lease owner now expires) (λ r. refl) name
          (may_take owner now) t row in
      (ground (arith, found), ground (arith, is))
]

-- Fencing across a takeover: whoever acquires the lease after any calls, and is not the owner of
-- an earlier row, holds a token above that row's.
pub takeover_raises_token :
    (name owner : String) (ttl now : ℕ) (calls : List (ℕ × LeaseCall)) (t t' : List Lease)
    (l m : Lease)
    → find_lease name t ≡ some l
    → acquire_dispatcher_lease name owner ttl now (run_calls calls t) ≡ ok (t', some m)
    → owner ≢ l.owner_id
    → l.fencing_token < m.fencing_token
unfolding acquire_dispatcher_lease
takeover_raises_token name owner ttl now calls t t' l m e taken other =
    let mid : List Lease = run_calls calls t in
    let both : upsert_lease name owner now (now + ttl) mid ≡ (t', some m) = ground arith in
    let (found, owned) = upsert-row name owner now (now + ttl) mid m (ap (λ p. p.1) both) in
    let (x, seen, later) =
      trans-Follows lease_key IsLater IsLater-trans name t mid
        (upsert_lease name owner now (now + ttl) mid).0 (run-Follows name calls t)
        (upsert-Follows name mid name owner now (now + ttl)) l e in
    ground (arith, later.token_le, later.holder_fixed)
