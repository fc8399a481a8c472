-- ===== src/Outbox/Claim.antt =====
-- Claiming and renewing deliveries (delivery-outbox.js).
use Prim.Native.String
use Prim.Native.Nat
use Prim.Native.Nat.{Ordering}
use openclaw_scheduler.Base.{
  ℕ, ◌+◌, String, Bool, true, false, not, ◌&&◌, ◌||◌, List, [], ◌∷◌, Option, none, some, ◌==◌,
  str_eq, ltb, leb, if◌then◌else◌, first_by, filled, or_else, holds_text, is_blank, trim, datetime,
  Result, ok, err, ◌>>=◌, keep, any_of, take,
}
use openclaw_scheduler.Base.Table.{modify, returning, update_where}
use openclaw_scheduler.Outbox.Row.{
  Delivery, DeliveryStatus, DeliveryError, ErrorText, text, owner_required, bad_limit, bad_lease,
  Outbox, delivery_key, get_delivery_row, is_pending, is_claimed, is_delivered, is_before,
}
use openclaw_scheduler.Outbox.Recover.{time_of, after_failure, recover_expired_claims}

abbrev pub is_exhausted : Delivery → Bool
is_exhausted d = is_pending d.status && leb d.max_attempts d.attempt_count

abbrev pub fail_exhausted : ℕ → Delivery → Delivery
fail_exhausted at d = record d {
  status = DeliveryStatus.failed;
  next_attempt_at = at;
  last_error = or_else d.last_error (some (text "Delivery attempt limit exhausted"));
}

abbrev exhausted_stop : ErrorText
exhausted_stop = text "Multipart delivery stopped after its attempt limit was exhausted"

unfoldable pub stop_each : ℕ → List Delivery → Outbox → Outbox
stop_each now [] o = o
stop_each now (d ∷ ds) o = stop_each now ds (after_failure d.id exhausted_stop now o)

-- The pending rows that have used up their attempts fail, and stop their groups.
unfoldable pub fail_all_exhausted : ℕ → ℕ → Outbox → Outbox
unfolding stop_each
fail_all_exhausted at now o =
    let failed = update_where is_exhausted (fail_exhausted at) o.rows in
    stop_each now (keep is_exhausted o.rows) (record o { rows = failed })

-- A part before this one, in the same group, that is not delivered.
abbrev pub blocks : String → ℕ → Delivery → Bool
blocks group index d =
    holds_text d.delivery_group_id group
    && is_before d.part_index index
    && not (is_delivered d.status)

abbrev pub in_turn_at : List Delivery → Option String → Option ℕ → Bool
in_turn_at rows (some group) (some index) = leb index 1 || not (any_of (blocks group index) rows)
in_turn_at rows _ _ = true

unfoldable pub is_in_turn : List Delivery → Delivery → Bool
is_in_turn rows d = in_turn_at rows d.delivery_group_id d.part_index

abbrev matches : Option String → String → Bool
matches none s = true
matches (some t) s = str_eq s t

-- `status = 'pending' AND next_attempt_at <= ? AND attempt_count < max_attempts`
abbrev pub may_claim : ℕ → Delivery → Bool
may_claim at d =
    is_pending d.status && leb d.next_attempt_at at && ltb d.attempt_count d.max_attempts

unfoldable pub is_candidate : ℕ → Option String → Option String → List Delivery → Delivery → Bool
unfolding is_in_turn
is_candidate at channel target rows d =
    may_claim at d
    && is_in_turn rows d
    && matches (filled channel) d.channel
    && matches (filled target) d.target

abbrev num_or : Option ℕ → ℕ → ℕ
num_or none n = n
num_or (some m) n = m

abbrev text_or : Option String → String → String
text_or none s = s
text_or (some t) s = t

-- The ORDER BY of the candidates
unfoldable pub comes_before : Delivery → Delivery → Bool
comes_before a b = first_by (Nat.compare a.next_attempt_at b.next_attempt_at) (
    first_by (Nat.compare a.created_at b.created_at) (
      first_by
        (String.compare (text_or a.delivery_group_id a.id) (text_or b.delivery_group_id b.id))
        (first_by (Nat.compare (num_or a.part_index 1) (num_or b.part_index 1))
          (first_by (String.compare a.id b.id) true))))

unfoldable pub insert_candidate : Delivery → List Delivery → List Delivery
unfolding comes_before
insert_candidate d [] = d ∷ []
insert_candidate d (x ∷ xs) =
    let rest = insert_candidate d xs in if comes_before d x then d ∷ x ∷ xs else x ∷ rest

unfoldable pub sort_candidates : List Delivery → List Delivery
unfolding insert_candidate
sort_candidates [] = []
sort_candidates (d ∷ ds) = insert_candidate d (sort_candidates ds)

abbrev pub claim_row : String → String → ℕ → Delivery → Delivery
claim_row owner token expires d = record d {
  status = DeliveryStatus.claimed;
  attempt_count = d.attempt_count + 1;
  claim_owner = some owner;
  claim_token = some token;
  claim_expires_at = some expires;
}

abbrev cons_some : Option Delivery → List Delivery → List Delivery
cons_some none ds = ds
cons_some (some d) ds = d ∷ ds

-- claimCandidates: the rows, and those claimed. `fresh` gives the texts that randomUUID returns.
unfoldable pub claim_candidates :
    (ℕ → String)
    → ℕ
    → String
    → ℕ
    → ℕ
    → List Delivery
    → List Delivery
    → List Delivery × List Delivery
claim_candidates fresh n owner at expires [] rows = (rows, [])
claim_candidates fresh n owner at expires (d ∷ ds) rows =
    let f = claim_row owner (fresh n) expires in
    let row = returning delivery_key d.id (may_claim at) f rows in
    let (after, claimed) =
      claim_candidates fresh (n + 1) owner at expires ds
        (modify delivery_key d.id (may_claim at) f rows) in
    (after, cons_some row claimed)

pub record ClaimOpts : Type 0 where
  pub owner : Option String
  pub limit : Option ℕ
  pub lease_ms : Option ℕ
  pub now : Option ℕ
  pub channel : Option String
  pub target : Option String

abbrev required : Option String → Result DeliveryError String
required none = err owner_required
required (some s) = if is_blank s then err owner_required else ok (trim s)

-- positiveInteger: 0 stands for every value that it refuses.
abbrev pub positive : Option ℕ → ℕ → DeliveryError → Result DeliveryError ℕ
positive none fallback e = ok fallback
positive (some n) fallback e = if n == 0 then err e else ok n

unfoldable pub check_owner : ClaimOpts → Result DeliveryError String
check_owner opts = required opts.owner

unfoldable pub check_limit : ClaimOpts → Result DeliveryError ℕ
check_limit opts = positive opts.limit 50 bad_limit

unfoldable pub check_lease : Option ℕ → Result DeliveryError ℕ
check_lease lease_ms = positive lease_ms 120000 bad_lease

-- The transaction of claimDueDeliveries
unfoldable pub claim_due :
    ClaimOpts → String → ℕ → ℕ → ℕ → (ℕ → String) → ℕ → Outbox → Outbox × List Delivery
unfolding fail_all_exhausted claim_candidates is_candidate sort_candidates
claim_due opts owner limit at expires fresh now o =
    let ready = fail_all_exhausted at now (recover_expired_claims at now o) in
    let found = keep (is_candidate at opts.channel opts.target ready.rows) ready.rows in
    let (rows, claimed) =
      claim_candidates fresh 0 owner at expires (take limit (sort_candidates found)) ready.rows in
    (record ready { rows = rows }, claimed)

unfoldable pub claim_due_deliveries :
    ClaimOpts → (ℕ → String) → ℕ → Outbox → Result DeliveryError (Outbox × List Delivery)
claim_due_deliveries opts fresh now o = do
  owner ← check_owner opts
  limit ← check_limit opts
  lease ← check_lease opts.lease_ms
  let at = time_of opts.now now
  ok (claim_due opts owner limit (datetime at) (datetime (at + lease)) fresh now o)

abbrev pub candidate_in : List Delivery → Option Delivery → List Delivery
candidate_in rows none = []
candidate_in rows (some d) = if is_in_turn rows d then d ∷ [] else []

abbrev first : List Delivery → Option Delivery
first [] = none
first (d ∷ ds) = some d

-- The transaction of claimDelivery
unfoldable pub claim_one :
    String → String → ℕ → ℕ → (ℕ → String) → ℕ → Outbox → Outbox × Option Delivery
unfolding claim_candidates is_in_turn
claim_one id owner at expires fresh now o =
    let ready = recover_expired_claims at now o in
    let found = candidate_in ready.rows (get_delivery_row id ready.rows) in
    let (rows, claimed) = claim_candidates fresh 0 owner at expires found ready.rows in
    (record ready { rows = rows }, first claimed)

unfoldable pub claim_delivery :
    String → ClaimOpts → (ℕ → String) → ℕ → Outbox → Result DeliveryError (Outbox × Option Delivery)
claim_delivery id opts fresh now o = do
  owner ← check_owner opts
  lease ← check_lease opts.lease_ms
  let at = time_of opts.now now
  ok (claim_one id owner (datetime at) (datetime (at + lease)) fresh now o)

-- `claim_expires_at IS NOT NULL AND claim_expires_at > ?`
abbrev is_later_than : Option ℕ → ℕ → Bool
is_later_than none at = false
is_later_than (some t) at = ltb at t

abbrev pub may_renew : String → ℕ → Delivery → Bool
may_renew token at d =
    is_claimed d.status && holds_text d.claim_token token && is_later_than d.claim_expires_at at

abbrev pub extend_claim : ℕ → Delivery → Delivery
extend_claim expires d = record d { claim_expires_at = some expires }

-- The outbox, and the row that was renewed.
unfoldable pub renew_delivery_claim :
    String
    → String
    → Option ℕ
    → Option ℕ
    → ℕ
    → Outbox
    → Result DeliveryError (Outbox × Option Delivery)
renew_delivery_claim id token lease_ms at_opt now o = do
  lease ← check_lease lease_ms
  let at = time_of at_opt now
  let f = extend_claim (datetime (at + lease))
  ok (
    record o { rows = modify delivery_key id (may_renew token (datetime at)) f o.rows },
    returning delivery_key id (may_renew token (datetime at)) f o.rows,
  )
