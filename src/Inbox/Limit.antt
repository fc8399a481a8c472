-- ===== src/Inbox/Limit.antt =====
-- The limit of claimInboxForRun (messages.js).
use openclaw_scheduler.Base.{
  ℕ, zero, suc, ◌+◌, ◌-◌, ◌≤◌, max, ◌≡◌, refl, String, Bool, true, List, [], ◌∷◌, Option, ok, All,
  All-take, All-keep, none, some, min, inl, inr, Bool-cases, keep, take, count_of, length,
  length-take-le, arith, str_eq,
}
use openclaw_scheduler.Base.Table.{modify, patch}
use openclaw_scheduler.Inbox.Row.{Message, message_key}
use openclaw_scheduler.Inbox.Claim.{
  required_id, check_limit, comes_before, sort_messages, insert_message, candidates, reserve_each,
  reserved, may_reserve, reserve_row, is_own, claim_inbox_for_run,
}
use openclaw_scheduler.Inbox.Returns.{own_rows}
use openclaw_scheduler.Inbox.Writes.{All-sort}

-- One update changes a count by one at most.
count-modify :
    (p guard : Message → Bool) (f : Message → Message) (k : String) (t : List Message)
    → count_of p (modify message_key k guard f t) ≤ count_of p t + 1
unfolding modify
count-modify p guard f k [] = omega arith
count-modify p guard f k (x ∷ t) = elim (Bool-cases (str_eq x.id k)) [
  | inl e ↦ rw e (first x (patch guard f x))
  | inr e ↦ rw e (ground (arith, count-modify p guard f k t))
]
  where
    first : (a b : Message) → count_of p (b ∷ t) ≤ count_of p (a ∷ t) + 1
    first a b = ground arith

count-reserve_each :
    (p : Message → Bool) (a r : String) (now : ℕ) (cs t : List Message)
    → count_of p (reserve_each a r now cs t) ≤ count_of p t + length cs
unfolding reserve_each
count-reserve_each p a r now [] t = omega arith
count-reserve_each p a r now (c ∷ cs) t = omega (
  arith,
  count-modify p (may_reserve a) (reserve_row r now) c.id t,
  count-reserve_each p a r now cs (modify message_key c.id (may_reserve a) (reserve_row r now) t),
)

count-reserved :
    (a r : String) (n now : ℕ) (t : List Message)
    → count_of (is_own a r) (reserved a r n now t) ≤ max n (count_of (is_own a r) t)
unfolding reserved candidates
count-reserved a r n now t =
    let picked : List Message = sort_messages comes_before (keep (may_reserve a) t) in
    omega (
      arith,
      count-reserve_each (is_own a r) a r now (take (n - count_of (is_own a r) t) picked) t,
      length-take-le (n - count_of (is_own a r) t) picked,
    )

length-take : (n : ℕ) (t : List Message) → length (take n t) ≡ min n (length t)
length-take zero t = omega arith
length-take (suc n) [] = omega arith
length-take (suc n) (x ∷ t) = omega (arith, length-take n t)

length-keep : (p : Message → Bool) (t : List Message) → length (keep p t) ≡ count_of p t
length-keep p [] = refl
length-keep p (x ∷ t) = ground (arith, length-keep p t)

module _ (before : Message → Message → Bool) where
  length-insert :
      (x : Message) (t : List Message) → length (insert_message before x t) ≡ suc (length t)
  unfolding insert_message
  length-insert x [] = refl
  length-insert x (y ∷ t) = ground (arith, length-insert x t)

  length-sort : (t : List Message) → length (sort_messages before t) ≡ length t
  unfolding sort_messages
  length-sort [] = refl
  length-sort (x ∷ t) = omega (arith, length-insert x (sort_messages before t), length-sort t)

length-own_rows :
    (a r : String) (n : ℕ) (t : List Message)
    → length (own_rows a r n t) ≡ min n (count_of (is_own a r) t)
length-own_rows a r n t = omega (
  arith,
  length-take n (sort_messages comes_before (keep (is_own a r) t)),
  length-sort comes_before (keep (is_own a r) t),
  length-keep (is_own a r) t,
)

check_limit-le : (limit : Option ℕ) {n : ℕ} → check_limit limit ≡ ok n → n ≤ 1000
check_limit-le none h = ground arith
check_limit-le (some m) h = ground arith

-- With a valid agent, run and limit a claim returns messages that are reserved for the run, as many
-- as it holds of the agent but the limit at most, which is 1000 or less. The run then holds no more
-- of them than the limit, unless it held more before.
pub claim_bounded :
    (agent run : Option String) (limit : Option ℕ) (now : ℕ) (ms : List Message) (a r : String)
    (n : ℕ)
    → required_id agent ≡ ok a
    → required_id run ≡ ok r
    → check_limit limit ≡ ok n
    → (rows mine : List Message) × (claim_inbox_for_run agent run limit now ms ≡ ok (rows, mine))
      × (count_of (is_own a r) rows ≤ max n (count_of (is_own a r) ms))
      × (length mine ≡ min n (count_of (is_own a r) rows))
      × All (λ m. is_own a r m ≡ true) mine
      × (n ≤ 1000)
unfolding claim_inbox_for_run
claim_bounded agent run limit now ms a r n as_agent as_run fits =
    let rows : List Message = reserved a r n now ms in
    (
      rows,
      own_rows a r n rows,
      rw (as_agent, as_run, fits) refl,
      count-reserved a r n now ms,
      length-own_rows a r n rows,
      All-take _ n _ (All-sort _ comes_before _ (All-keep (is_own a r) rows)),
      check_limit-le limit fits,
    )
