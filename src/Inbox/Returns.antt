-- ===== src/Inbox/Returns.antt =====
-- What claimInboxForRun has done when it returns (messages.js).
use openclaw_scheduler.Base.{
  ℕ, ◌≡◌, subst, String, true, List, Option, Result, ok, >>=-eq-ok, keep, take, All, All-take,
}
use openclaw_scheduler.Base.Table.{patch}
use openclaw_scheduler.Base.Table.Every.{All-passed}
use openclaw_scheduler.Inbox.Row.{Message}
use openclaw_scheduler.Inbox.Writes.{reserved-All, All-sort}
use openclaw_scheduler.Inbox.Claim.{
  MessageFault, required_id, check_limit, comes_before, sort_messages, reserved, may_reserve,
  reserve_row, is_own, claim_inbox_for_run,
}

abbrev pub own_rows : String → String → ℕ → List Message → List Message
own_rows a r n rows = take n (sort_messages comes_before (keep (is_own a r) rows))

pair-ok :
    (x : List Message) (f : List Message → List Message) (rows mine : List Message)
    → ◌≡◌ {A = Result MessageFault (List Message × List Message)} (ok (x, f x)) (ok (rows, mine))
    → (x ≡ rows) × (f rows ≡ mine)
pair-ok x f rows mine e =
    let left : x ≡ rows = cc in
    let right : f x ≡ mine = cc in (left, subst (λ y. f y ≡ mine) left right)

pub claim-returns :
    (agent run : Option String) (limit : Option ℕ) (now : ℕ) (ms rows mine : List Message)
    → claim_inbox_for_run agent run limit now ms ≡ ok (rows, mine)
    → (a r : String) × (n : ℕ) × (required_id agent ≡ ok a)
      × (required_id run ≡ ok r)
      × (check_limit limit ≡ ok n)
      × (reserved a r n now ms ≡ rows)
      × (own_rows a r n rows ≡ mine)
unfolding claim_inbox_for_run
claim-returns agent run limit now ms rows mine done =
    let (a, as_agent, rest) = >>=-eq-ok (required_id agent) _ done in
    let (r, as_run, rest') = >>=-eq-ok (required_id run) _ rest in
    let (n, fits, rest'') = >>=-eq-ok (check_limit limit) _ rest' in
    let both = pair-ok (reserved a r n now ms) (own_rows a r n) rows mine rest'' in
    (a, r, n, as_agent, as_run, fits, both.0, both.1)

-- A property that a reservation keeps holds of the rows after a claim and of those it returns.
pub claim-All :
    (P : Message → Type 0) (agent run : Option String) (limit : Option ℕ) (now : ℕ)
    (ms rows mine : List Message)
    → ((a r : String) (x : Message)
        → required_id run ≡ ok r
        → P x
        → P (patch (may_reserve a) (reserve_row r now) x))
    → All P ms
    → claim_inbox_for_run agent run limit now ms ≡ ok (rows, mine)
    → (a r : String) × (required_id run ≡ ok r)
      × All P rows
      × All (λ x. (is_own a r x ≡ true) × P x) mine
claim-All P agent run limit now ms rows mine moves h done =
    let (a, r, n, as_agent, as_run, fits, left, given) =
      claim-returns agent run limit now ms rows mine done in
    let after : All P rows =
      subst (All P) left (reserved-All P a r n now ms (λ x. moves a r x as_run) h) in
    (
      a,
      r,
      as_run,
      after,
      subst (All (λ x. (is_own a r x ≡ true) × P x)) given
          (All-take _ n _ (All-sort _ comes_before _ (All-passed P (is_own a r) rows after))),
    )
