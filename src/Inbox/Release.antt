-- ===== src/Inbox/Release.antt =====
-- A reservation that is released leaves no trace in the message (messages.js, claimableMetadataSql
-- and removePromptClaimSql).
use mathlib.Core.Option
use openclaw_scheduler.Base.{
  ℕ, ◌≡◌, ◌≢◌, refl, sym, ◌∙◌, ap, subst, String, Bool, true, List, [], ◌∷◌, Option, some, ok, ◌⊎◌,
  inl, inr, Bool-cases, holds_text_iff, arith, str_eq, eq_iff,
}
use openclaw_scheduler.Base.Table.{modify, returning, patch, find-modify, find-modify_ne}
use openclaw_scheduler.Inbox.Row.{
  Message, MessageStatus, MessageError, Metadata, message_key, get_message, is_reserved_by, is_for,
  prompt_run_id, set_prompt_claim, remove_prompt_claim, null_if_empty,
}
use openclaw_scheduler.Inbox.Claim.{
  required_id, normalize_message_ids, reserve_row, may_reserve, reserve_each, candidates, reserved,
  claim_inbox_for_run, may_settle, also, release_row, release_each, reason_of,
  release_claimed_inbox_for_run,
}
use openclaw_scheduler.Inbox.Returns.{claim-returns}

-- The metadata that a sender wrote: white space and an empty object count as none, and an object
-- is without a claim.
abbrev pub own_metadata : Metadata → Metadata
own_metadata Metadata.null = Metadata.null
own_metadata Metadata.blank = Metadata.null
own_metadata (Metadata.object fields claim) = null_if_empty fields
own_metadata (Metadata.value v) = Metadata.value v
own_metadata (Metadata.raw s) = Metadata.raw s

remove-set :
    (r : String) (now : ℕ) (md : Metadata)
    → remove_prompt_claim (set_prompt_claim r now md) ≡ own_metadata md
unfolding set_prompt_claim remove_prompt_claim
remove-set r now Metadata.null = ground arith
remove-set r now Metadata.blank = ground arith
remove-set r now (Metadata.object fields claim) = refl
remove-set r now (Metadata.value v) = refl
remove-set r now (Metadata.raw s) = refl

find_row :
    (k j : String) (g : Message → Bool) (f : Message → Message) (t : List Message) (x : Message)
    → ((r : Message) → (f r).id ≡ r.id)
    → get_message j t ≡ some x
    → (get_message j (modify message_key k g f t) ≡ some x)
      ⊎ ((g x ≡ true) × (get_message j (modify message_key k g f t) ≡ some (f x)))
find_row k j g f t x same found = elim (Bool-cases (str_eq j k)) [
  | inr ne ↦
      let apart : j ≢ k = ground (arith, eq_iff j k) in
      inl (find-modify_ne message_key f same j k g t apart ∙ found)
  | inl eq ↦
      let here : j ≡ k = (eq_iff j k).0 eq in
      let law : get_message j (modify message_key j g f t) ≡ some (patch g f x) =
        find-modify message_key f same j g t ∙ ap (Option.map (patch g f)) found in
      let moved : get_message j (modify message_key k g f t) ≡ some (patch g f x) =
        subst (λ i. get_message j (modify message_key i g f t) ≡ some (patch g f x)) here law in
      elim (Bool-cases (g x)) [
        | inl passes ↦ inr (passes, rw passes at moved)
        | inr fails ↦ inl (rw fails at moved)
      ]
]

-- Each message stands as it was, or is reserved.
find-reserve_each :
    (a r j : String) (now : ℕ) (cs t : List Message) (x : Message)
    → get_message j t ≡ some x
    → (get_message j (reserve_each a r now cs t) ≡ some x)
      ⊎ ((may_reserve a x ≡ true)
          × (get_message j (reserve_each a r now cs t) ≡ some (reserve_row r now x)))
unfolding reserve_each
find-reserve_each a r j now [] t x found = inl found
find-reserve_each a r j now (c ∷ cs) t x found =
    elim (find_row c.id j (may_reserve a) (reserve_row r now) t x (λ y. refl) found) [
      | inl stays ↦ find-reserve_each a r j now cs _ x stays
      | inr (free, taken) ↦ elim (find-reserve_each a r j now cs _ (reserve_row r now x) taken) [
        | inl kept ↦ inr (free, kept)
        | inr (again, kept) ↦ cc
      ]
    ]

reserved_may_settle :
    (a r : String) (now : ℕ) (m : Message)
    → may_reserve a m ≡ true
    → may_settle r (reserve_row r now m) ≡ true
unfolding is_for is_reserved_by prompt_run_id set_prompt_claim
reserved_may_settle a r now m free = ground (arith, holds_text_iff (some r) r)

release-reserve :
    (a r : String) (now : ℕ) (e : Option MessageError) (m : Message)
    → may_reserve a m ≡ true
    → release_row e (reserve_row r now m)
      ≡ record m { metadata = own_metadata m.metadata; last_error = e }
release-reserve a r now e m free =
    let pending : m.status ≡ MessageStatus.pending = ground arith in
    rw (remove-set r now m.metadata, pending) refl

released :
    (a r j : String) (now : ℕ) (e : Option MessageError) (m : Message) (rows : List Message)
    → may_reserve a m ≡ true
    → get_message j rows ≡ some (reserve_row r now m)
    → get_message j (modify message_key j (may_settle r) (release_row e) rows)
      ≡ some (record m { metadata = own_metadata m.metadata; last_error = e })
released a r j now e m rows free found =
    find-modify message_key (release_row e) (λ y. refl) j (may_settle r) rows
    ∙ ap (Option.map (patch (may_settle r) (release_row e))) found
    ∙ rw (reserved_may_settle a r now m free) (ap some (release-reserve a r now e m free))

-- A message that is reserved after a claim, and was pending, was reserved by it.
claimed_row :
    (a r j : String) (n now : ℕ) (ms : List Message) (m m' : Message)
    → get_message j ms ≡ some m
    → m.status ≡ MessageStatus.pending
    → get_message j (reserved a r n now ms) ≡ some m'
    → is_reserved_by r m' ≡ true
    → (may_reserve a m ≡ true)
      × (get_message j (reserved a r n now ms) ≡ some (reserve_row r now m))
unfolding reserved is_reserved_by
claimed_row a r j n now ms m m' was pending is own =
    elim (find-reserve_each a r j now (candidates a r n ms) ms m was) [
      | inl stays ↦ absurd (ground arith)
      | inr taken ↦ taken
    ]

-- A pending message that a claim reserves for a run, and that the run then releases, is again as it
-- was, but for the reason of the release and for white space, an empty object or a claim in its
-- metadata. The id of the message is a trimmed text.
pub release_restores :
    (agent run : Option String) (limit : Option ℕ) (now : ℕ) (j r : String) (reason : Option String)
    (ms rows mine : List Message) (m m' : Message)
    → claim_inbox_for_run agent run limit now ms ≡ ok (rows, mine)
    → required_id run ≡ ok r
    → required_id (some j) ≡ ok j
    → get_message j ms ≡ some m
    → m.status ≡ MessageStatus.pending
    → get_message j rows ≡ some m'
    → is_reserved_by r m' ≡ true
    → (back given : List Message) × (release_claimed_inbox_for_run run (some j ∷ []) reason rows
        ≡ ok (back, given))
      × (get_message j back
          ≡ some (record m { metadata = own_metadata m.metadata; last_error = reason_of reason }))
unfolding release_claimed_inbox_for_run normalize_message_ids release_each
release_restores agent run limit now j r reason ms rows mine m m' done as_run as_id was pending is
      own =
    let (a, r', n, as_agent, as_run', fits, left, given) =
      claim-returns agent run limit now ms rows mine done in
    let same : r' ≡ r = cc in
    let left' : reserved a r n now ms ≡ rows =
      subst (λ x. reserved a x n now ms ≡ rows) same left in
    let there : get_message j (reserved a r n now ms) ≡ some m' =
      subst (λ x. get_message j x ≡ some m') (sym left') is in
    let (free, found) = claimed_row a r j n now ms m m' was pending there own in
    let found' : get_message j rows ≡ some (reserve_row r now m) =
      subst (λ x. get_message j x ≡ some (reserve_row r now m)) left' found in
    (
      modify message_key j (may_settle r) (release_row (reason_of reason)) rows,
      also (returning message_key j (may_settle r) (release_row (reason_of reason)) rows) [],
      rw (as_run, as_id) refl,
      released a r j now (reason_of reason) m rows free found',
    )
