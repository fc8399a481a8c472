-- ===== src/Inbox/Freed.antt =====
-- What recoverStaleInboxClaims does, message by message (messages.js).
use mathlib.Core.Option
use openclaw_scheduler.Base.{
  ℕ, ◌≡◌, ◌≢◌, refl, sym, ◌∙◌, ap, subst, String, Bool, true, false, ◌&&◌, ◌||◌, List, [], ◌∷◌, map,
  Option, some, All, inl, inr, Bool-cases, keep, any_of, arith, str_eq, eq_iff, if◌then◌else◌,
}
use openclaw_scheduler.Base.Table.{find, modify, patch, find-modify, find-modify_ne}
use openclaw_scheduler.Base.Table.Primary.{IsPrimary, All-found}
use openclaw_scheduler.Base.Table.Every.{All-keep_of}
use openclaw_scheduler.Run.Row.{Run}
use openclaw_scheduler.Inbox.Row.{
  Message, MessageStatus, message_key, get_message, is_prompt_claimed, prompt_run_id,
  remove_prompt_claim,
}
use openclaw_scheduler.Inbox.Claim.{insert_message, sort_messages}
use openclaw_scheduler.Inbox.Recover.{
  is_abandoned, is_older, detail_of, may_recover, recovers_to, recover_each, age_of,
  recover_stale_inbox_claims,
}
use openclaw_scheduler.Inbox.Writes.{All-sort}

module _ (q : Message → Bool) (before : Message → Message → Bool) where
  any_of-insert :
      (m : Message) (t : List Message) → any_of q (insert_message before m t) ≡ (q m || any_of q t)
  unfolding insert_message
  any_of-insert m [] = ground arith
  any_of-insert m (x ∷ t) = ground (arith, any_of-insert m t)

  any_of-sort : (t : List Message) → any_of q (sort_messages before t) ≡ any_of q t
  unfolding sort_messages
  any_of-sort [] = refl
  any_of-sort (m ∷ t) = ground (arith, any_of-insert m (sort_messages before t), any_of-sort t)

joined_hit :
    (n a p : Bool) (u v w x : Message)
    → (n && p) ≡ true
    → v ≡ w
    → (if a && false then u else v) ≡ (if (n || a) && p then w else x)
joined_hit true true true u v w x h e = e
joined_hit true false true u v w x h e = e
joined_hit true a false u v w x h e = cc
joined_hit false a p u v w x h e = cc

joined_miss :
    (n a p : Bool) (w x : Message)
    → (n && p) ≡ false
    → (if a && p then w else x) ≡ (if (n || a) && p then w else x)
joined_miss true a true w x h = cc
joined_miss true true false w x h = refl
joined_miss true false false w x h = refl
joined_miss false a p w x h = refl

module _ (j : String) (m : Message) where
  abbrev IsOnly : Message → Type 0
  IsOnly x = x.id ≡ j → x ≡ m

  abbrev is_named : Message → Bool
  is_named x = str_eq x.id j

  IsOnly-All :
      (t : List Message) → IsPrimary (map message_key t) → get_message j t ≡ some m → All IsOnly t
  IsOnly-All t keys found = from t (All-found message_key t keys)
    where
      from : (u : List Message) → All (λ x. get_message x.id t ≡ some x) u → All IsOnly u
      from [] h = tt
      from (x ∷ u) h = (λ same. ground arith, from u h.1)

  none_named :
      (p : Message → Bool) (t : List Message)
      → All IsOnly t
      → p m ≡ false
      → any_of is_named (keep p t) ≡ false
  none_named p [] only out = refl
  none_named p (x ∷ t) only out = elim (Bool-cases (str_eq x.id j)) [
    | inl e ↦
        let is : x ≡ m = only.0 ((eq_iff x.id j).0 e) in
        let dropped : p x ≡ false = subst (λ y. p y ≡ false) (sym is) out in
        rw dropped (none_named p t only.1 out)
    | inr e ↦ ground (arith, none_named p t only.1 out)
  ]

  -- The message is among the rows that pass exactly if it passes.
  any_named :
      (p : Message → Bool) (t : List Message)
      → get_message j t ≡ some m
      → All IsOnly t
      → any_of is_named (keep p t) ≡ p m
  unfolding find
  any_named p [] found only = cc
  any_named p (x ∷ t) found only = elim (Bool-cases (str_eq x.id j)) [
    | inl e ↦
        let is : x ≡ m = only.0 ((eq_iff x.id j).0 e) in
        let same : p x ≡ p m = ap p is in
        elim (Bool-cases (p m)) [
          | inl passes ↦ ground arith
          | inr fails ↦ ground (arith, none_named p t only.1 fails)
        ]
    | inr e ↦ ground (arith, any_named p t (rw e at found) only.1)
  ]

  after_one :
      (c x : Message) (t : List Message)
      → get_message j t ≡ some x
      → get_message j (modify message_key c.id may_recover (recovers_to c) t)
        ≡ some (if str_eq c.id j && is_prompt_claimed x.status then recovers_to c x else x)
  after_one c x t found = elim (Bool-cases (str_eq c.id j)) [
    | inl e ↦
        let here : c.id ≡ j = (eq_iff c.id j).0 e in
        let law : get_message j (modify message_key j may_recover (recovers_to c) t)
            ≡ some (patch may_recover (recovers_to c) x) =
          find-modify message_key (recovers_to c) (λ y. refl) j may_recover t
          ∙ ap (Option.map (patch may_recover (recovers_to c))) found in
        let moved : get_message j (modify message_key c.id may_recover (recovers_to c) t)
            ≡ some (patch may_recover (recovers_to c) x) =
          subst
            (λ i.
              get_message j (modify message_key i may_recover (recovers_to c) t)
              ≡ some (patch may_recover (recovers_to c) x))
            (sym here) law in
        rw e moved
    | inr e ↦
        let apart : j ≢ c.id = ground (arith, eq_iff c.id j) in
        rw e (
          find-modify_ne message_key (recovers_to c) (λ y. refl) j c.id may_recover t apart ∙ found)
  ]

  find-recover_each :
      (cs t : List Message) (x : Message)
      → get_message j t ≡ some x
      → All IsOnly cs
      → get_message j (recover_each cs t).0
        ≡ some (if any_of is_named cs && is_prompt_claimed x.status then recovers_to m x else x)
  unfolding recover_each
  find-recover_each [] t x found only = found
  find-recover_each (c ∷ cs) t x found only =
      let t' : List Message = modify message_key c.id may_recover (recovers_to c) t in
      elim (Bool-cases (str_eq c.id j && is_prompt_claimed x.status)) [
        | inl hit ↦
            let is : c ≡ m = only.0 (ground (arith, eq_iff c.id j)) in
            let now : get_message j t' ≡ some (recovers_to c x) =
              rw hit at (after_one c x t found) in
            let rest = find-recover_each cs t' (recovers_to c x) now only.1 in
            rest
            ∙ ap some (
                joined_hit (is_named c) (any_of is_named cs) (is_prompt_claimed x.status) _
                  (recovers_to c x) (recovers_to m x) x hit (ap (λ y. recovers_to y x) is))
        | inr miss ↦
            let now : get_message j t' ≡ some x = rw miss at (after_one c x t found) in
            let rest = find-recover_each cs t' x now only.1 in
            rest
            ∙ ap some (
                joined_miss (is_named c) (any_of is_named cs) (is_prompt_claimed x.status)
                  (recovers_to m x) x miss)
      ]

abandoned_claimed :
    (seconds now : ℕ) (runs : List Run) (m : Message)
    → (is_abandoned seconds now runs m && is_prompt_claimed m.status)
      ≡ is_abandoned seconds now runs m
unfolding is_abandoned
abandoned_claimed seconds now runs m = ground arith

-- A message that was recovered is reserved no more.
pending_kept :
    (seconds now : ℕ) (runs : List Run) (m : Message)
    → is_abandoned seconds now runs (if is_abandoned seconds now runs m then recovers_to m m else m)
      ≡ false
pending_kept seconds now runs m = elim (Bool-cases (is_abandoned seconds now runs m)) [
  | inl e ↦ rw e (unfold is_abandoned in refl)
  | inr e ↦ rw e e
]

-- A recovery is one update of the whole table, and leaves no message abandoned: one that is
-- reserved and internal, long enough ago or at no valid time, and not by an active run, is pending
-- again, without the reservation in its metadata and with the reason, and every other one is as it
-- was. The ids are a primary key.
pub recovery_frees :
    (older_than : Option ℕ) (now : ℕ) (runs : List Run) (j : String) (m : Message)
    (ms : List Message)
    → IsPrimary (map message_key ms)
    → get_message j ms ≡ some m
    → (m' : Message) × (get_message j (recover_stale_inbox_claims older_than now runs ms).0
        ≡ some m')
      × (m' ≡ (
          if is_abandoned (age_of older_than) now runs m
          then record m {
            status = MessageStatus.pending;
            metadata = remove_prompt_claim m.metadata;
            last_error = some (detail_of (prompt_run_id m.metadata));
          }
          else m))
      × (is_abandoned (age_of older_than) now runs m' ≡ false)
unfolding recover_stale_inbox_claims
recovery_frees older_than now runs j m ms keys found =
    let p : Message → Bool = is_abandoned (age_of older_than) now runs in
    let only = IsOnly-All j m ms keys found in
    let named : any_of (λ x. str_eq x.id j) (sort_messages is_older (keep p ms)) ≡ p m =
      any_of-sort (λ x. str_eq x.id j) is_older (keep p ms) ∙ any_named j m p ms found only in
    let hit : (any_of (λ x. str_eq x.id j) (sort_messages is_older (keep p ms))
          && is_prompt_claimed m.status)
        ≡ p m =
      ap (λ b. b && is_prompt_claimed m.status) named
      ∙ abandoned_claimed (age_of older_than) now runs m in
    (
      if p m then recovers_to m m else m,
      find-recover_each j m (sort_messages is_older (keep p ms)) ms m found
            (All-sort (IsOnly j m) is_older (keep p ms) (All-keep_of (IsOnly j m) p ms only))
          ∙ ap (λ b. some (if b then recovers_to m m else m)) hit,
      refl,
      pending_kept (age_of older_than) now runs m,
    )
