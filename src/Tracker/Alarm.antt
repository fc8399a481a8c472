-- ===== src/Tracker/Alarm.antt =====
-- The dead-man's switch of task-tracker.js goes off: checkDeadAgents settles a silent group.
use openclaw_scheduler.Base.{
  ℕ, ◌+◌, ◌*◌, ◌<◌, min, ◌≡◌, ◌≢◌, ◌⊎◌, inl, inr, refl, ◌∙◌, ap, sym, String, true, false, ◌||◌,
  ◌&&◌, not, List, [], ◌∷◌, map, some, All, keep, every, any_of, arith, Bool-cases, Option-cases,
  str_eq, eq_iff, datetime,
}
use openclaw_scheduler.Base.Table.{update_where, find-modify_ne}
use openclaw_scheduler.Tracker.Row.{
  Group, GroupStatus, Agent, Tracker, group_key, get_task_group, is_active, is_terminal, is_lost,
  is_unfinished,
}
use openclaw_scheduler.Tracker.Switch.{
  agents_of, complete_group, may_complete, complete_found, check_group_completion, always, is_empty,
  is_dead, is_dead_in, is_overdue, is_silent, mark_dead, is_among, distinct, check_groups,
  check_dead_agents,
}
use openclaw_scheduler.Tracker.Verdict.{complete_found-accepted}
use openclaw_scheduler.Tracker.Switched.{IsPrimary, agents_after, silent_iff}
use openclaw_scheduler.Base.{passed}

-- Ended, or not heard from for more than the limit, or than five minutes if the limit is longer.
abbrev pub IsQuiet : ℕ → Group → Agent → Type 0
IsQuiet now g a =
    (is_terminal a.status ≡ true)
    ⊎ ((heard : ℕ)
        → a.last_heartbeat ≡ some heard
        → heard + min g.timeout_s 300 * 1000 < datetime now)

-- As the statement sees it.
abbrev IsGivenUp : ℕ → Group → Agent → Type 0
IsGivenUp now g a = (is_terminal a.status || is_silent now g a) ≡ true

quiet-IsGivenUp : (now : ℕ) (g : Group) (a : Agent) → IsQuiet now g a → IsGivenUp now g a
quiet-IsGivenUp now g a (inl ended) = ground arith
quiet-IsGivenUp now g a (inr old) =
    let silent =
      (silent_iff now g a.last_heartbeat a refl).1
        λ heard e. passed (min g.timeout_s 300) heard (datetime now) (old heard e) in
    ground arith

All-IsGivenUp :
    (now : ℕ) (g : Group) (agents : List Agent)
    → All (IsQuiet now g) agents
    → All (IsGivenUp now g) agents
All-IsGivenUp now g [] h = tt
All-IsGivenUp now g (a ∷ rest) h = (quiet-IsGivenUp now g a h.0, All-IsGivenUp now g rest h.1)

module _ (now : ℕ) (id : String) (groups : List Group) (g : Group)
    (found : get_task_group id groups ≡ some g) (active : g.status ≡ GroupStatus.active)
    (overdue : is_overdue now g ≡ true) where
  abbrev after : List Agent → List Agent
  after agents = agents_of id (update_where (is_dead now groups) (mark_dead now) agents)

  is_dead-known :
      (a : Agent) → str_eq a.tracker_id id ≡ true → is_dead now groups a ≡ is_dead_in now a (some g)
  unfolding is_dead
  is_dead-known a same =
      ap (λ i. is_dead_in now a (get_task_group i groups)) ((eq_iff a.tracker_id id).0 same)
      ∙ ap (is_dead_in now a) found

  -- Every agent of the group has ended once the silent ones are marked.
  after_ended :
      (agents : List Agent)
      → All (IsGivenUp now g) (agents_of id agents)
      → every (λ a. is_terminal a.status) (after agents) ≡ true
  unfolding agents_of
  after_ended [] quiet = refl
  after_ended (a ∷ rest) quiet = elim (Bool-cases (str_eq a.tracker_id id)) [
    | inl same ↦
        let known = is_dead-known a same in
        let q = rw same at quiet in ground (arith, after_ended rest q.1, q.0)
    | inr other ↦ let q = rw other at quiet in ground (arith, after_ended rest q)
  ]

  -- One that had not ended is lost now, and the group has an agent.
  after_lost :
      (agents : List Agent)
      → All (IsGivenUp now g) (agents_of id agents)
      → any_of (λ a. is_unfinished a.status) (agents_of id agents) ≡ true
      → any_of (λ a. is_lost a.status) (after agents) ≡ true
  unfolding agents_of
  after_lost [] quiet h = cc
  after_lost (a ∷ rest) quiet h = elim (Bool-cases (str_eq a.tracker_id id)) [
    | inl same ↦
        let known = is_dead-known a same in
        let q = rw same at quiet in ground (arith, after_lost rest q.1, q.0)
    | inr other ↦ let q = rw other at quiet in ground (arith, after_lost rest q)
  ]

  -- Its group is among those that are checked.
  dead-is_among :
      (agents : List Agent)
      → All (IsGivenUp now g) (agents_of id agents)
      → any_of (λ a. is_unfinished a.status) (agents_of id agents) ≡ true
      → is_among id (map (λ a. a.tracker_id) (keep (is_dead now groups) agents)) ≡ true
  unfolding agents_of is_among
  dead-is_among [] quiet h = cc
  dead-is_among (a ∷ rest) quiet h = elim (Bool-cases (str_eq a.tracker_id id)) [
    | inl same ↦
        let known = is_dead-known a same in
        let q = rw same at quiet in ground (arith, dead-is_among rest q.1, q.0)
    | inr other ↦ let q = rw other at quiet in ground (arith, dead-is_among rest q)
  ]

distinct-is_among :
    (id : String) (seen ids : List String)
    → is_among id seen ≡ false
    → is_among id ids ≡ true
    → is_among id (distinct seen ids) ≡ true
unfolding distinct is_among
distinct-is_among id seen [] new h = cc
distinct-is_among id seen (s ∷ ss) new h = elim (Bool-cases (str_eq s id)) [
  | inl same ↦ let s_is : s ≡ id = (eq_iff s id).0 same in ground (arith, s_is)
  | inr other ↦ ground (arith, distinct-is_among id seen ss, distinct-is_among id (s ∷ seen) ss)
]

module _ (now : ℕ) (id : String) (agents : List Agent) (g : Group)
    (may : may_complete (agents_of id agents) g ≡ true) where
  abbrev settled : Group
  settled = complete_group (agents_of id agents) now g

  -- Checking another group leaves this one.
  other_check :
      (j : String) (groups : List Group)
      → id ≢ j
      → get_task_group id (check_group_completion j now agents groups).0 ≡ get_task_group id groups
  unfolding check_group_completion complete_found
  other_check j groups other = elim (Option-cases (get_task_group j groups)) [
    | inl e ↦ rw e refl
    | inr (x, e) ↦ elim (Bool-cases (may_complete (agents_of j agents) x)) [
      | inl ends ↦
          rw (e, ends)
            (find-modify_ne group_key (complete_group (agents_of j agents) now) (λ y. refl) id j
              always groups other)
      | inr goes_on ↦ rw (e, goes_on) refl
    ]
  ]

  own_check :
      (groups : List Group)
      → get_task_group id groups ≡ some g
      → get_task_group id (check_group_completion id now agents groups).0 ≡ some settled
  unfolding check_group_completion
  own_check groups found =
      let (is, there) = complete_found-accepted id now (agents_of id agents) groups g found may in
      rw found (rw is there)

  closed : may_complete (agents_of id agents) settled ≡ false
  unfolding may_complete
  closed = ground arith

  -- A settled group is left alone by every check.
  settled_check :
      (j : String) (groups : List Group)
      → get_task_group id groups ≡ some settled
      → get_task_group id (check_group_completion j now agents groups).0 ≡ some settled
  unfolding check_group_completion complete_found
  settled_check j groups found = elim (Bool-cases (str_eq id j)) [
    | inl same ↦ rw (← (eq_iff id j).0 same) (rw found (rw closed found))
    | inr other ↦ other_check j groups (λ e. ground (arith, eq_iff id j)) ∙ found
  ]

  settled_checks :
      (ids : List String) (groups : List Group)
      → get_task_group id groups ≡ some settled
      → get_task_group id (check_groups now agents ids groups) ≡ some settled
  unfolding check_groups
  settled_checks [] groups found = found
  settled_checks (j ∷ ids) groups found = settled_checks ids _ (settled_check j groups found)

  checked_groups :
      (ids : List String) (groups : List Group)
      → is_among id ids ≡ true
      → get_task_group id groups ≡ some g
      → get_task_group id (check_groups now agents ids groups) ≡ some settled
  unfolding check_groups is_among
  checked_groups [] groups among found = cc
  checked_groups (j ∷ ids) groups among found = elim (Bool-cases (str_eq j id)) [
    | inl same ↦
        let j_is : id ≡ j = sym ((eq_iff j id).0 same) in
        settled_checks ids _ (rw (← j_is) (own_check groups found))
    | inr other ↦
        let apart : id ≢ j = ground (arith, eq_iff j id) in
        checked_groups ids _ (ground arith) (other_check j groups apart ∙ found)
  ]

completes :
    (agents : List Agent) (id : String) (g : Group)
    → g.status ≡ GroupStatus.active
    → every (λ a. is_terminal a.status) (agents_of id agents) ≡ true
    → any_of (λ a. is_lost a.status) (agents_of id agents) ≡ true
    → may_complete (agents_of id agents) g ≡ true
unfolding may_complete
completes agents id g active ended lost = go (agents_of id agents) ended lost
  where
    go :
        (mine : List Agent)
        → every (λ a. is_terminal a.status) mine ≡ true
        → any_of (λ a. is_lost a.status) mine ≡ true
        → (is_active g.status && not (is_empty mine) && every (λ a. is_terminal a.status) mine)
          ≡ true
    go [] e l = cc
    go (a ∷ rest) e l = ground arith

check-is :
    (now : ℕ) (id : String) (t : Tracker) (g : Group)
    → IsPrimary t.agents
    → is_among id (map (λ a. a.tracker_id) (keep (is_dead now t.groups) t.agents)) ≡ true
    → let agents = update_where (is_dead now t.groups) (mark_dead now) t.agents in
      may_complete (agents_of id agents) g ≡ true
      → get_task_group id t.groups ≡ some g
      → get_task_group id (check_dead_agents now t).0.groups
        ≡ some (complete_group (agents_of id agents) now g)
unfolding check_dead_agents
check-is now id t g primary among may found =
    let ids = distinct [] (map (λ a. a.tracker_id) (keep (is_dead now t.groups) t.agents)) in
    ap (λ rows. get_task_group id (check_groups now rows ids t.groups)) (agents_after now t primary)
    ∙ checked_groups now id _ g may ids t.groups (distinct-is_among id [] _ refl among) found

-- Once an active group is past its time limit by a millisecond or more, and each of its agents has
-- ended or has not been heard from for more than the limit, or than five minutes if the limit is
-- longer, one check, with no further call by anyone, settles it: if an agent had not ended, the
-- group is stored as `failed`. The agents have different ids.
pub switch_settles :
    (now : ℕ) (id : String) (t : Tracker) (g : Group)
    → IsPrimary t.agents
    → get_task_group id t.groups ≡ some g
    → g.status ≡ GroupStatus.active
    → g.created_at + g.timeout_s * 1000 < datetime now
    → All (IsQuiet now g) (agents_of id t.agents)
    → any_of (λ a. is_unfinished a.status) (agents_of id t.agents) ≡ true
    → (g' : Group) × (get_task_group id (check_dead_agents now t).0.groups ≡ some g')
      × (g'.status ≡ GroupStatus.failed)
      × (g'.completed_at ≡ some (datetime now))
switch_settles now id t g primary found active overdue calm waiting =
    let late : is_overdue now g ≡ true =
      ground (arith, passed g.timeout_s g.created_at (datetime now) overdue) in
    let quiet = All-IsGivenUp now g (agents_of id t.agents) calm in
    let ended = after_ended now id t.groups g found active late t.agents quiet in
    let lost = after_lost now id t.groups g found active late t.agents quiet waiting in
    let among = dead-is_among now id t.groups g found active late t.agents quiet waiting in
    let agents = update_where (is_dead now t.groups) (mark_dead now) t.agents in
    let may = completes agents id g active ended lost in
    (
      complete_group (agents_of id agents) now g,
      check-is now id t g primary among may found,
      rw lost refl,
      refl,
    )
