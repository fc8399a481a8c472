-- ===== src/Tracker/Switched.antt =====
-- What checkDeadAgents of task-tracker.js does to the agents and to their groups.
use openclaw_scheduler.Base.{
  ℕ, ◌+◌, ◌*◌, ◌≤◌, ◌<◌, min, ◌↔◌, ◌≡◌, ◌⊎◌, inl, inr, refl, ◌∙◌, ap, String, Bool, true, false,
  List, [], ◌∷◌, Option, none, some, All, keep, arith, Bool-cases, str_eq, eq_iff, datetime,
}
use openclaw_scheduler.Base.Table.{find, modify, patch, update_where, find-update_where}
use openclaw_scheduler.Tracker.Row.{
  Group, GroupStatus, Agent, AgentStatus, Tracker, agent_key, get_task_group, is_terminal,
}
use openclaw_scheduler.Base.{julian, day, reached, passed}
use openclaw_scheduler.Tracker.Switch.{
  is_dead, is_dead_in, grace_s, is_silent, mark_dead, mark_all, each_agent, check_dead_agents,
}

-- Every id names one row: what the primary key of task_tracker_agents guarantees.
abbrev pub IsPrimary : List Agent → Type 0
IsPrimary [] = Unit
IsPrimary (a ∷ rest) = All (λ b. str_eq a.id b.id ≡ false) rest × IsPrimary rest

All-keep_of :
    (P : Agent → Type 0) (p : Agent → Bool) (agents : List Agent)
    → All P agents
    → All P (keep p agents)
All-keep_of P p [] h = tt
All-keep_of P p (a ∷ rest) h = elim (Bool-cases (p a)) [
  | inl e ↦ rw e (h.0, All-keep_of P p rest h.1)
  | inr e ↦ rw e (All-keep_of P p rest h.1)
]

-- Marking agents that are not the first one leaves it first.
mark_all-cons :
    (now : ℕ) (dead : List Agent) (a : Agent) (rest : List Agent)
    → All (λ d. str_eq a.id d.id ≡ false) dead
    → mark_all now dead (a ∷ rest) ≡ a ∷ mark_all now dead rest
unfolding mark_all modify
mark_all-cons now [] a rest apart = refl
mark_all-cons now (d ∷ ds) a rest apart =
    rw apart.0
      (mark_all-cons now ds a (modify agent_key d.id each_agent (mark_dead now) rest) apart.1)

mark_all-head :
    (now : ℕ) (dead : List Agent) (a : Agent) (rest : List Agent)
    → mark_all now (a ∷ dead) (a ∷ rest) ≡ mark_all now dead (mark_dead now a ∷ rest)
unfolding mark_all modify
mark_all-head now dead a rest = let same = (eq_iff a.id a.id).1 refl in rw same refl

-- The loop over the dead agents is one update of all rows that pass the test.
mark_all-is :
    (now : ℕ) (p : Agent → Bool) (agents : List Agent)
    → IsPrimary agents
    → mark_all now (keep p agents) agents ≡ update_where p (mark_dead now) agents
unfolding mark_all modify
mark_all-is now p [] primary = refl
mark_all-is now p (a ∷ rest) primary =
    let apart = All-keep_of (λ b. str_eq a.id b.id ≡ false) p rest primary.0 in
    elim (Bool-cases (p a)) [
      | inl e ↦ rw e (
          mark_all-head now (keep p rest) a rest
          ∙ mark_all-cons now (keep p rest) (mark_dead now a) rest apart
          ∙ ap (◌∷◌ (mark_dead now a)) (mark_all-is now p rest primary.1))
      | inr e ↦ rw e (
          mark_all-cons now (keep p rest) a rest apart
          ∙ ap (◌∷◌ a) (mark_all-is now p rest primary.1))
    ]

-- The agents after the check: exactly those that the statement finds are marked, in one step.
pub agents_after :
    (now : ℕ) (t : Tracker)
    → IsPrimary t.agents
    → (check_dead_agents now t).0.agents
      ≡ update_where (is_dead now t.groups) (mark_dead now) t.agents
unfolding check_dead_agents
agents_after now t primary = mark_all-is now (is_dead now t.groups) t.agents primary

-- Why an agent is given up: it has not ended, its group is active and past its time limit, and its
-- last sign of life is older than the limit, or than five minutes if the limit is longer; times are
-- compared as Julian days in double precision.
pub record IsTimedOut (now : ℕ) (g : Group) (a : Agent) : Type 0 where
  pub unfinished : is_terminal a.status ≡ false
  pub active : g.status ≡ GroupStatus.active
  pub overdue : g.timeout_s * day + 86400 * julian g.created_at ≤ 86400 * julian (datetime now)
  pub silent :
      (heard : ℕ)
      → a.last_heartbeat ≡ some heard
      → min g.timeout_s 300 * day + 86400 * julian heard < 86400 * julian (datetime now)

-- The same in exact time, by at least so many milliseconds.
pub record IsLateBy (slack now : ℕ) (g : Group) (a : Agent) : Type 0 where
  pub unfinished : is_terminal a.status ≡ false
  pub active : g.status ≡ GroupStatus.active
  pub overdue : g.created_at + g.timeout_s * 1000 + slack ≤ datetime now
  pub silent :
      (heard : ℕ)
      → a.last_heartbeat ≡ some heard
      → heard + min g.timeout_s 300 * 1000 + slack ≤ datetime now

IsTimedOut-IsLateBy : (now : ℕ) (g : Group) (a : Agent) → IsTimedOut now g a → IsLateBy 0 now g a
IsTimedOut-IsLateBy now g a h = record {
  unfinished = h.unfinished;
  active = h.active;
  overdue = omega (arith, reached g.timeout_s g.created_at (datetime now) h.overdue);
  silent = λ heard e.
      omega (arith, reached (min g.timeout_s 300) heard (datetime now), h.silent heard e);
}

IsLateBy-IsTimedOut : (now : ℕ) (g : Group) (a : Agent) → IsLateBy 1 now g a → IsTimedOut now g a
IsLateBy-IsTimedOut now g a h = record {
  unfinished = h.unfinished;
  active = h.active;
  overdue = omega (arith, passed g.timeout_s g.created_at (datetime now), h.overdue);
  silent = λ heard e.
      passed (min g.timeout_s 300) heard (datetime now) (omega (arith, h.silent heard e));
}

grace-min : (g : Group) → grace_s g ≡ min g.timeout_s 300
grace-min g = ground arith

pub silent_iff :
    (now : ℕ) (g : Group) (o : Option ℕ) (a : Agent)
    → a.last_heartbeat ≡ o
    → (is_silent now g a ≡ true) ↔ (
        (heard : ℕ)
        → a.last_heartbeat ≡ some heard
        → min g.timeout_s 300 * day + 86400 * julian heard < 86400 * julian (datetime now))
silent_iff now g none a is = (λ h heard e. ground arith, λ h. ground arith)
silent_iff now g (some t) a is =
    (λ h heard e. ground (arith, grace-min g), λ h. ground (arith, grace-min g, h t is))

IsTimedOut-iff :
    (now : ℕ) (g : Group) (a : Agent) → (is_dead_in now a (some g) ≡ true) ↔ IsTimedOut now g a
IsTimedOut-iff now g a =
    let quiet = silent_iff now g a.last_heartbeat a refl in
    (
      λ h. record {
        unfinished = ground arith;
        active = ground arith;
        overdue = ground arith;
        silent = quiet.0 (ground arith);
      },
      λ h. ground (arith, quiet.1 h.silent),
    )

-- The check gives an agent up exactly when it is timed out, and then marks it dead at once; any
-- other agent keeps its row as it is. The comparison of Julian days rounds, so in exact time: one
-- that is given up has not ended, its active group has reached its time limit, and the agent has
-- not been heard from for the limit, or for five minutes if the limit is longer; one that is kept
-- is not past both by a millisecond or more. The agents have different ids, and the group is there.
pub dead_agent_iff :
    (id : String) (now : ℕ) (t : Tracker) (a : Agent) (g : Group)
    → IsPrimary t.agents
    → find agent_key id t.agents ≡ some a
    → get_task_group a.tracker_id t.groups ≡ some g
    → let (after, dead) = check_dead_agents now t in
      (IsTimedOut now g a
        × IsLateBy 0 now g a
        × (b : Agent) × (find agent_key id after.agents ≡ some b)
        × (b.status ≡ AgentStatus.dead)
        × (b.finished_at ≡ some (datetime now)))
      ⊎ ((¬ IsTimedOut now g a)
          × (¬ IsLateBy 1 now g a)
          × (find agent_key id after.agents ≡ some a))
unfolding is_dead
dead_agent_iff id now t a g primary found group =
    let now_is : find agent_key id (check_dead_agents now t).0.agents
        ≡ some (patch (is_dead now t.groups) (mark_dead now) a) =
      ap (find agent_key id) (agents_after now t primary)
      ∙ find-update_where agent_key (mark_dead now) (λ x. refl) id (is_dead now t.groups) t.agents
      ∙ rw found in
    elim (Bool-cases (is_dead_in now a (some g))) [
      | inl e ↦ inl (
        (IsTimedOut-iff now g a).0 e,
        IsTimedOut-IsLateBy now g a ((IsTimedOut-iff now g a).0 e),
        mark_dead now a,
        now_is ∙ ap some (rw (group, e)),
        refl,
        refl,
      )
      | inr e ↦ inr (
        λ out. ground (arith, (IsTimedOut-iff now g a).1 out),
        λ late. ground (arith, (IsTimedOut-iff now g a).1 (IsLateBy-IsTimedOut now g a late)),
        now_is ∙ ap some (rw (group, e)),
      )
    ]
