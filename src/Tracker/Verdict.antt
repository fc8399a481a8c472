-- ===== src/Tracker/Verdict.antt =====
-- What checkGroupCompletion of task-tracker.js decides.
use openclaw_scheduler.Base.{
  ℕ, ◌≡◌, ◌≢◌, ◌↔◌, inl, inr, refl, ◌∙◌, ap, sym, String, Bool, true, false, List, [], ◌∷◌, none,
  some, All, every, any_of, arith, Option-cases, Bool-cases,
}
use openclaw_scheduler.Base.Table.{modify, find-modify}
use openclaw_scheduler.Tracker.Row.{
  Group, GroupStatus, Agent, AgentStatus, group_key, get_task_group, is_terminal, is_lost,
}
use openclaw_scheduler.Tracker.Switch.{
  agents_of, group_status, complete_group, may_complete, complete_found, check_group_completion,
  always, is_empty,
}

every-All :
    (p : Agent → Bool) (agents : List Agent) → every p agents ≡ true → All (λ a. p a ≡ true) agents
every-All p [] h = tt
every-All p (a ∷ rest) h = (ground arith, every-All p rest (ground arith))

-- Among agents that have ended, none is lost exactly if all completed.
none_lost :
    (agents : List Agent)
    → All (λ a. is_terminal a.status ≡ true) agents
    → (any_of (λ a. is_lost a.status) agents ≡ false)
      ↔ All (λ a. a.status ≡ AgentStatus.completed) agents
none_lost [] h = ground arith
none_lost (a ∷ rest) h = ground (arith, none_lost rest h.1)

pub group_status_iff :
    (agents : List Agent)
    → All (λ a. is_terminal a.status ≡ true) agents
    → (group_status agents ≡ GroupStatus.completed)
      ↔ All (λ a. a.status ≡ AgentStatus.completed) agents
group_status_iff agents h = ground (arith, none_lost agents h)

not_empty : (agents : List Agent) → is_empty agents ≡ false → agents ≢ []
not_empty [] h e = cc
not_empty (a ∷ rest) h e = cc

-- Completing a group, in the cases of the code: refused, or the row is written.
pub complete_found-accepted :
    (id : String) (now : ℕ) (mine : List Agent) (groups : List Group) (g : Group)
    → get_task_group id groups ≡ some g
    → may_complete mine g ≡ true
    → (complete_found id (some g) mine now groups ≡ (
      modify group_key id always (complete_group mine now) groups,
      some (complete_group mine now g),
    ))
      × (get_task_group id (modify group_key id always (complete_group mine now) groups)
          ≡ some (complete_group mine now g))
unfolding complete_found
complete_found-accepted id now mine groups g found may = (
  rw may,
  find-modify group_key (complete_group mine now) (λ x. refl) id always groups ∙ rw found,
)

refused-none :
    (id : String) (now : ℕ) (mine : List Agent) (groups rows : List Group) (g g' : Group)
    → complete_found id (some g) mine now groups ≡ (rows, some g')
    → may_complete mine g ≡ true
unfolding complete_found
refused-none id now mine groups rows g g' h = elim (Bool-cases (may_complete mine g)) [
  | inl may ↦ may
  | inr not_yet ↦ ground arith
]

unreported :
    (id : String) (now : ℕ) (mine : List Agent) (groups rows : List Group) (g' : Group)
    → complete_found id none mine now groups ≢ (rows, some g')
unfolding complete_found
unreported id now mine groups rows g' h = ground arith

-- What the group is like, before and after.
completed-parts :
    (id : String) (now : ℕ) (mine : List Agent) (groups rows : List Group) (g g' : Group)
    → get_task_group id groups ≡ some g
    → complete_found id (some g) mine now groups ≡ (rows, some g')
    → (g.status ≡ GroupStatus.active)
      × (mine ≢ [])
      × All (λ a. is_terminal a.status ≡ true) mine
      × (get_task_group id rows ≡ some g')
      × (g'.status ≡ group_status mine)
unfolding may_complete
completed-parts id now mine groups rows g g' found h =
    let may = refused-none id now mine groups rows g g' h in
    let (is, there) = complete_found-accepted id now mine groups g found may in
    let both = sym is ∙ h in
    let rows_is : modify group_key id always (complete_group mine now) groups ≡ rows =
      ap (λ p. p.0) both in
    let g_is : complete_group mine now g ≡ g' = ground arith in
    (
      ground arith,
      not_empty mine (ground arith),
      every-All (λ a. is_terminal a.status) mine (ground arith),
      rw (← rows_is) (there ∙ ap some g_is),
      rw (← g_is) refl,
    )

-- When the check reports a group, that group was active, had agents, and all of them had ended; it
-- is stored as reported, as `completed` exactly if every agent completed, and as `failed` exactly
-- if one failed or died.
pub group_verdict :
    (id : String) (now : ℕ) (agents : List Agent) (groups rows : List Group) (g' : Group)
    → check_group_completion id now agents groups ≡ (rows, some g')
    → (g : Group) × (get_task_group id groups ≡ some g)
      × (g.status ≡ GroupStatus.active)
      × (agents_of id agents ≢ [])
      × All (λ a. is_terminal a.status ≡ true) (agents_of id agents)
      × (get_task_group id rows ≡ some g')
      × ((g'.status ≡ GroupStatus.completed)
          ↔ All (λ a. a.status ≡ AgentStatus.completed) (agents_of id agents))
      × ((g'.status ≡ GroupStatus.failed)
          ↔ (any_of (λ a. is_lost a.status) (agents_of id agents) ≡ true))
unfolding check_group_completion
group_verdict id now agents groups rows g' h = elim (Option-cases (get_task_group id groups)) [
  | inl absent ↦ absurd (unreported id now (agents_of id agents) groups rows g' (rw absent at h))
  | inr (g, found) ↦
      let (active, some_there, ended, stored, status) =
        completed-parts id now (agents_of id agents) groups rows g g' found (rw found at h) in
      (
        g,
        found,
        active,
        some_there,
        ended,
        stored,
        rw status (group_status_iff (agents_of id agents) ended),
        rw status (ground arith),
      )
]
