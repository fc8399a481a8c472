-- ===== src/Tracker/Switch.antt =====
-- checkGroupCompletion and checkDeadAgents of task-tracker.js: the dead-man's switch.
use Prim.Native.String
use openclaw_scheduler.Base.{
  ℕ, ◌+◌, ◌*◌, String, Bool, true, false, not, ◌&&◌, List, [], ◌∷◌, map, Option, none, some, str_eq,
  ltb, leb, if◌then◌else◌, filled_or, datetime, keep, every, any_of,
}
use openclaw_scheduler.Base.Table.{modify}
use openclaw_scheduler.Base.{julian, day}
use openclaw_scheduler.Tracker.Row.{
  Group, GroupStatus, Agent, AgentStatus, Tracker, group_key, agent_key, get_task_group, is_active,
  is_terminal, is_unfinished, is_lost,
}

-- SELECT * FROM task_tracker_agents WHERE tracker_id = ?
unfoldable pub agents_of : String → List Agent → List Agent
agents_of tracker_id agents = keep (λ a. str_eq a.tracker_id tracker_id) agents

abbrev join_two : String → String → String
join_two a b = String.◌++◌ a b

-- The line of one agent in the summary.
abbrev tagged : String → String → String → String
tagged tag label text = join_two tag (join_two label (join_two ": " text))

unfoldable pub summary_part : Agent → String
summary_part a = elim a.status [
  | AgentStatus.completed ↦ tagged "[ok] " a.agent_label (filled_or a.exit_message "done")
  | AgentStatus.failed ↦ tagged "[FAILED] " a.agent_label (filled_or a.error "failed")
  | AgentStatus.dead ↦ tagged "[DEAD] " a.agent_label "timed out"
  | AgentStatus.pending ↦ join_two "[pending] " a.agent_label
  | AgentStatus.running ↦ join_two "[running] " a.agent_label
]

-- `parts.join('\n')`
unfoldable pub join_lines : List String → String
join_lines [] = String.[]
join_lines (s ∷ []) = s
join_lines (s ∷ t ∷ ts) = join_two s (join_two "\n" (join_lines (t ∷ ts)))

abbrev pub group_status : List Agent → GroupStatus
group_status agents =
    if any_of (λ a. is_lost a.status) agents then GroupStatus.failed else GroupStatus.completed

abbrev pub complete_group : List Agent → ℕ → Group → Group
complete_group agents now g = record g {
  status = group_status agents;
  completed_at = some (datetime now);
  summary = some (join_lines (map summary_part agents));
}

abbrev pub is_empty : List Agent → Bool
is_empty [] = true
is_empty (a ∷ rest) = false

-- What holds before the update: the group is active, has agents, and all of them have ended.
unfoldable pub may_complete : List Agent → Group → Bool
may_complete agents g =
    is_active g.status && not (is_empty agents) && every (λ a. is_terminal a.status) agents

abbrev pub always : Group → Bool
always g = true

-- The rows of task_tracker, and the group if it was completed.
unfoldable pub complete_found :
    String → Option Group → List Agent → ℕ → List Group → List Group × Option Group
complete_found id none agents now groups = (groups, none)
complete_found id (some g) agents now groups =
    let rows = modify group_key id always (complete_group agents now) groups in
    if may_complete agents g then (rows, some (complete_group agents now g)) else (groups, none)

unfoldable pub check_group_completion :
    String → ℕ → List Agent → List Group → List Group × Option Group
check_group_completion id now agents groups =
    complete_found id (get_task_group id groups) (agents_of id agents) now groups

-- `CASE WHEN t.timeout_s < 300 THEN t.timeout_s ELSE 300 END`
abbrev pub grace_s : Group → ℕ
grace_s g = if ltb g.timeout_s 300 then g.timeout_s else 300

-- `(julianday(?) - julianday(t.created_at)) * 86400 >= t.timeout_s`
abbrev pub is_overdue : ℕ → Group → Bool
is_overdue now g =
    leb (g.timeout_s * day + 86400 * julian g.created_at) (86400 * julian (datetime now))

-- `(julianday(?) - julianday(a.last_heartbeat)) * 86400 > …`, or no heartbeat
abbrev pub is_silent : ℕ → Group → Agent → Bool
is_silent now g a = elim a.last_heartbeat [
  | none ↦ true
  | some t ↦ ltb (grace_s g * day + 86400 * julian t) (86400 * julian (datetime now))
]

abbrev pub is_dead_in : ℕ → Agent → Option Group → Bool
is_dead_in now a none = false
is_dead_in now a (some g) =
    is_unfinished a.status && is_active g.status && is_overdue now g && is_silent now g a

-- The WHERE of the statement that finds the dead agents.
unfoldable pub is_dead : ℕ → List Group → Agent → Bool
is_dead now groups a = is_dead_in now a (get_task_group a.tracker_id groups)

abbrev pub mark_dead : ℕ → Agent → Agent
mark_dead now a = record a {
  status = AgentStatus.dead;
  finished_at = some (datetime now);
  error = some "Timed out (dead-man switch)";
}

abbrev pub each_agent : Agent → Bool
each_agent a = true

-- `for (const agent of deadAgents) markDead.run(now, agent.agent_id)`
unfoldable pub mark_all : ℕ → List Agent → List Agent → List Agent
mark_all now [] agents = agents
mark_all now (d ∷ ds) agents =
    mark_all now ds (modify agent_key d.id each_agent (mark_dead now) agents)

unfoldable pub is_among : String → List String → Bool
is_among s xs = any_of (λ x. str_eq x s) xs

-- `[...new Set(ids)]`: the first occurrence of each, in order.
unfoldable pub distinct : List String → List String → List String
unfolding is_among
distinct seen [] = []
distinct seen (s ∷ ss) =
    let new = distinct (s ∷ seen) ss in
    let old = distinct seen ss in if is_among s seen then old else s ∷ new

unfoldable pub check_groups : ℕ → List Agent → List String → List Group → List Group
unfolding check_group_completion
check_groups now agents [] groups = groups
check_groups now agents (id ∷ ids) groups =
    check_groups now agents ids (check_group_completion id now agents groups).0

-- The tables, and the agents that were found dead, as they were.
unfoldable pub check_dead_agents : ℕ → Tracker → Tracker × List Agent
unfolding is_dead mark_all distinct check_groups
check_dead_agents now t =
    let dead = keep (is_dead now t.groups) t.agents in
    let agents = mark_all now dead t.agents in
    let ids = distinct [] (map (λ a. a.tracker_id) dead) in
    (record { groups = check_groups now agents ids t.groups; agents = agents }, dead)

-- listActiveTaskGroups, ORDER BY created_at DESC
unfoldable insert_group : Group → List Group → List Group
insert_group g [] = g ∷ []
insert_group g (x ∷ xs) =
    let rest = insert_group g xs in if leb x.created_at g.created_at then g ∷ x ∷ xs else x ∷ rest

unfoldable sort_groups : List Group → List Group
unfolding insert_group
sort_groups [] = []
sort_groups (g ∷ gs) = insert_group g (sort_groups gs)

unfoldable pub list_active_task_groups : List Group → List Group
unfolding sort_groups
list_active_task_groups groups = sort_groups (keep (λ g. is_active g.status) groups)
