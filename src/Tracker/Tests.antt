-- ===== src/Tracker/Tests.antt =====
-- Task groups at concrete inputs.
use mathlib.Core.Option
use openclaw_scheduler.Base.{
  inl, inr, Option, ◌≡◌, ◌≢◌, ◌↔◌, ◌⊎◌, refl, String, true, List, [], ◌∷◌, none, some, All, any_of,
  arith, datetime, eq_iff,
}
use openclaw_scheduler.Base.Table.{find, modify}
use openclaw_scheduler.Tracker.Row.{
  Group, GroupStatus, Agent, AgentStatus, Tracker, agent_key, get_task_group, is_terminal, is_lost,
}
use openclaw_scheduler.Tracker.Switch.{
  agents_of, may_complete, complete_found, check_group_completion, check_dead_agents, is_dead,
  mark_all, summary_part, join_lines, distinct, is_among, check_groups,
}
use openclaw_scheduler.Base.{julian}
use openclaw_scheduler.Tracker.Verdict.{group_verdict}
use openclaw_scheduler.Tracker.Switched.{IsTimedOut, IsLateBy, dead_agent_iff}
use openclaw_scheduler.Tracker.Alarm.{switch_settles}
use openclaw_scheduler.Tracker.Settled.{
  starts, completes, checks, switches, run_tracker, IsLaterGroup, group_for_ever,
}

abbrev team : Group
team = record {
  id = "g";
  name = "team";
  created_at = 1000;
  created_by = "main";
  expected_agents = "x" ∷ "y" ∷ [];
  timeout_s = 60;
  status = GroupStatus.active;
  completed_at = none;
  delivery_channel = none;
  delivery_to = none;
  summary = none;
}

abbrev done_agent : Agent
done_agent = record {
  id = "a1";
  tracker_id = "g";
  agent_label = "x";
  status = AgentStatus.completed;
  started_at = some 2000;
  finished_at = some 5000;
  exit_message = none;
  error = none;
  session_key = none;
  last_heartbeat = some 3000;
}

abbrev silent_agent : Agent
silent_agent = record done_agent {
  id = "a2";
  agent_label = "y";
  status = AgentStatus.running;
  finished_at = none;
}

abbrev tables : Tracker
tables = record { groups = team ∷ []; agents = done_agent ∷ silent_agent ∷ [] }

abbrev all_done : List Agent
all_done = done_agent ∷ []

abbrev done_team : Group
done_team = record team {
  status = GroupStatus.completed;
  completed_at = some 6000;
  summary = some "[ok] x: done";
}

group_verdict_example :
    (g : Group) × (get_task_group "g" (team ∷ []) ≡ some g)
    × (g.status ≡ GroupStatus.active)
    × (agents_of "g" all_done ≢ [])
    × All (λ a. is_terminal a.status ≡ true) (agents_of "g" all_done)
    × (get_task_group "g" (done_team ∷ []) ≡ some done_team)
    × ((done_team.status ≡ GroupStatus.completed)
        ↔ All (λ a. a.status ≡ AgentStatus.completed) (agents_of "g" all_done))
    × ((done_team.status ≡ GroupStatus.failed)
        ↔ (any_of (λ a. is_lost a.status) (agents_of "g" all_done) ≡ true))
unfolding check_group_completion complete_found may_complete agents_of find modify summary_part
    join_lines datetime
group_verdict_example = group_verdict "g" 6500 all_done (team ∷ []) (done_team ∷ []) done_team refl

dead_agent_iff_example :
    let (after, dead) = check_dead_agents 100000 tables in
    (IsTimedOut 100000 team silent_agent
      × IsLateBy 0 100000 team silent_agent
      × (b : Agent) × (find agent_key "a2" after.agents ≡ some b)
      × (b.status ≡ AgentStatus.dead)
      × (b.finished_at ≡ some (datetime 100000)))
    ⊎ ((¬ IsTimedOut 100000 team silent_agent)
        × (¬ IsLateBy 1 100000 team silent_agent)
        × (find agent_key "a2" after.agents ≡ some silent_agent))
unfolding find
dead_agent_iff_example =
    dead_agent_iff "a2" 100000 tables silent_agent team
      ((ground (arith, eq_iff "a1" "a2"), tt), (tt, tt)) refl refl

switch_settles_example :
    (g' : Group) × (get_task_group "g" (check_dead_agents 100000 tables).0.groups ≡ some g')
    × (g'.status ≡ GroupStatus.failed)
    × (g'.completed_at ≡ some (datetime 100000))
unfolding find agents_of datetime
switch_settles_example =
    switch_settles 100000 "g" tables team ((ground (arith, eq_iff "a1" "a2"), tt), (tt, tt)) refl
      refl (omega arith) (inl refl, (inr (λ heard e. ground arith), tt)) refl

-- The group fails, and says which agent died.
switched :
    Option.map {B = GroupStatus × Option String}
      (λ g. (g.status, g.summary))
      (get_task_group "g" (check_dead_agents 100000 tables).0.groups)
    ≡ some (GroupStatus.failed, some "[ok] x: done\n[DEAD] y: timed out")
unfolding check_dead_agents is_dead mark_all distinct is_among check_groups check_group_completion
    complete_found may_complete agents_of find modify summary_part join_lines datetime julian
switched = refl

group_for_ever_example :
    (h : Group) × (get_task_group "g"
        (run_tracker
          ((7000, starts "g" "x" none)
            ∷ (8000, completes "g" "x" none)
            ∷ (9000, checks "g")
            ∷ (100000, switches)
            ∷ [])
          (record { groups = done_team ∷ []; agents = all_done })).groups
      ≡ some h)
    × IsLaterGroup done_team h
unfolding find
group_for_ever_example =
    group_for_ever "g"
      ((7000, starts "g" "x" none)
        ∷ (8000, completes "g" "x" none)
        ∷ (9000, checks "g")
        ∷ (100000, switches)
        ∷ [])
      (record { groups = done_team ∷ []; agents = all_done }) done_team refl
