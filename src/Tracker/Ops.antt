-- ===== src/Tracker/Ops.antt =====
-- What the agents report: createTaskGroup, agentStarted, registerAgentSession,
-- touchAgentHeartbeat, agentCompleted and agentFailed of task-tracker.js.
use openclaw_scheduler.Base.{
  ℕ, ◌+◌, String, Bool, ◌&&◌, List, [], ◌∷◌, ◌++◌, Option, none, some, str_eq, or_else, filled,
  datetime, Result, ok, err,
}
use openclaw_scheduler.Base.Table.{update_where}
use openclaw_scheduler.Tracker.Row.{Group, GroupStatus, Agent, AgentStatus, Tracker}

pub data TrackerError : Type 0 where
  no_agents : TrackerError

pub record GroupOpts : Type 0 where
  pub name : String
  pub expected_agents : List String
  pub timeout_s : Option ℕ
  pub created_by : Option String
  pub delivery_channel : Option String
  pub delivery_to : Option String

abbrev num_or : Option ℕ → ℕ → ℕ
num_or none n = n
num_or (some m) n = m

abbrev text_or : Option String → String → String
text_or none s = s
text_or (some t) s = t

abbrev pub new_group : String → GroupOpts → ℕ → Group
new_group id opts now = record {
  id = id;
  name = opts.name;
  created_at = datetime now;
  created_by = text_or opts.created_by "main";
  expected_agents = opts.expected_agents;
  timeout_s = num_or opts.timeout_s 600;
  status = GroupStatus.active;
  completed_at = none;
  delivery_channel = filled opts.delivery_channel;
  delivery_to = filled opts.delivery_to;
  summary = none;
}

abbrev new_agent : String → String → String → Agent
new_agent id tracker_id label = record {
  id = id;
  tracker_id = tracker_id;
  agent_label = label;
  status = AgentStatus.pending;
  started_at = none;
  finished_at = none;
  exit_message = none;
  error = none;
  session_key = none;
  last_heartbeat = none;
}

-- One row for each label; `fresh` gives the texts that randomUUID returns, in order.
unfoldable pub new_agents : (ℕ → String) → ℕ → String → List String → List Agent
new_agents fresh n tracker_id [] = []
new_agents fresh n tracker_id (label ∷ labels) =
    new_agent (fresh n) tracker_id label ∷ new_agents fresh (n + 1) tracker_id labels

unfoldable pub create_for :
    List String
    → GroupOpts
    → String
    → (ℕ → String)
    → ℕ
    → Tracker
    → Result TrackerError (Tracker × Group)
unfolding new_agents
create_for [] opts id fresh now t = err no_agents
create_for (label ∷ labels) opts id fresh now t = ok (
  record {
    groups = t.groups ++ new_group id opts now ∷ [];
    agents = t.agents ++ new_agents fresh 0 id (label ∷ labels);
  },
  new_group id opts now,
)

-- `id` is the text that randomUUID returns for the group.
unfoldable pub create_task_group :
    GroupOpts → String → (ℕ → String) → ℕ → Tracker → Result TrackerError (Tracker × Group)
unfolding create_for
create_task_group opts id fresh now t = create_for opts.expected_agents opts id fresh now t

-- WHERE tracker_id = ? AND agent_label = ?
unfoldable pub is_named : String → String → Agent → Bool
is_named tracker_id label a = str_eq a.tracker_id tracker_id && str_eq a.agent_label label

abbrev pub start_agent : Option String → ℕ → Agent → Agent
start_agent session_key now a = record a {
  status = AgentStatus.running;
  started_at = some (datetime now);
  last_heartbeat = some (datetime now);
  session_key = or_else (filled session_key) a.session_key;
}

-- CASE WHEN status = 'pending' THEN 'running' ELSE status END
abbrev pub woken : AgentStatus → AgentStatus
woken AgentStatus.pending = AgentStatus.running
woken s = s

abbrev pub register_session : Option String → ℕ → Agent → Agent
register_session session_key now a = record a {
  session_key = session_key;
  last_heartbeat = some (datetime now);
  status = woken a.status;
  started_at = or_else a.started_at (some (datetime now));
}

abbrev pub touch_heartbeat : ℕ → Agent → Agent
touch_heartbeat now a = record a {
  last_heartbeat = some (datetime now);
  status = woken a.status;
  started_at = or_else a.started_at (some (datetime now));
}

abbrev pub complete_agent : Option String → ℕ → Agent → Agent
complete_agent exit_message now a = record a {
  status = AgentStatus.completed;
  finished_at = some (datetime now);
  exit_message = filled exit_message;
}

abbrev pub fail_agent : Option String → ℕ → Agent → Agent
fail_agent error now a = record a {
  status = AgentStatus.failed;
  finished_at = some (datetime now);
  error = filled error;
}

-- UPDATE task_tracker_agents SET f WHERE tracker_id = ? AND agent_label = ?
abbrev update_agent : String → String → (Agent → Agent) → Tracker → Tracker
update_agent tracker_id label f t = record t {
  agents = update_where (is_named tracker_id label) f t.agents;
}

unfoldable pub agent_started : String → String → Option String → ℕ → Tracker → Tracker
agent_started tracker_id label session_key now t =
    update_agent tracker_id label (start_agent session_key now) t

unfoldable pub register_agent_session : String → String → Option String → ℕ → Tracker → Tracker
register_agent_session tracker_id label session_key now t =
    update_agent tracker_id label (register_session session_key now) t

unfoldable pub touch_agent_heartbeat : String → String → ℕ → Tracker → Tracker
touch_agent_heartbeat tracker_id label now t = update_agent tracker_id label (touch_heartbeat now) t

unfoldable pub agent_completed : String → String → Option String → ℕ → Tracker → Tracker
agent_completed tracker_id label exit_message now t =
    update_agent tracker_id label (complete_agent exit_message now) t

unfoldable pub agent_failed : String → String → Option String → ℕ → Tracker → Tracker
agent_failed tracker_id label error now t = update_agent tracker_id label (fail_agent error now) t
