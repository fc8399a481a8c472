-- ===== src/Tracker/Row.antt =====
-- The rows of task_tracker and task_tracker_agents.
use openclaw_scheduler.Base.{ℕ, String, Bool, true, false, List, Option}
use openclaw_scheduler.Base.Table.{find}

pub data GroupStatus : Type 0 where
  active completed failed : GroupStatus

pub data AgentStatus : Type 0 where
  pending running completed failed dead : AgentStatus

-- expected_agents holds the JSON text of the labels; it is the labels here.
pub record Group : Type 0 where
  pub id : String
  pub name : String
  pub created_at : ℕ
  pub created_by : String
  pub expected_agents : List String
  pub timeout_s : ℕ
  pub status : GroupStatus
  pub completed_at : Option ℕ
  pub delivery_channel : Option String
  pub delivery_to : Option String
  pub summary : Option String

pub record Agent : Type 0 where
  pub id : String
  pub tracker_id : String
  pub agent_label : String
  pub status : AgentStatus
  pub started_at : Option ℕ
  pub finished_at : Option ℕ
  pub exit_message : Option String
  pub error : Option String
  pub session_key : Option String
  pub last_heartbeat : Option ℕ

pub record Tracker : Type 0 where
  pub groups : List Group
  pub agents : List Agent

abbrev pub group_key : Group → String
group_key g = g.id

abbrev pub agent_key : Agent → String
agent_key a = a.id

-- getTaskGroup
abbrev pub get_task_group : String → List Group → Option Group
get_task_group = find group_key

abbrev pub is_active : GroupStatus → Bool
is_active GroupStatus.active = true
is_active _ = false

-- `['completed', 'failed', 'dead'].includes(a.status)`
abbrev pub is_terminal : AgentStatus → Bool
is_terminal AgentStatus.completed = true
is_terminal AgentStatus.failed = true
is_terminal AgentStatus.dead = true
is_terminal _ = false

-- `a.status IN ('pending', 'running')`
abbrev pub is_unfinished : AgentStatus → Bool
is_unfinished AgentStatus.pending = true
is_unfinished AgentStatus.running = true
is_unfinished _ = false

-- `a.status === 'failed' || a.status === 'dead'`
abbrev pub is_lost : AgentStatus → Bool
is_lost AgentStatus.failed = true
is_lost AgentStatus.dead = true
is_lost _ = false
