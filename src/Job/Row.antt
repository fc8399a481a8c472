-- ===== src/Job/Row.antt =====
-- The columns of the jobs table that the modelled parts read and write.
use openclaw_scheduler.Base.{ℕ, String, Bool, List, Option, false, none, some}
use openclaw_scheduler.Base.Table.{find}

pub data TriggerOn : Type 0 where
  success failure complete : TriggerOn

pub data ScheduleKind : Type 0 where
  cron at : ScheduleKind

pub record Job : Type 0 where
  pub id : String
  pub enabled : Bool
  pub parent_id : Option String
  pub trigger_on : Option TriggerOn
  pub trigger_condition : Option String
  pub trigger_delay_s : ℕ
  pub max_trigger_fanout : ℕ
  pub max_queued_dispatches : ℕ
  pub queued_count : ℕ
  pub max_retries : ℕ
  pub schedule_kind : ScheduleKind
  pub schedule_cron : Option String
  pub next_run_at : Option ℕ
  pub last_run_at : Option ℕ
  pub last_status : Option String
  pub handoff_version : ℕ
  pub handoff_artifact_digest : Option String
  pub effective_task_hash : Option String
  pub schedule_tz : Option String
  pub approval_timeout_s : Option ℕ
  pub approval_risk_level : Option String
  pub approval_approver_scope : Option String
  pub updated_at : Option ℕ
  -- The columns that no part reads by name, and that only an edit of the job writes, as one text.
  pub contract : String

abbrev pub job_key : Job → String
job_key j = j.id

abbrev pub find_job : String → List Job → Option Job
find_job = find job_key

-- EXISTS (SELECT 1 FROM jobs WHERE id = ? AND enabled = …)
unfoldable pub has_enabled : String → List Job → Bool
has_enabled id jobs = elim (find_job id jobs) [ none ↦ false | some j ↦ j.enabled ]
