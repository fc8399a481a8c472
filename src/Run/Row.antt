-- ===== src/Run/Row.antt =====
-- The columns of the runs table that run-state.js and the approvals read and write.
use openclaw_scheduler.Base.{ℕ, String, Bool, true, false, not, List, Option, ◌==◌}
use openclaw_scheduler.Base.Table.{find}

pub data RunStatus : Type 0 where
  pending running awaiting_approval approved : RunStatus
  ok error timeout skipped cancelled crashed recovery_blocked : RunStatus

-- ACTIVE_RUN_STATUSES and TERMINAL_RUN_STATUSES
abbrev pub is_active : RunStatus → Bool
is_active RunStatus.pending = true
is_active RunStatus.running = true
is_active RunStatus.awaiting_approval = true
is_active RunStatus.approved = true
is_active _ = false

abbrev pub is_terminal : RunStatus → Bool
is_terminal RunStatus.ok = true
is_terminal RunStatus.error = true
is_terminal RunStatus.timeout = true
is_terminal RunStatus.skipped = true
is_terminal RunStatus.cancelled = true
is_terminal RunStatus.crashed = true
is_terminal RunStatus.recovery_blocked = true
is_terminal _ = false

-- `status IN ('pending', 'awaiting_approval', 'approved')`
abbrev pub is_waiting : RunStatus → Bool
is_waiting RunStatus.pending = true
is_waiting RunStatus.awaiting_approval = true
is_waiting RunStatus.approved = true
is_waiting _ = false

-- FINISH_FIELD_COLUMNS
pub data FinishColumn : Type 0 where
  summary error_message context_summary : FinishColumn
  shell_exit_code shell_signal shell_timed_out shell_stdout shell_stderr : FinishColumn
  shell_stdout_path shell_stderr_path shell_stdout_bytes shell_stderr_bytes : FinishColumn
  shell_stdout_sha256 shell_stderr_sha256 process_terminated_at output_format : FinishColumn
  structured_output structured_output_valid structured_output_warning : FinishColumn
  structured_output_bytes structured_output_sha256 structured_output_path : FinishColumn
  verification_result : FinishColumn

-- A value that a caller passes for such a column; an object is known by its JSON text.
pub data Datum : Type 0 where
  text : String → Datum
  number : ℕ → Datum
  flag : Bool → Datum
  object : String → Datum

-- `Boolean(value)`
abbrev pub is_truthy : Datum → Bool
is_truthy (text String.[]) = false
is_truthy (text (String.◌∷◌ c s)) = true
is_truthy (number n) = not (n == 0)
is_truthy (flag b) = b
is_truthy (object s) = true

pub data CleanupStatus : Type 0 where
  pending not_required cleaned failed : CleanupStatus

pub record Cleanup : Type 0 where
  pub status : CleanupStatus
  pub attempts : ℕ
  pub operator_action_required : Bool
  pub updated_at : ℕ
  pub error : Option String

-- What a column holds. `json d` is the text JSON.stringify gives for `d`, and `json_set old c` the
-- text that SQLite's json_set makes of the old cell, or of '{}', with the cleanup state in it.
pub data Cell : Type 0 where
  null : Cell
  value : Datum → Cell
  moment : ℕ → Cell
  json : Datum → Cell
  json_set : Cell → Cleanup → Cell

pub record Run : Type 0 where
  pub id : String
  pub job_id : String
  pub status : RunStatus
  pub started_at : Option ℕ
  pub finished_at : Option ℕ
  pub duration_ms : Option ℕ
  pub terminal_transition_at : Option ℕ
  pub dispatcher_owner : Option String
  pub dispatcher_token : Option ℕ
  pub dispatch_started_at : Option ℕ
  pub dispatched_at : Option ℕ
  pub cancel_requested_at : Option ℕ
  pub cancel_requested_by : Option String
  pub cancel_reason : Option String
  pub agent_cancel_requested_at : Option ℕ
  pub process_pid : Option ℕ
  pub process_pgid : Option ℕ
  pub process_identity : Option String
  pub process_started_at : Option ℕ
  pub dispatch_queue_id : Option String
  pub handoff_artifact_digest : Option String
  pub source_run_id : Option String
  pub source_run_handoff_artifact_digest : Option String
  pub idempotency_key : Option String
  pub evidence_required : Bool
  -- The approval id in the JSON text of the column, if it has one.
  pub approval_used : Option String
  pub columns : FinishColumn → Cell

abbrev pub run_key : Run → String
run_key r = r.id

abbrev pub find_run : String → List Run → Option Run
find_run = find run_key

-- The columns that the other updates of run-state.js write one at a time.
abbrev pub set_summary : Cell → (FinishColumn → Cell) → FinishColumn → Cell
set_summary v columns summary = v
set_summary v columns c = columns c

abbrev pub set_context : Cell → (FinishColumn → Cell) → FinishColumn → Cell
set_context v columns context_summary = v
set_context v columns c = columns c

abbrev pub set_terminated : Cell → (FinishColumn → Cell) → FinishColumn → Cell
set_terminated v columns process_terminated_at = v
set_terminated v columns c = columns c

-- COALESCE(old, new) of a cell.
abbrev pub or_cell : Cell → Cell → Cell
or_cell null v = v
or_cell v _ = v
