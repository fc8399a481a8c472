-- ===== src/Approval/Effects.antt =====
-- What a decision does to the run, the dispatch and the job of its approval (approval-state.js).
use openclaw_scheduler.Base.{
  ℕ, String, Bool, true, false, not, ◌&&◌, Option, none, some, ltb, if◌then◌else◌, or_else, filled,
  is_filled, is_blank, datetime, Result, ok, err, ◌>>◌,
}
use openclaw_scheduler.Base.Table.{modify, returning}
use openclaw_scheduler.Job.Row.{Job, ScheduleKind, job_key}
use openclaw_scheduler.Dispatch.Row.{Dispatch, DispatchKind, DispatchStatus, dispatch_key}
use openclaw_scheduler.Run.Row.{Run, RunStatus, run_key}
use openclaw_scheduler.Run.Ops.{elapsed}
use openclaw_scheduler.Approval.Row.{Approval, ApprovalStatus, is_approved, text_or}
use openclaw_scheduler.Approval.Binding.{ApprovalError}
use openclaw_scheduler.Approval.Store.{
  Store, Env, job_of, can_settle, is_awaiting, is_quarantined, quarantine_run_recovery,
  quarantine_reason, persist_terminal_evidence, set_text, set_error, texts,
}

-- `status IN ('awaiting_approval', 'pending')`
abbrev pub is_gated : RunStatus → Bool
is_gated RunStatus.awaiting_approval = true
is_gated RunStatus.pending = true
is_gated _ = false

-- `status IN ('awaiting_approval', 'pending', 'approved')`
abbrev pub is_gated_or_approved : RunStatus → Bool
is_gated_or_approved RunStatus.awaiting_approval = true
is_gated_or_approved RunStatus.pending = true
is_gated_or_approved RunStatus.approved = true
is_gated_or_approved _ = false

abbrev pub approve_run : String → ℕ → Run → Run
approve_run message now r = record r {
  status = RunStatus.approved;
  finished_at = some (datetime now);
  duration_ms = elapsed r.started_at now;
  columns = set_text (texts message) r.columns;
}

abbrev pub cancel_run : String → ℕ → Run → Run
cancel_run message now r = record r {
  status = RunStatus.cancelled;
  finished_at = some (datetime now);
  duration_ms = elapsed r.started_at now;
  terminal_transition_at = or_else r.terminal_transition_at (some (datetime now));
  columns = set_error (texts message) r.columns;
}

abbrev pub skip_run : String → ℕ → Run → Run
skip_run message now r = record r {
  status = RunStatus.skipped;
  finished_at = some (datetime now);
  duration_ms = elapsed r.started_at now;
  terminal_transition_at = or_else r.terminal_transition_at (some (datetime now));
  columns = set_text (texts message) r.columns;
}

abbrev can_approve_run : Run → Bool
can_approve_run r = is_gated r.status

abbrev pub can_cancel_run : Run → Bool
can_cancel_run r = is_gated_or_approved r.status

abbrev pub can_skip_run : Run → Bool
can_skip_run r = elim r.status [ RunStatus.approved ↦ true | _ ↦ false ]

-- A run that the statement changes, `changes === 1`, has its evidence written.
unfoldable pub end_run :
    Env → Option Job → String → (Run → Bool) → (Run → Run) → Store → Result ApprovalError Store
unfolding persist_terminal_evidence
end_run env job run_id guarded f s = do
  persist_terminal_evidence env job (returning run_key run_id guarded f s.runs)
  ok (record s { runs = modify run_key run_id guarded f s.runs })

-- quarantineSynchronousV4TerminalEvidence, or else the body that follows it.
unfoldable pub quarantined_or :
    Option Job
    → String
    → String
    → String
    → ℕ
    → Store
    → Result ApprovalError Store
    → Result ApprovalError Store
unfolding quarantine_run_recovery quarantine_reason
quarantined_or job run_id intended message now s otherwise =
    if is_quarantined job run_id s
    then if is_blank run_id
      then err ApprovalError.bad_run_id
      else ok (quarantine_run_recovery run_id (quarantine_reason intended message) now s)
    else otherwise

-- finishApprovalRun
unfoldable pub finish_approval_run :
    Env → Approval → ApprovalStatus → String → Store → Result ApprovalError Store
unfolding end_run quarantined_or
finish_approval_run env a status message s = elim (filled a.run_id) [
  | none ↦ ok s
  | some run_id ↦
      if is_approved status
      then ok (record s {
        runs = modify run_key run_id can_approve_run (approve_run message env.now) s.runs;
      })
      else quarantined_or (job_of a s) run_id "cancelled" message env.now s
          (end_run env (job_of a s) run_id can_cancel_run (cancel_run message env.now) s)
]

abbrev skipped_or_quarantined :
    Env → Approval → String → String → Store → Result ApprovalError Store
skipped_or_quarantined env a run_id summary s =
    quarantined_or (job_of a s) run_id "skipped" summary env.now s
      (end_run env (job_of a s) run_id can_skip_run (skip_run summary env.now) s)

-- finishDispatchedApprovalRun
unfoldable pub finish_dispatched_approval_run :
    Env → Approval → String → Store → Result ApprovalError Store
unfolding end_run quarantined_or text_or
finish_dispatched_approval_run env a message s = elim (filled a.run_id) [
  | none ↦ ok s
  | some run_id ↦
      skipped_or_quarantined env a run_id
        (text_or (some message) "Approval gate consumed by a separate execution run") s
]

abbrev pub release_row : ℕ → Dispatch → Dispatch
release_row now d = record d {
  status = DispatchStatus.pending;
  scheduled_for = datetime now;
  claimed_at = none;
  processed_at = none;
  claim_owner = none;
  claim_token = none;
  claim_expires_at = none;
  last_error = none;
}

abbrev pub can_release : Dispatch → Bool
can_release d = is_awaiting d.status

abbrev pub cancel_row : String → ℕ → Dispatch → Dispatch
cancel_row reason now d = record d {
  status = DispatchStatus.cancelled;
  processed_at = some (datetime now);
  claim_owner = none;
  claim_token = none;
  claim_expires_at = none;
  last_error = some reason;
}

-- A statement on the dispatch that a nullable column names.
abbrev pub on_dispatch : Option String → (Dispatch → Bool) → (Dispatch → Dispatch) → Store → Store
on_dispatch none guarded f s = s
on_dispatch (some id) guarded f s = record s {
  dispatches = modify dispatch_key id guarded f s.dispatches;
}

-- releaseApprovalDispatch
unfoldable pub release_approval_dispatch : Approval → ℕ → Store → Store
release_approval_dispatch a now =
    on_dispatch (filled a.dispatch_queue_id) can_release (release_row now)

-- cancelApprovalDispatch
unfoldable pub cancel_approval_dispatch : Approval → String → ℕ → Store → Store
cancel_approval_dispatch a reason now =
    on_dispatch (filled a.dispatch_queue_id) can_settle (cancel_row reason now)

-- nextCronOccurrence
abbrev next_cron_occurrence : Env → Job → Option ℕ
next_cron_occurrence env j = elim (filled j.schedule_cron) [
  | none ↦ none
  | some cron ↦ env.next_cron cron (filled j.schedule_tz) env.now
]

abbrev is_later : Option ℕ → ℕ → Bool
is_later none t = false
is_later (some n) t = ltb t n

-- `enabled = 1 AND (next_run_at IS NULL OR next_run_at <= ?)`
abbrev is_current : ℕ → Job → Bool
is_current t j = j.enabled && not (is_later j.next_run_at t)

abbrev is_scheduled : DispatchKind → Bool
is_scheduled DispatchKind.schedule = true
is_scheduled DispatchKind.at = true
is_scheduled _ = false

abbrev is_once : DispatchKind → ScheduleKind → Bool
is_once DispatchKind.at k = true
is_once _ ScheduleKind.at = true
is_once _ ScheduleKind.cron = false

abbrev retire_job : ℕ → Job → Job
retire_job now j = record j {
  enabled = false;
  next_run_at = none;
  last_run_at = some (datetime now);
  last_status = some "cancelled";
  updated_at = some (datetime now);
}

abbrev skip_occurrence : Option ℕ → ℕ → Job → Job
skip_occurrence next now j = record j {
  next_run_at = next;
  last_run_at = some (datetime now);
  last_status = some "cancelled";
  updated_at = some (datetime now);
}

-- Whether the job and the dispatch, as they were read, leave an occurrence to consume.
abbrev consumes : Job → Dispatch → Bool
consumes j d =
    j.enabled
    && not (is_filled j.parent_id)
    && is_scheduled d.dispatch_kind
    && not (is_later j.next_run_at d.scheduled_for)

abbrev after_occurrence : Env → Job → Dispatch → Job → Job
after_occurrence env j d =
    if is_once d.dispatch_kind j.schedule_kind
    then retire_job env.now
    else skip_occurrence (next_cron_occurrence env j) env.now

-- consumeApprovalOccurrence
unfoldable pub consume_approval_occurrence : Env → Option Job → Option Dispatch → Store → Store
consume_approval_occurrence env (some j) (some d) s =
    if consumes j d
    then record s {
      jobs = modify job_key j.id (is_current d.scheduled_for) (after_occurrence env j d) s.jobs;
    }
    else s
consume_approval_occurrence env _ _ s = s
