-- ===== src/Job/Tests.antt =====
-- Chains of jobs at concrete inputs.
use openclaw_scheduler.Base.{
  ◌+◌, ◌≡◌, min, refl, String, Bool, true, false, List, [], ◌∷◌, Option, none, some, ok, err, ◌≢◌,
  ◌↔◌,
}
use openclaw_scheduler.Base.Table.{find}
use openclaw_scheduler.Job.Row.{Job, ScheduleKind}
use openclaw_scheduler.Job.Chain.{
  next_parent, has_id, walk, detect_cycle, get_chain_depth, max_chain_depth,
}
use openclaw_scheduler.Job.Acyclic.{IsChain, detect_cycle_iff}
use openclaw_scheduler.Job.Linked.{linked, chain_depth_min, accepted_parent-IsChain}

abbrev job : String → Option String → Job
job id parent = record {
  id = id;
  enabled = true;
  parent_id = parent;
  trigger_on = none;
  trigger_condition = none;
  trigger_delay_s = 0;
  max_trigger_fanout = 0;
  max_queued_dispatches = 0;
  queued_count = 0;
  max_retries = 0;
  schedule_kind = ScheduleKind.cron;
  schedule_cron = none;
  next_run_at = none;
  last_run_at = none;
  last_status = none;
  handoff_version = 3;
  handoff_artifact_digest = none;
  effective_task_hash = none;
  schedule_tz = none;
  approval_timeout_s = none;
  approval_risk_level = none;
  approval_approver_scope = none;
  updated_at = none;
  contract = "run";
}

abbrev family : List Job
family = job "a" none ∷ job "b" (some "a") ∷ job "c" (some "b") ∷ job "d" none ∷ []

abbrev is_accepted : String → String → Bool
is_accepted child parent = elim (detect_cycle child (some parent) family) [
  | none ↦ false
  | some r ↦ elim r [ ok _ ↦ true | err _ ↦ false ]
]

-- A job may stand under a stranger's chain, not under its own descendant.
chained : (is_accepted "d" "c" ≡ true) × (is_accepted "a" "c" ≡ false)
unfolding detect_cycle walk has_id next_parent find
chained = (refl, refl)

chain_depth_min_example : get_chain_depth "c" family ≡ min 2 (max_chain_depth + 1)
unfolding next_parent find
chain_depth_min_example = chain_depth_min "c" family ("b" ∷ "a" ∷ []) (refl, (refl, tt))

accepted_parent-IsChain_example :
    (ids : List String) × IsChain (linked "d" (some "c") family) (some "d") ("d" ∷ ids)
    × (has_id "d" ids ≡ false)
unfolding detect_cycle walk has_id next_parent find
accepted_parent-IsChain_example =
    accepted_parent-IsChain "d" (some "c") family (job "d" none) refl refl

detect_cycle_iff_example :
    (detect_cycle "a" (some "c") family ≢ none)
    × ((detect_cycle "a" (some "c") family ≡ some (ok tt))
        ↔ ((ids : List String) × IsChain family (some "c") ids × (has_id "a" ids ≡ false)))
detect_cycle_iff_example = detect_cycle_iff "a" (some "c") family
