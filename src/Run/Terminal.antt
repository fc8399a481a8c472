-- ===== src/Run/Terminal.antt =====
-- transitionRunTerminal and getOwnedActiveRuns of run-state.js.
use openclaw_scheduler.Base.{
  ℕ, ◌-◌, String, Bool, true, false, not, ◌&&◌, ◌||◌, List, [], ◌∷◌, Option, none, some, leb,
  if◌then◌else◌, datetime, Result, ok, guard, ◌>>=◌, ◌>>◌, keep,
}
use openclaw_scheduler.Lease.{Lease}
use openclaw_scheduler.Run.Row.{
  Run, RunStatus, FinishColumn, Datum, Cell, value, json, is_active, is_terminal, is_truthy,
  find_run, context_summary, verification_result, shell_timed_out, text, number,
}
use openclaw_scheduler.Run.Fence.{
  RunError, FenceOpts, Fence, not_terminal, normalize_fence, is_owned_by, is_fence_live,
  assert_run_id,
}
use openclaw_scheduler.Run.Ops.{update_run, is_active_run, may_write, with_fence}

-- `fields`: no datum stands for an absent or null field.
pub record Fields : Type 0 where
  pub duration_ms : Option ℕ
  pub field : FinishColumn → Option Datum

-- A value that is not a string is stored as JSON in these two columns.
abbrev stringified : Datum → Cell
stringified (text s) = value (text s)
stringified d = json d

-- `Number(Boolean(value))`
abbrev as_bit : Datum → Cell
as_bit d = value (number (if is_truthy d then 1 else 0))

abbrev pub encode : FinishColumn → Datum → Cell
encode context_summary d = stringified d
encode verification_result d = stringified d
encode shell_timed_out d = as_bit d
encode c d = value d

abbrev pub fill : FinishColumn → Option Datum → Cell → Cell
fill c none old = old
fill c (some d) old = encode c d

abbrev since : Option ℕ → ℕ → ℕ
since none now = 0
since (some start) now = now - start

abbrev pub duration : Option ℕ → Option ℕ → ℕ → ℕ
duration (some ms) started_at now = ms
duration none started_at now = since started_at now

-- A requested cancellation overrides the status that the caller asks for.
abbrev pub final_status : Option ℕ → RunStatus → RunStatus
final_status none status = status
final_status (some _) status = RunStatus.cancelled

abbrev pub finish_row : RunStatus → ℕ → Fields → ℕ → Run → Run
finish_row status duration_ms fields now r = record r {
  status = final_status r.cancel_requested_at status;
  finished_at = some (datetime now);
  duration_ms = some duration_ms;
  terminal_transition_at = some (datetime now);
  columns = λ c. fill c (fields.field c) (r.columns c);
}

pub record Transition : Type 0 where
  pub changed : Bool
  pub run : Option Run
  pub fenced : Bool

-- The run that is still active and that the fence does not hold.
abbrev pub is_fenced_off : Fence → ℕ → List Lease → Run → Bool
is_fenced_off fence now leases r =
    is_active r.status && (not (is_owned_by fence r) || not (is_fence_live fence now leases))

abbrev fenced_by : Option Fence → ℕ → List Lease → Option Run → Bool
fenced_by (some fence) now leases (some r) = is_fenced_off fence now leases r
fenced_by _ now leases _ = false

abbrev report : Option Fence → ℕ → List Lease → Option Run → Option Run → Transition
report fence now leases (some r) standing = record { changed = true; run = some r; fenced = false }
report fence now leases none standing = record {
  changed = false;
  run = standing;
  fenced = fenced_by fence now leases standing;
}

-- The statement, for the run that was read before it.
unfoldable pub terminate :
    String
    → RunStatus
    → Fields
    → Option Fence
    → ℕ
    → List Lease
    → List Run
    → Run
    → List Run × Transition
terminate id status fields fence now leases runs r =
    let finish = finish_row status (duration fields.duration_ms r.started_at now) fields now in
    let (rows, row) = update_run id (may_write fence true now leases) finish runs in
    (rows, report fence now leases row (find_run id rows))

-- `if (!run) return { changed: false, run: null, fenced: false };`
unfoldable pub transition :
    String
    → RunStatus
    → Fields
    → Option Fence
    → ℕ
    → List Lease
    → List Run
    → Option Run
    → List Run × Transition
unfolding terminate
transition id status fields fence now leases runs none =
    (runs, record { changed = false; run = none; fenced = false })
transition id status fields fence now leases runs (some r) =
    terminate id status fields fence now leases runs r

unfoldable pub assert_terminal : RunStatus → Result RunError (Unit {0})
assert_terminal status = guard (is_terminal status) not_terminal

unfoldable pub transition_run_terminal :
    String
    → RunStatus
    → Fields
    → FenceOpts
    → ℕ
    → List Lease
    → List Run
    → Result RunError (List Run × Transition)
transition_run_terminal id status fields opts now leases runs = do
  assert_run_id id
  assert_terminal status
  fence ← normalize_fence opts false
  ok (transition id status fields fence now leases runs (find_run id runs))

-- ORDER BY started_at ASC, in which NULL comes first.
abbrev starts_before : Run → Run → Bool
starts_before a b = elim a.started_at [
  | none ↦ true
  | some s ↦ elim b.started_at [ none ↦ false | some t ↦ leb s t ]
]

insert_run : Run → List Run → List Run
insert_run r [] = r ∷ []
insert_run r (x ∷ xs) =
    let rest = insert_run r xs in if starts_before r x then r ∷ x ∷ xs else x ∷ rest

sort_runs : List Run → List Run
unfolding insert_run
sort_runs [] = []
sort_runs (r ∷ rs) = insert_run r (sort_runs rs)

unfoldable pub get_owned_active_runs : FenceOpts → List Run → Result RunError (List Run)
unfolding sort_runs
get_owned_active_runs opts runs = do
  checked ← normalize_fence opts true
  with_fence checked
      λ fence. ok (sort_runs (keep (λ r. is_owned_by fence r && is_active_run r) runs))
