-- ===== src/Job/Chain.antt =====
-- detectCycle and getChainDepth of jobs.js: the chain of parents above a job.
use openclaw_scheduler.Base.{
  ℕ, zero, suc, ◌+◌, String, Bool, false, ◌||◌, List, [], ◌∷◌, Option, none, some, str_eq,
  if◌then◌else◌, filled, length, Result, ok, err,
}
use openclaw_scheduler.Job.Row.{Job, find_job}

pub data ChainError : Type 0 where
  cycle_detected : ChainError

abbrev pub parent_in : Option Job → Option String
parent_in none = none
parent_in (some j) = filled j.parent_id

-- `job?.parent_id || null` of the job that the id names
unfoldable pub next_parent : List Job → String → Option String
next_parent jobs id = parent_in (find_job id jobs)

-- `visited.has(id)`
unfoldable pub has_id : String → List String → Bool
has_id id [] = false
has_id id (x ∷ xs) = str_eq x id || has_id id xs

-- The loop of detectCycle, with the ids visited and the current one; no result stands for a loop
-- that has run out of fuel.
unfoldable pub walk :
    ℕ → List Job → List String → Option String → Option (Result ChainError (Unit {0}))
unfolding has_id next_parent
walk zero jobs visited current = none
walk (suc n) jobs visited none = some (ok tt)
walk (suc n) jobs visited (some id) =
    let rest = walk n jobs (id ∷ visited) (next_parent jobs id) in
    if has_id id visited then some (err cycle_detected) else rest

-- Each turn but the last two visits another job, so two turns more than there are jobs suffice.
unfoldable pub detect_cycle :
    String → Option String → List Job → Option (Result ChainError (Unit {0}))
detect_cycle child_id parent_id jobs =
    walk (length jobs + 2) jobs (child_id ∷ []) (filled parent_id)

-- MAX_CHAIN_DEPTH
abbrev pub max_chain_depth : ℕ
max_chain_depth = 10

-- The loop of getChainDepth: it breaks at the depth MAX_CHAIN_DEPTH + 1.
unfoldable pub climb : ℕ → List Job → Option String → ℕ
climb zero jobs current = 0
climb (suc n) jobs none = 0
climb (suc n) jobs (some id) = suc (climb n jobs (next_parent jobs id))

-- The parents above the job: 0 at a root.
unfoldable pub get_chain_depth : String → List Job → ℕ
get_chain_depth id jobs = climb (suc max_chain_depth) jobs (next_parent jobs id)
