-- ===== src/Job/Linked.antt =====
-- What detectCycle and getChainDepth of jobs.js are checked for: chains stay finite and short.
use openclaw_scheduler.Base.{
  ℕ, zero, suc, ◌+◌, ◌≡◌, ◌≢◌, min, refl, ◌∙◌, ap, String, Bool, true, false, List, [], ◌∷◌, Option,
  none, some, eq_iff, filled, length, ok, arith,
}
use openclaw_scheduler.Base.Table.{modify, find-modify, find-modify_ne}
use openclaw_scheduler.Job.Row.{Job, job_key, find_job}
use openclaw_scheduler.Job.Chain.{
  next_parent, parent_in, has_id, detect_cycle, climb, get_chain_depth, max_chain_depth,
}
use openclaw_scheduler.Job.Acyclic.{IsChain, detect_cycle_iff}

climb-IsChain :
    (n : ℕ) (jobs : List Job) (current : Option String) (ids : List String)
    → IsChain jobs current ids
    → climb n jobs current ≡ min (length ids) n
unfolding climb
climb-IsChain zero jobs current ids chain = omega arith
climb-IsChain (suc n) jobs none [] chain = omega arith
climb-IsChain (suc n) jobs none (k ∷ ks) chain = absurd chain
climb-IsChain (suc n) jobs (some i) [] chain = absurd chain
climb-IsChain (suc n) jobs (some i) (k ∷ ks) chain =
    omega (arith, climb-IsChain n jobs (next_parent jobs i) ks chain.1)

-- getChainDepth is the number of parents above a job, cut off one above the limit, so that the
-- comparison with the limit is right for chains of any length.
pub chain_depth_min :
    (id : String) (jobs : List Job) (ids : List String)
    → IsChain jobs (next_parent jobs id) ids
    → get_chain_depth id jobs ≡ min (length ids) (max_chain_depth + 1)
unfolding get_chain_depth
chain_depth_min id jobs ids chain =
    climb-IsChain (suc max_chain_depth) jobs (next_parent jobs id) ids chain

abbrev pub set_parent : Option String → Job → Job
set_parent parent j = record j { parent_id = parent }

abbrev pub every_job : Job → Bool
every_job j = true

module _ (child : String) (parent : Option String) (jobs : List Job) where
  -- The jobs once the child's parent is written.
  abbrev pub linked : List Job
  linked = modify job_key child every_job (set_parent parent) jobs

  next-linked : (i : String) → i ≢ child → next_parent linked i ≡ next_parent jobs i
  unfolding next_parent
  next-linked i other =
      ap parent_in
        (find-modify_ne job_key (set_parent parent) (λ j. refl) i child every_job jobs other)

  IsChain-linked :
      (current : Option String) (ids : List String)
      → IsChain jobs current ids
      → has_id child ids ≡ false
      → IsChain linked current ids
  unfolding has_id
  IsChain-linked none [] chain off = tt
  IsChain-linked none (k ∷ ks) chain off = absurd chain
  IsChain-linked (some i) [] chain off = absurd chain
  IsChain-linked (some i) (k ∷ ks) chain off =
      let other : i ≢ child = λ e. ground (arith, eq_iff k child, chain.0) in
      (
        chain.0,
        rw (next-linked i other) (IsChain-linked (next_parent jobs i) ks chain.1 (ground arith)),
      )

-- When the check accepts a parent, writing it leaves the child at the foot of a chain that ends at
-- a root: no loop is made.
pub accepted_parent-IsChain :
    (child : String) (parent : Option String) (jobs : List Job) (j : Job)
    → find_job child jobs ≡ some j
    → detect_cycle child parent jobs ≡ some (ok tt)
    → (ids : List String) × IsChain (linked child parent jobs) (some child) (child ∷ ids)
      × (has_id child ids ≡ false)
unfolding next_parent
accepted_parent-IsChain child parent jobs j found accepted =
    let (ids, chain, off) = (detect_cycle_iff child parent jobs).1.0 accepted in
    let now_is : find_job child (linked child parent jobs) ≡ some (set_parent parent j) =
      find-modify job_key (set_parent parent) (λ x. refl) child every_job jobs ∙ rw found in
    (
      ids,
      (
        refl,
        rw (ap parent_in now_is) (IsChain-linked child parent jobs (filled parent) ids chain off),
      ),
      off,
    )
