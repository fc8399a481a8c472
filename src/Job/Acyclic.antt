-- ===== src/Job/Acyclic.antt =====
-- detectCycle of jobs.js answers, and accepts exactly the parents that make no loop.
use openclaw_scheduler.Base.{
  ℕ, zero, suc, ◌+◌, ◌≤◌, ◌≡◌, ◌≢◌, ◌↔◌, refl, ◌∙◌, ap, sym, String, true, false, not, List, [],
  ◌∷◌, Option, none, some, str_eq, eq_iff, filled, length, count_of, All, ok, arith, Bool-cases,
  Option-cases, inl, inr,
}
use openclaw_scheduler.Base.Table.{find}
use openclaw_scheduler.Job.Row.{Job, find_job}
use openclaw_scheduler.Job.Chain.{next_parent, parent_in, has_id, walk, detect_cycle}

-- The jobs that are not visited yet.
abbrev unvisited : List String → List Job → ℕ
unvisited visited jobs = count_of (λ j. not (has_id j.id visited)) jobs

unvisited_mono :
    (id : String) (visited : List String) (jobs : List Job)
    → unvisited (id ∷ visited) jobs ≤ unvisited visited jobs
unfolding has_id
unvisited_mono id visited [] = omega arith
unvisited_mono id visited (j ∷ jobs) = ground (arith, unvisited_mono id visited jobs)

unvisited-visit :
    (id : String) (visited : List String) (jobs : List Job) (j : Job)
    → find_job id jobs ≡ some j
    → has_id id visited ≡ false
    → unvisited (id ∷ visited) jobs + 1 ≤ unvisited visited jobs
unfolding has_id find
unvisited-visit id visited [] j found new = cc
unvisited-visit id visited (x ∷ jobs) j found new = elim (Bool-cases (str_eq x.id id)) [
  | inl same ↦
      let x_is : x.id ≡ id = (eq_iff x.id id).0 same in
      let seen : has_id x.id visited ≡ false = rw x_is new in
      let again : str_eq id x.id ≡ true = (eq_iff id x.id).1 (sym x_is) in
      ground (arith, unvisited_mono id visited jobs)
  | inr other ↦ ground (arith, unvisited-visit id visited jobs j, eq_iff x.id id, eq_iff id x.id)
]

unvisited-le : (visited : List String) (jobs : List Job) → unvisited visited jobs ≤ length jobs
unvisited-le visited [] = omega arith
unvisited-le visited (j ∷ jobs) = ground (arith, unvisited-le visited jobs)

walk-none :
    (n : ℕ) (jobs : List Job) (visited : List String)
    → 1 ≤ n
    → walk n jobs visited none ≡ some (ok tt)
unfolding walk
walk-none zero jobs visited h = absurd (omega arith)
walk-none (suc n) jobs visited h = refl

-- With fuel for the jobs not visited, the loop answers.
walk_answers :
    (n : ℕ) (jobs : List Job) (visited : List String) (current : Option String)
    → unvisited visited jobs + 2 ≤ n
    → walk n jobs visited current ≢ none
unfolding walk next_parent
walk_answers zero jobs visited current enough h = omega arith
walk_answers (suc n) jobs visited none enough h = cc
walk_answers (suc n) jobs visited (some id) enough h = elim (Bool-cases (has_id id visited)) [
  | inl seen ↦ ground arith
  | inr new ↦ elim (Option-cases (find_job id jobs)) [
    | inl absent ↦
        let last : next_parent jobs id ≡ none = ap parent_in absent in
        let ends = walk-none n jobs (id ∷ visited) (omega arith) in ground arith
    | inr (j, found) ↦
        walk_answers n jobs (id ∷ visited) (next_parent jobs id)
          (omega (arith, unvisited-visit id visited jobs j found new)) (ground arith)
  ]
]

-- The ids from `current` up to a root, in order.
abbrev pub IsChain : List Job → Option String → List String → Type 0
IsChain jobs none [] = Unit
IsChain jobs none (k ∷ ks) = ⊥
IsChain jobs (some i) [] = ⊥
IsChain jobs (some i) (k ∷ ks) = (i ≡ k) × IsChain jobs (next_parent jobs i) ks

All-unseen :
    (id : String) (visited ids : List String)
    → All (λ i. has_id i (id ∷ visited) ≡ false) ids
    → All (λ i. has_id i visited ≡ false) ids
unfolding has_id
All-unseen id visited [] h = tt
All-unseen id visited (i ∷ ids) h = (ground arith, All-unseen id visited ids h.1)

-- An accepted walk has followed a whole chain, and met nothing that was visited.
walk-IsChain :
    (n : ℕ) (jobs : List Job) (visited : List String) (current : Option String)
    → walk n jobs visited current ≡ some (ok tt)
    → (ids : List String) × IsChain jobs current ids × All (λ i. has_id i visited ≡ false) ids
unfolding walk
walk-IsChain zero jobs visited current h = cc
walk-IsChain (suc n) jobs visited none h = ([], tt, tt)
walk-IsChain (suc n) jobs visited (some id) h = elim (Bool-cases (has_id id visited)) [
  | inl seen ↦ ground arith
  | inr new ↦
      let (ids, chain, apart) =
        walk-IsChain n jobs (id ∷ visited) (next_parent jobs id) (rw new at h) in
      (id ∷ ids, (refl, chain), (new, All-unseen id visited ids apart))
]

-- A chain is determined by where it starts.
chain_length :
    (jobs : List Job) (current : Option String) (a b : List String)
    → IsChain jobs current a
    → IsChain jobs current b
    → length a ≡ length b
chain_length jobs none [] [] p q = refl
chain_length jobs none [] (y ∷ b) p q = absurd q
chain_length jobs none (x ∷ a) b p q = absurd p
chain_length jobs (some i) [] b p q = absurd p
chain_length jobs (some i) (x ∷ a) [] p q = absurd q
chain_length jobs (some i) (x ∷ a) (y ∷ b) p q =
    ap suc (chain_length jobs (next_parent jobs i) a b p.1 q.1)

-- An id on a chain starts a chain that is no longer.
IsChain-from :
    (jobs : List Job) (id : String) (current : Option String) (a : List String)
    → IsChain jobs current a
    → has_id id a ≡ true
    → (b : List String) × IsChain jobs (some id) b × (length b ≤ length a)
unfolding has_id
IsChain-from jobs id none [] p h = cc
IsChain-from jobs id none (x ∷ a) p h = absurd p
IsChain-from jobs id (some i) [] p h = absurd p
IsChain-from jobs id (some i) (x ∷ a) p h = elim (Bool-cases (str_eq x id)) [
  | inl same ↦ let i_is : i ≡ id = p.0 ∙ (eq_iff x id).0 same in (x ∷ a, rw (← i_is) p, omega arith)
  | inr other ↦
      let (b, chain, short) = IsChain-from jobs id (next_parent jobs i) a p.1 (ground arith) in
      (b, chain, omega arith)
]

-- So no id stands on the chain above itself.
chain_apart :
    (jobs : List Job) (id : String) (a : List String)
    → IsChain jobs (next_parent jobs id) a
    → has_id id a ≡ false
chain_apart jobs id a p = elim (Bool-cases (has_id id a)) [
  | inr apart ↦ apart
  | inl on ↦
      let (b, chain, short) = IsChain-from jobs id (next_parent jobs id) a p on in
      let same = chain_length jobs (some id) b (id ∷ a) chain (refl, p) in absurd (omega arith)
]

All-apart :
    (id : String) (visited ids : List String)
    → has_id id ids ≡ false
    → All (λ i. has_id i visited ≡ false) ids
    → All (λ i. has_id i (id ∷ visited) ≡ false) ids
unfolding has_id
All-apart id visited [] off h = tt
All-apart id visited (i ∷ ids) off h =
    (ground (arith, eq_iff i id, eq_iff id i), All-apart id visited ids (ground arith) h.1)

chain-walk :
    (n : ℕ) (jobs : List Job) (visited : List String) (current : Option String) (ids : List String)
    → IsChain jobs current ids
    → All (λ i. has_id i visited ≡ false) ids
    → walk n jobs visited current ≢ none
    → walk n jobs visited current ≡ some (ok tt)
unfolding walk
chain-walk zero jobs visited current ids chain apart answers = absurd (answers refl)
chain-walk (suc n) jobs visited none ids chain apart answers = refl
chain-walk (suc n) jobs visited (some i) [] chain apart answers = absurd chain
chain-walk (suc n) jobs visited (some i) (k ∷ ks) chain apart answers =
    let new : has_id i visited ≡ false = rw (chain.0) apart.0 in
    let on = All-apart i visited ks (chain_apart jobs i ks chain.1) apart.1 in
    rw new (chain-walk n jobs (i ∷ visited) (next_parent jobs i) ks chain.1 on (rw new at answers))

only :
    (child : String) (ids : List String)
    → All (λ i. has_id i (child ∷ []) ≡ false) ids
    → has_id child ids ≡ false
unfolding has_id
only child [] h = refl
only child (i ∷ ids) h = ground (arith, eq_iff i child, eq_iff child i, only child ids)

only_back :
    (child : String) (ids : List String)
    → has_id child ids ≡ false
    → All (λ i. has_id i (child ∷ []) ≡ false) ids
unfolding has_id
only_back child [] h = tt
only_back child (i ∷ ids) h =
    (ground (arith, eq_iff i child, eq_iff child i), only_back child ids (ground arith))

-- detectCycle always answers, and accepts a parent exactly if the chain of parents from it ends at
-- a root without meeting the child: it throws for every parent that would make a loop, and for one
-- above which there is a loop already.
pub detect_cycle_iff :
    (child : String) (parent : Option String) (jobs : List Job)
    → (detect_cycle child parent jobs ≢ none)
      × ((detect_cycle child parent jobs ≡ some (ok tt))
          ↔ ((ids : List String) × IsChain jobs (filled parent) ids × (has_id child ids ≡ false)))
unfolding detect_cycle
detect_cycle_iff child parent jobs =
    let enough = unvisited-le (child ∷ []) jobs in
    let answers =
      walk_answers (length jobs + 2) jobs (child ∷ []) (filled parent) (omega (arith, enough)) in
    (
      answers,
      (
        λ h.
            let (ids, chain, apart) =
              walk-IsChain (length jobs + 2) jobs (child ∷ []) (filled parent) h in
            (ids, chain, only child ids apart),
        λ (ids, chain, off).
            chain-walk (length jobs + 2) jobs (child ∷ []) (filled parent) ids chain
              (only_back child ids off) answers,
      ),
    )
