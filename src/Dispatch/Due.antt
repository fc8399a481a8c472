-- ===== src/Dispatch/Due.antt =====
-- What getDueDispatches of dispatch-queue.js selects.
use mathlib.Core.List.Perm
use mathlib.Core.List.{Perm, perm_middle}
use openclaw_scheduler.Base.{
  ℕ, ◌≤◌, ◌<◌, ◌≡◌, ◌↔◌, ◌⊎◌, inl, inr, refl, Bool, true, false, not, List, [], ◌∷◌, ◌++◌, map, ok,
  All, keep, take, drop, length, length-take-le, arith, take-append-drop, take_or_all, Bool-cases,
  datetime,
}
use openclaw_scheduler.Job.Row.{Job, find_job}
use openclaw_scheduler.Run.Row.{Run}
use openclaw_scheduler.Dispatch.Row.{Dispatch, DispatchStatus}
use openclaw_scheduler.Dispatch.Queue.{
  comes_before, insert_due, sort_due, swept, assert_limit, is_due, get_due_dispatches,
}
use openclaw_scheduler.Dispatch.Sweep.{
  IsJobSet, IsRecovered, IsWithdrawn, recovered, withdrawn, recovered-IsRecovered,
  withdrawn-IsWithdrawn, swept-map, enabled_iff,
}

-- Pending, scheduled for a second that has come, and of a job that is there and enabled.
abbrev pub IsDueAt : ℕ → List Job → Dispatch → Type 0
IsDueAt now jobs d =
    (d.status ≡ DispatchStatus.pending) × (d.scheduled_for ≤ datetime now) × IsJobSet true jobs d

-- Scheduled earlier, or at the same time and not created later.
abbrev pub IsNotAfter : Dispatch → Dispatch → Type 0
IsNotAfter a b =
    (a.scheduled_for < b.scheduled_for)
    ⊎ ((a.scheduled_for ≡ b.scheduled_for) × (a.created_at ≤ b.created_at))

abbrev pub IsOrdered : List Dispatch → Type 0
IsOrdered [] = Unit
IsOrdered (d ∷ ds) = All (IsNotAfter d) ds × IsOrdered ds

-- What a reading of the due rows of the queue `q` leaves as its rows, and what it returns: `rest` is
-- what the limit cuts off, and `others` is not due.
pub record IsReading (limit now : ℕ) (runs : List Run) (jobs : List Job)
    (q rows due : List Dispatch) : Type 0 where
  pub recovers : Dispatch → Dispatch
  pub withdraws : Dispatch → Dispatch
  pub recovers_stale : (d : Dispatch) → IsRecovered now runs d (recovers d)
  pub withdraws_disabled : (d : Dispatch) → IsWithdrawn now jobs d (withdraws d)
  pub rows_are : rows ≡ map (λ d. withdraws (recovers d)) q
  pub rest : List Dispatch
  pub others : List Dispatch
  pub whole : Perm ((due ++ rest) ++ others) rows
  pub ready : All (IsDueAt now jobs) (due ++ rest)
  pub not_ready : All (λ d. ¬ IsDueAt now jobs d) others
  pub ordered : IsOrdered (due ++ rest)
  pub bounded : length due ≤ limit
  pub all_taken : (length due ≡ limit) ⊎ (rest ≡ [])

before_iff : (a b : Dispatch) → (comes_before a b ≡ true) ↔ IsNotAfter a b
unfolding comes_before
before_iff a b = ground arith

due_iff :
    (now : ℕ) (jobs : List Job) (d : Dispatch) → (is_due now jobs d ≡ true) ↔ IsDueAt now jobs d
due_iff now jobs d =
    let on = enabled_iff d.job_id jobs (find_job d.job_id jobs) refl in
    (
      λ h. (ground arith, ground arith, on.0 (ground arith)),
      λ (is, come, job). ground (arith, on.1 job),
    )

before_trans : (a b c : Dispatch) → IsNotAfter a b → IsNotAfter b c → IsNotAfter a c
before_trans a b c h k = ground arith

before_total : (a b : Dispatch) → comes_before a b ≡ false → IsNotAfter b a
unfolding comes_before
before_total a b h = ground arith

All-before :
    (a b : Dispatch) (ds : List Dispatch)
    → IsNotAfter a b
    → All (IsNotAfter b) ds
    → All (IsNotAfter a) ds
All-before a b [] h k = tt
All-before a b (d ∷ ds) h k = (before_trans a b d h k.0, All-before a b ds h k.1)

All-insert :
    (P : Dispatch → Type 0) (d : Dispatch) (ds : List Dispatch)
    → P d
    → All P ds
    → All P (insert_due d ds)
unfolding insert_due
All-insert P d [] h k = (h, tt)
All-insert P d (x ∷ xs) h k = elim (Bool-cases (comes_before d x)) [
  | inl e ↦ rw e (h, k)
  | inr e ↦ rw e (k.0, All-insert P d xs h k.1)
]

insert-IsOrdered : (d : Dispatch) (ds : List Dispatch) → IsOrdered ds → IsOrdered (insert_due d ds)
unfolding insert_due
insert-IsOrdered d [] h = (tt, tt)
insert-IsOrdered d (x ∷ xs) h =
    let first = (before_iff d x).0 in
    elim (Bool-cases (comes_before d x)) [
      | inl e ↦ rw e ((first e, All-before d x xs (first e) h.0), h)
      | inr e ↦
          rw e (All-insert (IsNotAfter x) d xs (before_total d x e) h.0, insert-IsOrdered d xs h.1)
    ]

sort-IsOrdered : (ds : List Dispatch) → IsOrdered (sort_due ds)
unfolding sort_due
sort-IsOrdered [] = tt
sort-IsOrdered (d ∷ ds) = insert-IsOrdered d (sort_due ds) (sort-IsOrdered ds)

insert-perm : (d : Dispatch) (ds : List Dispatch) → Perm (insert_due d ds) (d ∷ ds)
unfolding insert_due
insert-perm d [] = Perm.refl _
insert-perm d (x ∷ xs) = elim (Bool-cases (comes_before d x)) [
  | inl e ↦ rw e (Perm.refl _)
  | inr e ↦ rw e (Perm.trans (Perm.cons x (insert-perm d xs)) (Perm.swap d x xs))
]

sort-perm : (ds : List Dispatch) → Perm (sort_due ds) ds
unfolding sort_due
sort-perm [] = Perm.refl []
sort-perm (d ∷ ds) = Perm.trans (insert-perm d (sort_due ds)) (Perm.cons d (sort-perm ds))

All-sort : (P : Dispatch → Type 0) (ds : List Dispatch) → All P ds → All P (sort_due ds)
unfolding sort_due
All-sort P [] h = tt
All-sort P (d ∷ ds) h = All-insert P d (sort_due ds) h.0 (All-sort P ds h.1)

-- The rows that are kept, then those that are not, are all the rows.
keep-perm :
    (p : Dispatch → Bool) (ds : List Dispatch) → Perm (keep p ds ++ keep (λ d. not (p d)) ds) ds
keep-perm p [] = Perm.refl []
keep-perm p (d ∷ ds) = elim (Bool-cases (p d)) [
  | inl e ↦ rw e (Perm.cons d (keep-perm p ds))
  | inr e ↦ rw e (
      Perm.trans (perm_middle (keep p ds) (keep (λ x. not (p x)) ds))
        (Perm.cons d (keep-perm p ds)))
]

module _ (now : ℕ) (jobs : List Job) where
  kept-ready : (ds : List Dispatch) → All (IsDueAt now jobs) (keep (is_due now jobs) ds)
  kept-ready [] = tt
  kept-ready (d ∷ ds) = elim (Bool-cases (is_due now jobs d)) [
    | inl e ↦ rw e ((due_iff now jobs d).0 e, kept-ready ds)
    | inr e ↦ rw e (kept-ready ds)
  ]

  left-not_ready :
      (ds : List Dispatch)
      → All (λ d. ¬ IsDueAt now jobs d) (keep (λ d. not (is_due now jobs d)) ds)
  left-not_ready [] = tt
  left-not_ready (d ∷ ds) = elim (Bool-cases (is_due now jobs d)) [
    | inl e ↦ rw e (left-not_ready ds)
    | inr e ↦ rw e (λ h. ground (arith, (due_iff now jobs d).1 h), left-not_ready ds)
  ]

-- Reading the due dispatches with a positive limit always returns. It first takes back each stale
-- claim (expired, with no active run that was started for it) and then cancels each pending row of
-- a disabled job, with the columns as they are spelled out, and changes no other row. What it then
-- returns is due: pending, scheduled for a second that has come, and of a job that is enabled. With
-- the rows that the limit cuts off it is ordered by the scheduled time and then by the creation,
-- and no row that is due is left out of the two; at most `limit` rows are returned, and fewer only
-- if none is cut off.
pub due_selection :
    (limit now : ℕ) (runs : List Run) (jobs : List Job) (q : List Dispatch)
    → 0 < limit
    → (rows due : List Dispatch) × (get_due_dispatches limit now runs jobs q ≡ ok (rows, due))
      × IsReading limit now runs jobs q rows due
unfolding get_due_dispatches assert_limit
due_selection limit now runs jobs q positive =
    let rows : List Dispatch = swept now runs jobs q in
    let ready : List Dispatch = keep (is_due now jobs) rows in
    let sorted : List Dispatch = sort_due ready in
    let others : List Dispatch = keep (λ d. not (is_due now jobs d)) rows in
    let whole : take limit sorted ++ drop limit sorted ≡ sorted = take-append-drop limit sorted in
    (
      rows,
      take limit sorted,
      ground arith,
      record {
        recovers = recovered now runs jobs;
        withdraws = withdrawn now runs jobs;
        recovers_stale = recovered-IsRecovered now runs jobs;
        withdraws_disabled = withdrawn-IsWithdrawn now runs jobs;
        rows_are = swept-map now runs jobs q;
        rest = drop limit sorted;
        others = others;
        whole = rw whole (
            Perm.trans (Perm.append_right others (sort-perm ready))
              (keep-perm (is_due now jobs) rows));
        ready = rw whole (All-sort (IsDueAt now jobs) ready (kept-ready now jobs rows));
        not_ready = left-not_ready now jobs rows;
        ordered = rw whole (sort-IsOrdered ready);
        bounded = length-take-le limit sorted;
        all_taken = take_or_all limit sorted;
      },
    )
