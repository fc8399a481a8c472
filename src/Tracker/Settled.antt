-- ===== src/Tracker/Settled.antt =====
-- What holds of a task group over every history of calls (task-tracker.js).
use openclaw_scheduler.Base.{
  ℕ, ◌≡◌, inl, inr, refl, ◌∙◌, ap, sym, String, true, false, List, [], ◌∷◌, map, keep, Option, some,
  Bool-cases, Option-cases, arith, str_eq, eq_iff, written,
}
use openclaw_scheduler.Base.Table.{find, modify, find-modify_ne}
use openclaw_scheduler.Base.Table.Follows.{Follows, refl-Follows, trans-Follows, append-Follows}
use openclaw_scheduler.Tracker.Row.{Group, Agent, Tracker, group_key, get_task_group, is_active}
use openclaw_scheduler.Tracker.Ops.{
  GroupOpts, create_for, new_group, create_task_group, agent_started, register_agent_session,
  touch_agent_heartbeat, agent_completed, agent_failed,
}
use openclaw_scheduler.Tracker.Switch.{
  agents_of, complete_group, may_complete, complete_found, check_group_completion, check_groups,
  check_dead_agents, is_dead, mark_all, distinct, always,
}
use openclaw_scheduler.Tracker.Verdict.{complete_found-accepted}

pub data TrackerCall : Type 0 where
  creates : GroupOpts → String → (ℕ → String) → TrackerCall
  starts registers : String → String → Option String → TrackerCall
  touches : String → String → TrackerCall
  completes fails : String → String → Option String → TrackerCall
  checks : String → TrackerCall
  switches : TrackerCall

unfoldable pub call_tracker : ℕ × TrackerCall → Tracker → Tracker
call_tracker (now, creates opts id fresh) t = written t (create_task_group opts id fresh now t)
call_tracker (now, starts id label session) t = agent_started id label session now t
call_tracker (now, registers id label session) t = register_agent_session id label session now t
call_tracker (now, touches id label) t = touch_agent_heartbeat id label now t
call_tracker (now, completes id label message) t = agent_completed id label message now t
call_tracker (now, fails id label error) t = agent_failed id label error now t
call_tracker (now, checks id) t = record t {
  groups = (check_group_completion id now t.agents t.groups).0;
}
call_tracker (now, switches) t = (check_dead_agents now t).0

unfoldable pub run_tracker : List (ℕ × TrackerCall) → Tracker → Tracker
run_tracker [] t = t
run_tracker (c ∷ cs) t = run_tracker cs (call_tracker c t)

-- A group keeps what it was created with, and once settled also its verdict.
pub record IsLaterGroup (g h : Group) : Type 0 where
  pub name_kept : h.name ≡ g.name
  pub created_kept : h.created_at ≡ g.created_at
  pub timeout_kept : h.timeout_s ≡ g.timeout_s
  pub status_kept : is_active g.status ≡ false → h.status ≡ g.status
  pub completed_kept : is_active g.status ≡ false → h.completed_at ≡ g.completed_at
  pub summary_kept : is_active g.status ≡ false → h.summary ≡ g.summary

stays : (g : Group) → IsLaterGroup g g
stays g = ground arith

composes : (g h k : Group) → IsLaterGroup g h → IsLaterGroup h k → IsLaterGroup g k
composes g h k p q = record {
  name_kept = q.name_kept ∙ p.name_kept;
  created_kept = q.created_kept ∙ p.created_kept;
  timeout_kept = q.timeout_kept ∙ p.timeout_kept;
  status_kept = λ c. q.status_kept (still c) ∙ p.status_kept c;
  completed_kept = λ c. q.completed_kept (still c) ∙ p.completed_kept c;
  summary_kept = λ c. q.summary_kept (still c) ∙ p.summary_kept c;
}
  where
    still : is_active g.status ≡ false → is_active h.status ≡ false
    still c = rw (p.status_kept c) c

completed_later :
    (mine : List Agent) (now : ℕ) (r g : Group)
    → some r ≡ some g
    → is_active g.status ≡ true
    → IsLaterGroup r (complete_group mine now g)
completed_later mine now r g is active = ground arith

abbrev find_in : List Group → String → Option Group
find_in groups k = find group_key k groups

module _ (j : String) where
  abbrev Goes : List Group → List Group → Type 0
  Goes = Follows group_key IsLaterGroup j

  idle : (groups : List Group) → Goes groups groups
  idle groups = refl-Follows group_key IsLaterGroup stays j groups

  -- Only an active group is completed.
  complete-Goes :
      (id : String) (now : ℕ) (mine : List Agent) (groups : List Group)
      → Goes groups (complete_found id (get_task_group id groups) mine now groups).0
  unfolding complete_found may_complete
  complete-Goes id now mine groups r e = elim (Option-cases (get_task_group id groups)) [
    | inl absent ↦ rw absent (idle groups r e)
    | inr (g, found) ↦ elim (Bool-cases (may_complete mine g)) [
      | inr not_yet ↦ rw (found, not_yet) (idle groups r e)
      | inl may ↦
          let (is, there) = complete_found-accepted id now mine groups g found may in
          elim (Bool-cases (str_eq j id)) [
            | inl same ↦
                let j_is : j ≡ id = (eq_iff j id).0 same in
                let r_is : some r ≡ some g = sym e ∙ ap (find_in groups) j_is ∙ found in
                (
                  complete_group mine now g,
                  rw (found, may)
                      (ap (find_in (modify group_key id always (complete_group mine now) groups))
                          j_is
                        ∙ there),
                  completed_later mine now r g r_is (ground arith),
                )
            | inr other ↦ (
              r,
              rw (found, may)
                  (find-modify_ne group_key (complete_group mine now) (λ x. refl) j id always groups
                      (λ same. ground (arith, eq_iff j id))
                    ∙ e),
              stays r,
            )
          ]
    ]
  ]

  check-Goes :
      (id : String) (now : ℕ) (agents : List Agent) (groups : List Group)
      → Goes groups (check_group_completion id now agents groups).0
  unfolding check_group_completion
  check-Goes id now agents groups = complete-Goes id now (agents_of id agents) groups

  checks-Goes :
      (ids : List String) (now : ℕ) (agents : List Agent) (groups : List Group)
      → Goes groups (check_groups now agents ids groups)
  unfolding check_groups
  checks-Goes [] now agents groups = idle groups
  checks-Goes (id ∷ ids) now agents groups =
      trans-Follows group_key IsLaterGroup composes j groups _ _ (check-Goes id now agents groups)
        (checks-Goes ids now agents _)

  create_for-Goes :
      (labels : List String) (opts : GroupOpts) (id : String) (fresh : ℕ → String) (now : ℕ)
      (t : Tracker)
      → Goes t.groups (written t (create_for labels opts id fresh now t)).groups
  unfolding create_for
  create_for-Goes [] opts id fresh now t = idle t.groups
  create_for-Goes (label ∷ labels) opts id fresh now t =
      append-Follows group_key IsLaterGroup stays j t.groups (new_group id opts now)

  create-Goes :
      (opts : GroupOpts) (id : String) (fresh : ℕ → String) (now : ℕ) (t : Tracker)
      → Goes t.groups (written t (create_task_group opts id fresh now t)).groups
  unfolding create_task_group
  create-Goes opts id fresh now t = create_for-Goes opts.expected_agents opts id fresh now t

  call-Goes : (c : ℕ × TrackerCall) (t : Tracker) → Goes t.groups (call_tracker c t).groups
  unfolding call_tracker agent_started register_agent_session touch_agent_heartbeat agent_completed
      agent_failed check_dead_agents
  call-Goes (now, creates opts id fresh) t = create-Goes opts id fresh now t
  call-Goes (now, starts id label session) t = idle t.groups
  call-Goes (now, registers id label session) t = idle t.groups
  call-Goes (now, touches id label) t = idle t.groups
  call-Goes (now, completes id label message) t = idle t.groups
  call-Goes (now, fails id label error) t = idle t.groups
  call-Goes (now, checks id) t = check-Goes id now t.agents t.groups
  call-Goes (now, switches) t =
      let dead = keep (is_dead now t.groups) t.agents in
      checks-Goes (distinct [] (map (λ a. a.tracker_id) dead)) now (mark_all now dead t.agents)
        t.groups

  run-Goes : (cs : List (ℕ × TrackerCall)) (t : Tracker) → Goes t.groups (run_tracker cs t).groups
  unfolding run_tracker
  run-Goes [] t = idle t.groups
  run-Goes (c ∷ cs) t =
      trans-Follows group_key IsLaterGroup composes j t.groups _ _ (call-Goes c t) (run-Goes cs _)

-- Whatever calls follow, a task group is not lost and keeps its name, its creation time and its
-- limit; once it is completed or failed, no late report of an agent and no check changes its
-- status, its completion time or its summary.
pub group_for_ever :
    (id : String) (cs : List (ℕ × TrackerCall)) (t : Tracker) (g : Group)
    → get_task_group id t.groups ≡ some g
    → (h : Group) × (get_task_group id (run_tracker cs t).groups ≡ some h) × IsLaterGroup g h
group_for_ever id cs t g found = run-Goes id cs t g found
