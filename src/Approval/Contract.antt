-- ===== src/Approval/Contract.antt =====
-- The contract that is approved and the contract that is started (approval.js, approval-state.js,
-- approval-binding.js).
use openclaw_scheduler.Base.{
  ◌≡◌, sym, ◌∙◌, ap, String, false, List, [], ◌∷◌, ◌++◌, Option, none, some, inl, inr, Option-cases,
  Result, ok, guard, ◌>>=◌, >>=-eq-ok, filled, arith, eq_iff,
}
use openclaw_scheduler.Base.Table.{find-append}
use openclaw_scheduler.Job.Row.{Job, find_job}
use openclaw_scheduler.Dispatch.Row.{Dispatch}
use openclaw_scheduler.Run.Row.{Run}
use openclaw_scheduler.Approval.Row.{
  Approval, approval_key, find_approval, get_approval_for_dispatch,
}
use openclaw_scheduler.Approval.Binding.{
  ApprovalError, Actor, Payload, approval_binding_hash, load_approval_binding_lineage,
  approval_binding_payload,
}
use openclaw_scheduler.Approval.Store.{Store, Env, Outcome, dispatch_named}
use openclaw_scheduler.Approval.Verdict.{run_named}
use openclaw_scheduler.Approval.Begin.{begin_approval_dispatch}
use openclaw_scheduler.Approval.Request.{
  CreateOpts, new_approval, required_job, is_own_dispatch, is_own_run, is_same_dispatch,
  existing_approval,
}
use openclaw_scheduler.Approval.Create.{Created, create_approval, insert_approval, assert_v4}
use openclaw_scheduler.Approval.Rounds.{insert-approvals}
use openclaw_scheduler.Approval.Histories.{ApprovalCall, run_approvals}
use openclaw_scheduler.Approval.Final.{approval_for_ever}
use openclaw_scheduler.Approval.Bound.{begin_requires}

-- What is bound: the job without its running state, its lineage and the dispatch.
abbrev pub contract_of : Job → Option Dispatch → List Job → Result ApprovalError Payload
contract_of j dispatch jobs = do
  lineage ← load_approval_binding_lineage j jobs
  approval_binding_payload j lineage dispatch

hash-contract :
    (digest : Payload → String) (j : Job) (d : Option Dispatch) (jobs : List Job) {h : String}
    → approval_binding_hash digest j d jobs ≡ ok h
    → (p : Payload) × (contract_of j d jobs ≡ ok p) × (digest p ≡ h)
unfolding approval_binding_hash
hash-contract digest j d jobs {h} e =
    let (lineage, loaded, e1) = >>=-eq-ok (load_approval_binding_lineage j jobs) _ e in
    let (p, built, e2) = >>=-eq-ok (approval_binding_payload j lineage d) _ e1 in
    (p, ground arith, ground arith)

filled-some : (o : Option String) {h : String} → filled o ≡ some h → o ≡ some h
filled-some none e = cc
filled-some (some String.[]) e = cc
filled-some (some (String.◌∷◌ c s)) e = e

required-found : (o : Option Job) {j : Job} → required_job o ≡ ok j → o ≡ some j
required-found none e = cc
required-found (some x) {j} e = ground arith

-- A row with a fresh id that is added at the end is found.
added-found :
    (s : Store) (a : Approval)
    → find_approval a.id s.approvals ≡ none
    → find_approval a.id (s.approvals ++ a ∷ []) ≡ some a
added-found s a absent =
    ground (arith, find-append approval_key a.id s.approvals a, eq_iff a.id a.id)

-- The inserted row carries the hash of the present contract.
inserted-bound :
    (env : Env) (fresh : String) (j : Job) (run_id dispatch_id : Option String) (opts : CreateOpts)
    (d : Option Dispatch) (r : Option Run) (s : Store) {t : Store} {c : Created}
    → insert_approval env fresh j run_id dispatch_id opts d r s ≡ ok (t, c)
    → find_approval fresh s.approvals ≡ none
    → (h : String) × (approval_binding_hash env.digest j d s.jobs ≡ ok h)
      × (c.approval.binding_hash ≡ some h)
      × (find_approval fresh t.approvals ≡ some c.approval)
unfolding insert_approval
inserted-bound env fresh j run_id dispatch_id opts d r s {t} {c} e absent =
    let (h, hashed, e1) = >>=-eq-ok (approval_binding_hash env.digest j d s.jobs) _ e in
    let (_, _, e2) = >>=-eq-ok (assert_v4 j d r) _ e1 in
    let a : Approval = new_approval fresh j run_id dispatch_id opts h d r env.now in
    let is_new : a ≡ c.approval = ground arith in
    let rows : t.approvals ≡ s.approvals ++ a ∷ [] =
      ground (arith, insert-approvals run_id dispatch_id opts a s) in
    (
      h,
      hashed,
      sym (ap (λ (x : Approval). x.binding_hash) is_new),
      ap (find_approval fresh) rows ∙ added-found s a absent ∙ ap some is_new,
    )

-- A request that inserts a row stores the hash of the present contract with it.
created-bound :
    (env : Env) (fresh job_id : String) (run dispatch : Option String) (opts : CreateOpts)
    (s : Store) {t : Store} {c : Created}
    → create_approval env fresh job_id run dispatch opts s ≡ ok (t, c)
    → c.deduped ≡ false
    → find_approval fresh s.approvals ≡ none
    → (j : Job) × (h : String) × (find_job job_id s.jobs ≡ some j)
      × (approval_binding_hash env.digest j (dispatch_named (filled dispatch) s) s.jobs ≡ ok h)
      × (c.approval.binding_hash ≡ some h)
      × (find_approval fresh t.approvals ≡ some c.approval)
unfolding create_approval
created-bound env fresh job_id run dispatch opts s {t} {c} e new absent =
    let run_id = filled run in
    let dispatch_id = filled dispatch in
    let d = dispatch_named dispatch_id s in
    let r = run_named run_id s in
    let (j, required, e1) = >>=-eq-ok (required_job (find_job job_id s.jobs)) _ e in
    let (_, _, e2) =
      >>=-eq-ok (guard (is_own_dispatch job_id dispatch_id d) ApprovalError.association_mismatch) _
        e1 in
    let (_, _, e3) =
      >>=-eq-ok (guard (is_own_run job_id run_id r) ApprovalError.association_mismatch) _ e2 in
    let (_, _, e4) =
      >>=-eq-ok (guard (is_same_dispatch dispatch_id r d) ApprovalError.association_mismatch) _
        e3 in
    elim (Option-cases (existing_approval dispatch_id opts.gate_kind s)) [
      | inr (a, there) ↦ absurd (ground arith)
      | inl none_yet ↦
          let (h, hashed, stored, there) =
            inserted-bound env fresh j run_id dispatch_id opts d r s {t = t} {c = c} (ground arith)
              absent in
          (j, h, required-found (find_job job_id s.jobs) required, hashed, stored, there)
    ]

-- Between the request of an approval and the start of a dispatch under it, whatever calls on the
-- approvals were made and however the jobs, the dispatches and the runs were written, short of
-- deleting one that an approval names: the contract of the job, its lineage and the dispatch at the
-- start and those at the request have one and the same sha256 digest.
pub starts_what_was_requested :
    (env env' : Env) (fresh job_id : String) (run dispatch : Option String) (opts : CreateOpts)
    (s s' : Store) (c : Created) (cs : List (Env × ApprovalCall)) (dispatch_id : String)
    (actor : Option Actor) (t : Store) (o : Outcome) (b : Approval)
    → env'.digest ≡ env.digest
    → find_approval fresh s.approvals ≡ none
    → create_approval env fresh job_id run dispatch opts s ≡ ok (s', c)
    → c.deduped ≡ false
    → begin_approval_dispatch env' dispatch_id actor (run_approvals cs s') ≡ ok (t, o)
    → o.reason ≡ none
    → get_approval_for_dispatch false dispatch_id (run_approvals cs s').approvals ≡ some b
    → find_approval fresh (run_approvals cs s').approvals ≡ some b
    → (j : Job) × (j' : Job) × (d : Dispatch) × (p : Payload) × (p' : Payload) × (find_job job_id
          s.jobs
        ≡ some j)
      × (contract_of j (dispatch_named (filled dispatch) s) s.jobs ≡ ok p)
      × (find_job b.job_id (run_approvals cs s').jobs ≡ some j')
      × (contract_of j' (some d) (run_approvals cs s').jobs ≡ ok p')
      × (env.digest p ≡ env.digest p')
starts_what_was_requested env env' fresh job_id run dispatch opts s s' c cs dispatch_id actor t o b
      same absent created new begun clean latest_is named =
    let u : Store = run_approvals cs s' in
    let (j, h, job_is, hashed, stored, there) =
      created-bound env fresh job_id run dispatch opts s created new absent in
    let (b', there', later) = approval_for_ever fresh cs s' c.approval there in
    let (a, d, j', h', at) = begin_requires env' dispatch_id actor u begun clean in
    let (p, is_p, digest_p) = hash-contract env.digest j _ s.jobs hashed in
    let (p', is_p', digest_p') = hash-contract env'.digest j' (some d) u.jobs at.bound in
    let a_is_b : a ≡ b = cc (at.found) in
    let b_is_b' : b ≡ b' = cc in
    let is_h' : a.binding_hash ≡ some h' = filled-some a.binding_hash at.has_hash in
    let kept : b'.binding_hash ≡ c.approval.binding_hash = later.binding_kept in
    let hashes : h ≡ h' = cc in
    (
      j,
      j',
      d,
      p,
      p',
      job_is,
      is_p,
      ap (λ (x : Approval). find_job x.job_id u.jobs) (sym a_is_b) ∙ at.job_there,
      is_p',
      digest_p ∙ hashes ∙ sym digest_p' ∙ ap (λ (f : Payload → String). f p') same,
    )
