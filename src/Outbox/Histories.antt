-- ===== src/Outbox/Histories.antt =====
-- Every call on the outbox makes only steps of the state machine, and so does every history of
-- calls (delivery-outbox.js).
use openclaw_scheduler.Base.{
  ℕ, ◌≡◌, refl, String, Bool, true, false, List, [], ◌∷◌, Option, none, some, written, written-bind,
  Bool-cases, inl, inr, arith, leb, keep, filled, is_some, not, ◌&&◌,
}
use openclaw_scheduler.Base.Table.{modify, returning, update_where}
use openclaw_scheduler.Outbox.Row.{
  Delivery, Outbox, delivery_key, get_delivery_row, clipped, is_delivered, is_failed, is_cancelled,
}
use openclaw_scheduler.Outbox.Debt.{completion_of, reconcile, reconcile_row}
use openclaw_scheduler.Outbox.Recover.{cancel_later}
use openclaw_scheduler.Outbox.Finish.{
  Delay, settle, deliver_found, retry_found, fail_found, token_or_empty, is_claimed_with, deliver,
  fail_row, cancel_row, is_open_row, claim_matches, retry_row, delay_of, default_delay,
  cancel_found, stop_group, after_retry, after_cancel,
}
use openclaw_scheduler.Outbox.Bulk.{
  cancel_where, restart_found, distinct_completions, after_restart, reconcile_each,
  is_later_cancelled, restart_row, is_failed_row,
}
use openclaw_scheduler.Outbox.Step.{
  Step, delivers, retries, fails, cancels, restarts, restarts_later, Goes-trans, modify-Goes,
  update_where-Goes,
}
use openclaw_scheduler.Outbox.Calls.{To, idles, reconcile-To, cancel_later-To, cancelled_later}

module _ (j : String) where
  settle-To :
      (id : String) (guard : Delivery → Bool) (f : Delivery → Delivery)
      (follow : Option Delivery → Outbox → Outbox) (retried : Bool) (o : Outbox)
      → ((d : Delivery) → delivery_key (f d) ≡ delivery_key d)
      → ((d : Delivery) → guard d ≡ true → Step d (f d))
      → ((row : Option Delivery) (p : Outbox) → To j p (follow row p))
      → To j o (settle id guard f follow retried o).0
  unfolding settle
  settle-To id guard f follow retried o same steps follows =
      let written : Outbox = record o { rows = modify delivery_key id guard f o.rows } in
      let first = modify-Goes j f same id guard o.rows steps in
      elim (Bool-cases (is_some (returning delivery_key id guard f o.rows))) [
        | inl changed ↦ rw changed (
            Goes-trans j o.rows written.rows _ first
              (follows (get_delivery_row id written.rows) written))
        | inr unchanged ↦ rw unchanged first
      ]

  stop_group-To :
      (error : String) (now : ℕ) (row : Option Delivery) (o : Outbox)
      → To j o (stop_group error now row o)
  unfolding stop_group
  stop_group-To error now row o =
      Goes-trans j o.rows (cancel_later row _ now o).rows _ (cancel_later-To j row _ now o)
        (reconcile-To j (completion_of row) now _)

  after_retry-To :
      (exhausted : Bool) (error : String) (now : ℕ) (row : Option Delivery) (o : Outbox)
      → To j o (after_retry exhausted error now row o)
  unfolding after_retry
  after_retry-To true error now row o = stop_group-To error now row o
  after_retry-To false error now row o = reconcile-To j (completion_of row) now o

  after_cancel-To :
      (reason : String) (now : ℕ) (row : Option Delivery) (o : Outbox)
      → To j o (after_cancel reason now row o)
  unfolding after_cancel
  after_cancel-To reason now row o =
      Goes-trans j o.rows (cancel_later row _ now o).rows _ (cancel_later-To j row _ now o)
        (reconcile-To j (completion_of row) now _)

  pub deliver-To :
      (d : Option Delivery) (id : String) (token : Option String) (now : ℕ) (o : Outbox)
      → To j o (deliver_found d id token now o).0
  unfolding deliver_found
  deliver-To none id token now o = idles j o
  deliver-To (some d) id token now o =
      let k = token_or_empty token in
      let done =
        settle-To id (is_claimed_with k) (deliver now) (λ row p. reconcile_row row now p) false o
          (λ x. refl) (λ x e. delivers k now e)
          (λ row p. reconcile-To j (completion_of row) now p) in
      elim (Bool-cases (is_delivered d.status)) [
        | inl already ↦ rw already (idles j o)
        | inr not_yet ↦ elim (Bool-cases (claim_matches token d)) [
          | inl held ↦ rw (not_yet, held) done
          | inr lost ↦ rw (not_yet, lost) (idles j o)
        ]
      ]

  pub fail-To :
      (d : Option Delivery) (id : String) (token error : Option String) (now : ℕ) (o : Outbox)
      → To j o (fail_found d id token error now o).0
  unfolding fail_found
  fail-To none id token error now o = idles j o
  fail-To (some d) id token error now o =
      let k = token_or_empty token in
      let why = clipped error "Delivery failed" in
      let done =
        settle-To id (is_claimed_with k) (fail_row why now) (stop_group why now) false o (λ x. refl)
          (λ x e. fails k why now e) (stop_group-To why now) in
      elim (Bool-cases (is_failed d.status)) [
        | inl already ↦ rw already (idles j o)
        | inr not_yet ↦ elim (Bool-cases (claim_matches token d)) [
          | inl held ↦ rw (not_yet, held) done
          | inr lost ↦ rw (not_yet, lost) (idles j o)
        ]
      ]

  pub cancel-To :
      (d : Option Delivery) (id : String) (reason : Option String) (now : ℕ) (o : Outbox)
      → To j o (cancel_found d id reason now o).0
  unfolding cancel_found
  cancel-To none id reason now o = idles j o
  cancel-To (some d) id reason now o =
      let why = clipped reason "Delivery cancelled" in
      let done =
        settle-To id is_open_row (cancel_row why now) (after_cancel why now) false o (λ x. refl)
          (λ x e. cancels why now e) (after_cancel-To why now) in
      elim (Bool-cases (is_cancelled d.status)) [
        | inl already ↦ rw already (idles j o)
        | inr not_yet ↦ elim (Bool-cases (is_delivered d.status)) [
          | inl ended ↦ rw (not_yet, ended) (idles j o)
          | inr going ↦ rw (not_yet, going) done
        ]
      ]

  pub retry-To :
      (d : Option Delivery) (id : String) (token error : Option String) (delay : Delay) (now : ℕ)
      (o : Outbox)
      → To j o (written o (retry_found d id token error delay now o))
  unfolding retry_found
  retry-To none id token error delay now o = idles j o
  retry-To (some d) id token error delay now o =
      let k = token_or_empty token in
      let ended = leb d.max_attempts d.attempt_count in
      let why = clipped error "Delivery failed" in
      elim (Bool-cases (claim_matches token d)) [
        | inr lost ↦ rw lost (idles j o)
        | inl held ↦ rw held (
            written-bind (To j o) o (delay_of delay (default_delay d)) _ (idles j o) λ ms _.
              settle-To id (is_claimed_with k) (retry_row ended ms now why)
                (after_retry ended why now) (not ended) o (λ x. refl)
                (λ x e. retries k why ended ms now e) (after_retry-To ended why now))
      ]

  reconcile_each-To : (ds : List Delivery) (now : ℕ) (o : Outbox) → To j o (reconcile_each ds now o)
  unfolding reconcile_each
  reconcile_each-To [] now o = idles j o
  reconcile_each-To (d ∷ ds) now o =
      Goes-trans j o.rows (reconcile (completion_of (some d)) now o).rows _
        (reconcile-To j (completion_of (some d)) now o)
        (reconcile_each-To ds now (reconcile (completion_of (some d)) now o))

  pub cancel_where-To :
      (p : Delivery → Bool) (reason : String) (now : ℕ) (o : Outbox)
      → To j o (cancel_where p reason now o).0
  unfolding cancel_where
  cancel_where-To p reason now o =
      Goes-trans j o.rows (update_where (λ d. p d && is_open_row d) (cancel_row reason now) o.rows)
        _
        (update_where-Goes j (cancel_row reason now) (λ x. refl) (λ d. p d && is_open_row d) o.rows
          (λ x e. cancels reason now (ground arith)))
        (reconcile_each-To
          (distinct_completions [] (keep (λ d. p d && is_some d.completion_label) o.rows)) now
          (record o {
            rows = update_where (λ d. p d && is_open_row d) (cancel_row reason now) o.rows;
          }))

  after_restart-To :
      (before : Delivery) (limit at now : ℕ) (row : Option Delivery) (o : Outbox)
      → To j o (after_restart before limit at now row o)
  unfolding after_restart is_later_cancelled
  after_restart-To before limit at now row o =
      Goes-trans j o.rows
        (update_where (is_later_cancelled before) (restart_row true limit at) o.rows) _
        (update_where-Goes j (restart_row true limit at) (λ x. refl) (is_later_cancelled before)
          o.rows
          (λ x e.
            restarts_later limit at
              (cancelled_later (filled before.delivery_group_id) before.part_index x e)))
        (reconcile-To j _ now _)

  pub restart-To :
      (d : Option Delivery) (id : String) (reset : Bool) (limit at now : ℕ) (o : Outbox)
      → To j o (restart_found d id reset limit at now o).0
  unfolding restart_found
  restart-To none id reset limit at now o = idles j o
  restart-To (some d) id reset limit at now o =
      settle-To id is_failed_row (restart_row reset limit at) (after_restart d limit at now) false o
        (λ x. refl) (λ x e. restarts reset limit at e) (after_restart-To d limit at now)
