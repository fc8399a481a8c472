-- ===== src/Run/Fence.antt =====
-- normalizeFence and fenceSql of run-state.js: who may write to a run.
use openclaw_scheduler.Base.{
  ℕ, String, Bool, true, false, not, ◌&&◌, ◌||◌, List, Option, none, some, ◌==◌, if◌then◌else◌,
  is_blank, has_text, or_else, holds_text, holds_num, is_none, trimmed_or, Result, ok, guard, ◌>>◌,
}
use openclaw_scheduler.Lease.{Lease, is_held}
use openclaw_scheduler.Run.Row.{Run}

pub data RunError : Type 0 where
  run_id_required fence_required fence_incomplete bad_pid bad_pgid bad_identity not_terminal :
      RunError

-- Three spellings of each option; a token that is no positive integer is 0 here.
pub record FenceOpts : Type 0 where
  pub owner_id : Option String
  pub dispatcher_owner_camel : Option String
  pub dispatcher_owner : Option String
  pub fencing_token : Option ℕ
  pub dispatcher_token_camel : Option ℕ
  pub dispatcher_token : Option ℕ
  pub lease_name : Option String

pub record Fence : Type 0 where
  pub owner_id : String
  pub fencing_token : ℕ
  pub lease_name : String

abbrev pub default_lease_name : String
default_lease_name = "scheduler-dispatcher"

abbrev pub is_positive : Option ℕ → Bool
is_positive none = false
is_positive (some n) = not (n == 0)

abbrev pub same_bool : Bool → Bool → Bool
same_bool true b = b
same_bool false b = not b

-- The fence of a usable owner and token.
abbrev make_fence : Option String → Option ℕ → String → Option Fence
make_fence (some owner) (some token) name =
    if is_blank owner || token == 0
    then none
    else some (record { owner_id = owner; fencing_token = token; lease_name = name })
make_fence _ _ name = none

unfoldable pub normalize_fence : FenceOpts → Bool → Result RunError (Option Fence)
normalize_fence opts required = do
  let owner = or_else opts.owner_id (or_else opts.dispatcher_owner_camel opts.dispatcher_owner)
  let token = or_else opts.fencing_token (or_else opts.dispatcher_token_camel opts.dispatcher_token)
  guard (not (required && (not (has_text owner) || not (is_positive token)))) fence_required
  guard (same_bool (has_text owner) (is_positive token)) fence_incomplete
  ok (make_fence owner token (trimmed_or opts.lease_name default_lease_name))

-- `dispatcher_owner = ? AND dispatcher_token = ?`
unfoldable pub is_owned_by : Fence → Run → Bool
is_owned_by fence r =
    holds_text r.dispatcher_owner fence.owner_id && holds_num r.dispatcher_token fence.fencing_token

abbrev pub is_unowned : Run → Bool
is_unowned r = is_none r.dispatcher_owner && is_none r.dispatcher_token

-- isFenceLive, and the EXISTS of the fenced statements.
abbrev pub is_fence_live : Fence → ℕ → List Lease → Bool
is_fence_live fence now leases =
    is_held fence.lease_name fence.owner_id fence.fencing_token now leases

-- fenceSql: with no fence only unowned runs are writable.
unfoldable pub fence_sql : Option Fence → Bool → ℕ → List Lease → Run → Bool
fence_sql none live now leases r = is_unowned r
fence_sql (some fence) true now leases r = is_owned_by fence r && is_fence_live fence now leases
fence_sql (some fence) false now leases r = is_owned_by fence r

unfoldable pub assert_run_id : String → Result RunError (Unit {0})
assert_run_id id = guard (not (is_blank id)) run_id_required
