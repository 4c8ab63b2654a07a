-- ===== src/Response/Executor.antt =====
-- backend/app/response/executor.py: in-app actions with their captured state, and their rollback. The
-- denylist in Redis is an interface; the executor may have none.
pub mod Rollback
mod Tests
use ai_soc.Base.{
  ℕ, zero, suc, Bool, true, false, not, String, List, [], ◌∷◌, ◌++◌, Option, none, some, ◌==◌,
  Text-equality, if◌then◌else◌, Result, ok, err,
}
use ai_soc.Base.Text.{Text, codes, strip}
use ai_soc.Models.{User, AuditLog}
use ai_soc.Auth.Sessions
use ai_soc.Auth.Service
use ai_soc.Auth.Service.{get_user, put_user, record_audit}
use ai_soc.Auth.Login.{get_by_email}
use ai_soc.Response.Actions.{
  ActionType, notify, enrich_threat_intel, snapshot_evidence, block_ip, revoke_sessions,
  disable_user, remove_role, isolate_host, ProposedAction,
}
use ai_soc.Base.Uuid.{parse_uuid}

-- The keys of the denylist: `set` with a time to live, and `delete`.
pub record Denylist (R : Type 0) : Type 0 where
  pub set : R → Text → ℕ → R
  pub delete : R → Text → R

-- The dictionaries of the states before and after.
pub data Captured : Type 0 where
  credentials : ℕ → Text → ℕ → Captured
  activity : ℕ → Text → Bool → Captured
  block : Bool → Text → Captured
  sessions_revoked : ℕ → Captured
  deactivated : Captured
  blocked_for : ℕ → Captured

pub data ExecutionStatus : Type 0 where
  executed reverted : ExecutionStatus

pub record ExecutionResult : Type 0 where
  pub action_id : ℕ
  pub action_type : ActionType
  pub target : Text
  pub status : ExecutionStatus
  pub pre_state : Captured
  pub post_state : Captured
  pub undo_available : Bool
  pub executed_at : ℕ

pub data ExecutionError : Type 0 where
  unsupported_action target_not_found no_rollback not_revocable missing_key : ExecutionError

-- `_find_user`: by identifier, else by the address of mail.
abbrev pub or_user : Option User → Option User → Option User
or_user none o = o
or_user (some u) o = some u

abbrev pub by_id : Option ℕ → List User → Option User
by_id none users = none
by_id (some id) users = get_user id users

unfoldable pub find_user : Text → List User → Option User
find_user target users = or_user (by_id (parse_uuid target) users) (get_by_email target users)

abbrev action_text : ActionType → String
action_text notify = "autonomous_response.notify"
action_text enrich_threat_intel = "autonomous_response.enrich_threat_intel"
action_text snapshot_evidence = "autonomous_response.snapshot_evidence"
action_text block_ip = "autonomous_response.block_ip"
action_text revoke_sessions = "autonomous_response.revoke_sessions"
action_text disable_user = "autonomous_response.disable_user"
action_text remove_role = "autonomous_response.remove_role"
action_text isolate_host = "autonomous_response.isolate_host"

abbrev rollback_text : ActionType → String
rollback_text notify = "autonomous_response.rollback.notify"
rollback_text enrich_threat_intel = "autonomous_response.rollback.enrich_threat_intel"
rollback_text snapshot_evidence = "autonomous_response.rollback.snapshot_evidence"
rollback_text block_ip = "autonomous_response.rollback.block_ip"
rollback_text revoke_sessions = "autonomous_response.rollback.revoke_sessions"
rollback_text disable_user = "autonomous_response.rollback.disable_user"
rollback_text remove_role = "autonomous_response.rollback.remove_role"
rollback_text isolate_host = "autonomous_response.rollback.isolate_host"

-- `_record_audit`
abbrev pub audit_entry : String → String → Text → ℕ → AuditLog
audit_entry action outcome label id = record {
  actor_type = "system";
  actor_id = none;
  actor_label = some label;
  action = action;
  resource_type = some "response_action";
  resource_id = some id;
  outcome = outcome;
}

abbrev pub ttl_or_day : Option ℕ → ℕ
ttl_or_day none = 86400
ttl_or_day (some zero) = 86400
ttl_or_day (some (suc n)) = suc n

abbrev deny_key : Text → Text
deny_key ip = codes "ai_soc:denylist:ip:" ++ ip

-- A disabled user: the state after the writes of `_execute_disable_user`. A flush that changes a row
-- of a user writes its `updated_at`, of models/auth.py.
abbrev pub disabled : ℕ → User → User
disabled now u = record u { is_active = false; credentials_changed_at = now; updated_at = now }

-- The flush of `user.is_active = …` in `rollback`, from the old value to the new one: a value that
-- stays is not written, and then `updated_at` is not either.
abbrev pub set_active : ℕ → Bool → Bool → User → User
set_active now true true u = u
set_active now false false u = u
set_active now _ active u = record u { is_active = active; updated_at = now }

module _ {R : Type 0} (redis : Option (Denylist R)) where
  abbrev Outcome : Type 0
  Outcome = (Service.State × R) × Result ExecutionError ExecutionResult

  abbrev pub outcome_of :
      ProposedAction → ℕ → ℕ → Captured → Captured → Bool → Text → ExecutionResult
  outcome_of a id now pre post undo target = record {
    action_id = id;
    action_type = a.action_type;
    target = target;
    status = executed;
    pre_state = pre;
    post_state = post;
    undo_available = undo;
    executed_at = now;
  }

  abbrev pub revoke_for : ProposedAction → ℕ → ℕ → Option User → Service.State → R → Outcome
  revoke_for a id now none st r = ((st, r), err target_not_found)
  revoke_for a id now (some u) st r = (
    (
      record st {
        users = put_user (record u { credentials_changed_at = now; updated_at = now }) st.users;
        sessions = Sessions.revoke_user now u.id st.sessions;
      },
      r,
    ),
    ok (
        outcome_of a id now (credentials u.id u.email u.credentials_changed_at)
          (sessions_revoked now) false a.target),
  )

  abbrev pub disable_for : ProposedAction → ℕ → ℕ → Option User → Service.State → R → Outcome
  disable_for a id now none st r = ((st, r), err target_not_found)
  disable_for a id now (some u) st r = (
    (
      record st {
        users = put_user (disabled now u) st.users;
        sessions = Sessions.revoke_user now u.id st.sessions;
      },
      r,
    ),
    ok (outcome_of a id now (activity u.id u.email u.is_active) deactivated true a.target),
  )

  abbrev deny : Option (Denylist R) → Text → ℕ → R → R
  deny none ip ttl r = r
  deny (some d) ip ttl r = d.set r (deny_key ip) ttl

  abbrev allow : Option (Denylist R) → Text → R → R
  allow none ip r = r
  allow (some d) ip r = d.delete r (deny_key ip)

  abbrev pub block_for : ProposedAction → ℕ → ℕ → Service.State → R → Outcome
  block_for a id now st r =
      let ip = strip a.target in
      let ttl = ttl_or_day a.ttl_seconds in
      (
        (st, deny redis ip ttl r),
        ok (outcome_of a id now (block false ip) (blocked_for ttl) true ip),
      )

  abbrev pub dispatch : ProposedAction → ActionType → ℕ → ℕ → Service.State → R → Outcome
  dispatch a revoke_sessions id now st r = revoke_for a id now (find_user a.target st.users) st r
  dispatch a disable_user id now st r = disable_for a id now (find_user a.target st.users) st r
  dispatch a block_ip id now st r = block_for a id now st r
  dispatch a _ id now st r = ((st, r), err unsupported_action)

  -- Either outcome is audited.
  abbrev pub audited : ProposedAction → Text → ℕ → Outcome → Outcome
  audited a label id ((st, r), ok x) =
      ((record_audit (audit_entry (action_text a.action_type) "succeeded" label id) st, r), ok x)
  audited a label id ((st, r), err e) =
      ((record_audit (audit_entry (action_text a.action_type) "failed" label id) st, r), err e)

  unfoldable pub execute : ProposedAction → Text → ℕ → ℕ → Service.State → R → Outcome
  execute a label id now st r = audited a label id (dispatch a a.action_type id now st r)

  abbrev pub undone : ExecutionResult → ℕ → Text → Service.State → R → Outcome
  undone x now label st r = (
    (record_audit (audit_entry (rollback_text x.action_type) "reverted" label x.action_id) st, r),
    ok (record x {
      status = reverted;
      pre_state = x.post_state;
      post_state = x.pre_state;
      undo_available = false;
      executed_at = now;
    }),
  )

  abbrev pub enable_for :
      ExecutionResult → ℕ → Text → Captured → Option User → Service.State → R → Outcome
  enable_for x now label pre none st r = ((st, r), err target_not_found)
  enable_for x now label (activity id email active) (some u) st r =
      undone x now label
        (record st { users = put_user (set_active now u.is_active active u) st.users }) r
  enable_for x now label _ (some u) st r = ((st, r), err missing_key)

  abbrev pub undo : ExecutionResult → ActionType → ℕ → Text → Service.State → R → Outcome
  undo x disable_user now label st r =
      enable_for x now label x.pre_state (find_user x.target st.users) st r
  undo x block_ip now label st r = undone x now label st (allow redis x.target r)
  undo x revoke_sessions now label st r = ((st, r), err not_revocable)
  undo x _ now label st r = undone x now label st r

  unfoldable pub rollback : ExecutionResult → ℕ → Text → Service.State → R → Outcome
  rollback x now label st r =
      if not x.undo_available
      then ((st, r), err no_rollback)
      else undo x x.action_type now label st r
