-- ===== src/Response/Approval/Worker.antt =====
-- backend/app/services/response_actions.py: `execute_action`, which the worker calls, and
-- `_execute_aws_action`. boto3 is an interface: the calls on AWS and what they return;
-- a call that writes may raise.
use ai_soc.Base.{
  ℕ, Bool, true, false, not, ◌&&◌, ◌||◌, String, List, [], ◌∷◌, ◌++◌, map, Option, none, some,
  filter, any, contains, length, nat_eq, ◌==◌, ℕ-equality, Text-equality, if◌then◌else◌,
}
use ai_soc.Base.Text.{Text, codes, strip}
use ai_soc.Base.Ipv4.{split}
use ai_soc.Models.{User, AuditLog}
use ai_soc.Auth.Sessions
use ai_soc.Auth.Service.{get_user}
use ai_soc.Base.Uuid.{parse_uuid}
use ai_soc.Response.Approval.{
  ActionType, revoke_app_sessions, disable_aws_access_key, block_s3_public_access, ActionStatus,
  approved, running, succeeded, failed, ActionStatus-equality, ActionType-equality, ResponseAction,
  ResponseActionError, aws_disabled, not_allowlisted, other_account, malformed_target,
  unsupported_target, key_not_attached, bucket_refused, not_verified, Store, get_action, put_action,
}

-- The calls of boto3 on a state `W` of the cloud.
pub record Boto (W : Type 0) : Type 0 where
  pub caller_account : W → Text
  pub list_access_keys : W → Text → List (Text × Bool)
  pub deactivate_access_key : W → Text → Text → Option W
  pub is_owned_by : W → Text → Text → Bool
  pub put_public_access_block : W → Text → Option W
  pub is_blocked : W → Text → Bool

pub record AwsSettings : Type 0 where
  pub aws_response_enabled : Bool
  pub aws_allowed_account_ids : Text
  pub aws_allowed_bucket_prefix : Text

-- `s.split(":", 1)` into two parts.
abbrev extend : ℕ → Option (Text × Text) → Option (Text × Text)
extend c none = none
extend c (some (s, t)) = some (c ∷ s, t)

unfoldable pub cut : ℕ → Text → Option (Text × Text)
cut sep [] = none
cut sep (c ∷ s) = let rest = cut sep s in if nat_eq c sep then some ([], s) else extend c rest

unfoldable pub starts_with : Text → Text → Bool
starts_with [] s = true
starts_with (c ∷ p) [] = false
starts_with (c ∷ p) (d ∷ s) = nat_eq c d && starts_with p s

abbrev is_empty : Text → Bool
is_empty [] = true
is_empty (c ∷ s) = false

-- The account identifiers of the setting, trimmed, without the empty ones.
unfoldable pub allowed_accounts : AwsSettings → List Text
allowed_accounts settings =
    filter (λ s. not (is_empty s)) (map strip (split b',' settings.aws_allowed_account_ids))

abbrev pub is_allowlisted : AwsSettings → Option Text → Bool
is_allowlisted settings none = false
is_allowlisted settings (some account) = contains (allowed_accounts settings) account

abbrev pub account_of : Option Text → Text
account_of none = []
account_of (some account) = account

module _ {W : Type 0} (boto : Boto W) where
  -- One result of an AWS action: the cloud afterwards, and an error if one was raised.
  abbrev pub verify_key : Text → Text → Option W → W → W × Option ResponseActionError
  verify_key user key none w = (w, some not_verified)
  verify_key user key (some w') w =
      if any (λ k. k.0 == key && not k.1) (boto.list_access_keys w' user)
      then (w', none)
      else (w', some not_verified)

  abbrev pub disable_key : W → Option (Text × Text) → W × Option ResponseActionError
  disable_key w none = (w, some malformed_target)
  disable_key w (some (user, key)) =
      if is_empty user || not (starts_with (codes "AKIA") key) || not (nat_eq (length key) 20)
      then (w, some unsupported_target)
      else if not (any (λ k. k.0 == key) (boto.list_access_keys w user))
      then (w, some key_not_attached)
      else verify_key user key (boto.deactivate_access_key w user key) w

  abbrev pub verify_bucket : Text → Option W → W → W × Option ResponseActionError
  verify_bucket bucket none w = (w, some not_verified)
  verify_bucket bucket (some w') w =
      if boto.is_blocked w' bucket then (w', none) else (w', some not_verified)

  abbrev pub block_bucket : AwsSettings → W → Text → Text → W × Option ResponseActionError
  block_bucket settings w account bucket =
      if is_empty settings.aws_allowed_bucket_prefix
        || not (starts_with settings.aws_allowed_bucket_prefix bucket)
      then (w, some bucket_refused)
      else if not (boto.is_owned_by w bucket account)
      then (w, some bucket_refused)
      else verify_bucket bucket (boto.put_public_access_block w bucket) w

  abbrev pub run_action :
      AwsSettings → W → ActionType → ResponseAction → W × Option ResponseActionError
  run_action settings w revoke_app_sessions a = (w, some unsupported_target)
  run_action settings w disable_aws_access_key a = disable_key w (cut b':' a.target)
  run_action settings w block_s3_public_access a =
      block_bucket settings w (account_of a.account_id) a.target

  -- `_execute_aws_action`
  unfoldable pub execute_aws_action :
      AwsSettings → W → ResponseAction → W × Option ResponseActionError
  execute_aws_action settings w a =
      if not settings.aws_response_enabled
      then (w, some aws_disabled)
      else if not (is_allowlisted settings a.account_id)
      then (w, some not_allowlisted)
      else if not (boto.caller_account w == account_of a.account_id)
      then (w, some other_account)
      else run_action settings w a.action_type a

  abbrev status_text : ActionStatus → String
  status_text succeeded = "succeeded"
  status_text _ = "failed"

  -- The end of `execute_action`: the status and the audit entry.
  abbrev pub finished : ActionStatus → ResponseAction → Store → Store
  finished status a st =
      let entry : AuditLog = record {
        actor_type = "system";
        actor_id = a.approved_by;
        actor_label = some (codes "response_worker");
        action = "response.execute";
        resource_type = some "response_action";
        resource_id = some a.id;
        outcome = status_text status;
      } in
      record st {
        actions = put_action (record a { status = status }) st.actions;
        accounts = record st.accounts { audit = st.accounts.audit ++ entry ∷ [] };
      }

  abbrev pub revoke_for : ℕ → Option User → ResponseAction → Store → Store
  revoke_for now none a st = finished failed a st
  revoke_for now (some u) a st = finished succeeded a (record st {
    accounts = record st.accounts { sessions = Sessions.revoke_user now u.id st.accounts.sessions };
  })

  abbrev pub revoke_sessions : ℕ → Option ℕ → ResponseAction → Store → Store
  revoke_sessions now none a st = finished failed a st
  revoke_sessions now (some id) a st = revoke_for now (get_user id st.accounts.users) a st

  abbrev pub finish_aws : ResponseAction → Store → W × Option ResponseActionError → Store × W
  finish_aws a st (w, none) = (finished succeeded a st, w)
  finish_aws a st (w, some e) = (finished failed a st, w)

  abbrev pub run_claimed : ℕ → AwsSettings → ResponseAction → Store → W → Store × W
  run_claimed now settings a st w =
      if a.action_type == revoke_app_sessions
      then (revoke_sessions now (parse_uuid a.target) a st, w)
      else finish_aws a st (execute_aws_action settings w a)

  abbrev pub claim : ℕ → AwsSettings → Option ResponseAction → Store → W → Store × W
  claim now settings none st w = (st, w)
  claim now settings (some a) st w =
      let a' = record a { status = running } in
      if a.status == approved
      then run_claimed now settings a' (record st { actions = put_action a' st.actions }) w
      else (st, w)

  -- An action that is not approved is left as it is.
  unfoldable pub execute_action : ℕ → AwsSettings → ℕ → Store → W → Store × W
  execute_action now settings id st w = claim now settings (get_action id st.actions) st w
