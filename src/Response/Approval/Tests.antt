-- ===== src/Response/Approval/Tests.antt =====
-- Runs of the approval of actions, and its theorems at concrete inputs.
use ai_soc.Base.{◌≡◌, refl, ◌⊎◌, true, false, List, [], ◌∷◌, none, some, IsIn, ok, err}
use ai_soc.Base.Text.{Text, codes}
use ai_soc.Models.{User, Incident, AuthSession}
use ai_soc.Auth.Sessions.{is_none}
use ai_soc.Auth.Service.{get_user}
use ai_soc.Repository.Incidents.{get_alerts_for_incident}
use ai_soc.Repository.Events.{get_by_ids}
use ai_soc.Base.Sort.{sort_by}
use ai_soc.Base.Uuid.{parse_uuid, hex_from}
use ai_soc.Response.Approval.{
  ActionType-discrete, ActionStatus-discrete, revoke_app_sessions, succeeded, ResponseAction,
  ResponseActionCreate, own_action, incident_ref, Store, propose, decide, new_action, decided,
  get_action, put_action, get_incident, existing_action, valid_refs, foreign_refs,
}
use ai_soc.Response.Approval.FourEyes.{
  IsFourEyes, Reach, here, proposes, decides, executes, Reach-IsFourEyes,
}
use ai_soc.Response.Approval.Once.{execute_action_once, propose_idempotent}
use ai_soc.Response.Approval.Effects.{MayTouch, execute_action_guarded, execute_action_revokes}
use ai_soc.Response.Approval.Worker.{Boto, AwsSettings, execute_action}

abbrev alice : User
alice = record {
  id = 10;
  email = codes "alice@example.com";
  full_name = codes "Alice";
  password_hash = codes "h";
  role_name = "analyst";
  is_active = true;
  last_login_at = none;
  credentials_changed_at = 0;
  created_by = none;
  updated_at = 0;
}

abbrev session : AuthSession
session = record {
  id = 5;
  family_id = 6;
  user_id = 10;
  token_hash = codes "t";
  expires_at = 1000;
  revoked_at = none;
  replaced_by_id = none;
  source_ip = none;
  user_agent = none;
  last_used_at = none;
}

abbrev incident : Incident
incident = record {
  id = 3;
  status = "open";
  severity = "high";
  risk_score = 70;
  correlation_key = codes "k";
  primary_username = none;
  primary_source_ip = none;
  first_seen = 0;
  last_seen = 0;
  timeline = [];
}

abbrev start : Store
start = record {
  tables = record { events = []; alerts = []; incidents = incident ∷ []; links = [] };
  evidence = [];
  actions = [];
  accounts = record { users = alice ∷ []; sessions = session ∷ []; api_keys = []; audit = [] };
}

abbrev payload : ResponseActionCreate
payload = record {
  action_type = revoke_app_sessions;
  target = codes "00000000-0000-0000-0000-00000000000a";
  account_id = none;
  evidence_refs = incident_ref 3 ∷ [];
  idempotency_key = codes "key-0001";
}

abbrev row : ResponseAction
row = new_action 1 3 payload 20

abbrev waiting : Store
waiting = record start { actions = row ∷ [] }

abbrev approved_row : ResponseAction
approved_row = decided 21 true row

abbrev ready : Store
ready = record start { actions = approved_row ∷ [] }

uuid_run : parse_uuid payload.target ≡ some 10
unfolding parse_uuid hex_from
uuid_run = refl

propose_run : propose 1 3 payload 20 start ≡ (waiting, ok row)
unfolding propose get_incident existing_action valid_refs foreign_refs get_alerts_for_incident
    get_by_ids sort_by ActionType-discrete parse_uuid hex_from get_user
propose_run = refl

-- The proposer may not decide, another user may.
own_decision_run : decide 1 20 true false waiting ≡ (waiting, err own_action)
unfolding decide get_action ActionStatus-discrete
own_decision_run = refl

decide_run : decide 1 21 true false waiting ≡ (ready, ok approved_row)
unfolding decide get_action put_action ActionStatus-discrete ActionType-discrete
decide_run = refl

propose_idempotent_example : propose 2 3 payload 30 waiting ≡ (waiting, ok row)
propose_idempotent_example = propose_idempotent 1 2 3 payload 20 30 start waiting row propose_run

-- A cloud without resources.
abbrev boto : Boto (List Text)
boto = record {
  caller_account = λ w. codes "123456789012";
  list_access_keys = λ w user. [];
  deactivate_access_key = λ w user key. some (key ∷ w);
  is_owned_by = λ w bucket account. true;
  put_public_access_block = λ w bucket. some (bucket ∷ w);
  is_blocked = λ w bucket. true;
}

abbrev settings : AwsSettings
settings = record {
  aws_response_enabled = false;
  aws_allowed_account_ids = codes "123456789012";
  aws_allowed_bucket_prefix = codes "lab-";
}

abbrev run :
    Reach boto settings
      (start, [])
      (execute_action boto 50 settings 1
        (decide 1 21 true false (propose 1 3 payload 20 start).0).0
        [])
run = executes 50 1 (decides 1 21 true (proposes 1 3 payload 20 here))

Reach-IsFourEyes_example :
    IsFourEyes
      (execute_action boto 50 settings 1
        (decide 1 21 true false (propose 1 3 payload 20 start).0).0
        []).0
Reach-IsFourEyes_example = Reach-IsFourEyes boto settings refl run

execute_action_once_example :
    execute_action boto 60 settings 1 (execute_action boto 50 settings 1 ready []).0 []
    ≡ ((execute_action boto 50 settings 1 ready []).0, [])
execute_action_once_example = execute_action_once boto settings 50 60 1 ready [] []

execute_action_guarded_example :
    ((execute_action boto 50 settings 1 ready []).1 ≡ [])
    ⊎ ((a : ResponseAction) × ((get_action 1 ready.actions ≡ some a) × MayTouch boto settings [] a))
execute_action_guarded_example = execute_action_guarded boto settings 50 1 ready []

row_run : get_action 1 ready.actions ≡ some approved_row
unfolding get_action
row_run = refl

alice_run : get_user 10 ready.accounts.users ≡ some alice
unfolding get_user
alice_run = refl

execute_action_revokes_example :
    (get_action 1 (execute_action boto 50 settings 1 ready []).0.actions
      ≡ some (record approved_row { status = succeeded }))
    × (((execute_action boto 50 settings 1 ready []).1 ≡ [])
        × ((s : AuthSession)
            → IsIn s (execute_action boto 50 settings 1 ready []).0.accounts.sessions
            → s.user_id ≡ 10
            → is_none s.revoked_at ≡ false))
execute_action_revokes_example =
    execute_action_revokes boto settings 50 1 10 approved_row alice ready [] row_run refl refl
      uuid_run alice_run
