-- ===== src/Response/Executor/Tests.antt =====
-- Runs of the executor, and its theorems at concrete inputs.
use ai_soc.Base.{◌≡◌, refl, true, List, [], ◌∷◌, Option, none, some, ok, err, text_eq}
use ai_soc.Base.Text.{Text, codes}
use ai_soc.Models.{User}
use ai_soc.Auth.Service
use ai_soc.Auth.Service.{AccessToken, get_user}
use ai_soc.Auth.Login.{get_by_email}
use ai_soc.Auth.Access.{unauthorized, get_current_user}
use ai_soc.Response.Actions.{disable_user, ProposedAction}
use ai_soc.Base.Uuid.{parse_uuid, parse_hex, hex_from}
use ai_soc.Response.Executor.{Denylist, find_user, execute, rollback}
use ai_soc.Response.Executor.Rollback.{result, disable_ends_access, rollback_restores}

abbrev mallory : User
mallory = record {
  id = 9;
  email = codes "mallory@example.com";
  full_name = codes "Mallory";
  password_hash = codes "h";
  role_name = "analyst";
  is_active = true;
  last_login_at = none;
  credentials_changed_at = 0;
  created_by = none;
  updated_at = 0;
}

abbrev action : ProposedAction
action = record {
  action_type = disable_user;
  target = codes "mallory@example.com";
  reason = codes "credential compromise";
  evidence_refs = codes "alert:1" ∷ [];
  confidence = 950000;
  ttl_seconds = none;
  parameters = [];
}

abbrev start : Service.State
start = record { users = mallory ∷ []; sessions = []; api_keys = []; audit = [] }

-- A denylist that only holds its keys.
abbrev no_redis : Option (Denylist (List Text))
no_redis = none

found_run : find_user action.target start.users ≡ some mallory
unfolding find_user parse_uuid hex_from get_user get_by_email text_eq
found_run = refl

abbrev token : AccessToken
token = record { user_id = 9; family_id = 1; issued_at = 5; expires_in = 900 }

disable_ends_access_example :
    (get_current_user 80
      (some token)
      (execute no_redis action (codes "worker") 1 50 start []).0.0).1
    ≡ err unauthorized
disable_ends_access_example =
    disable_ends_access no_redis action (codes "worker") 1 50 start [] mallory refl found_run 80
      token refl

rollback_restores_example :
    ((execute no_redis action (codes "worker") 1 50 start []).1
      ≡ ok (result no_redis action (codes "worker") 1 50 start [] mallory refl found_run))
    × (find_user action.target
          (rollback no_redis
            (result no_redis action (codes "worker") 1 50 start [] mallory refl found_run)
            90
            (codes "analyst")
            (execute no_redis action (codes "worker") 1 50 start []).0.0
            []).0.0.users
        ≡ some (record mallory { credentials_changed_at = 50; updated_at = 90 }))
rollback_restores_example =
    rollback_restores no_redis action (codes "worker") 1 50 start [] mallory refl found_run 90
      (codes "analyst") []

-- The spellings of one identifier, and a brace inside of it.
urn_run : parse_uuid (codes "urn:uuid:{00000000-0000-0000-0000-00000000000A}") ≡ some 10
unfolding parse_uuid parse_hex hex_from
urn_run = refl

brace_run : parse_uuid (codes "0000000000000000{000000000000000a") ≡ none
unfolding parse_uuid parse_hex hex_from
brace_run = refl
