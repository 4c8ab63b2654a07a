-- ===== src/Auth/Tests.antt =====
-- Runs of the authentication service, and its theorems at concrete inputs.
use ai_soc.Base.{
  ℕ, ◌≡◌, refl, inl, Bool, true, false, [], ◌∷◌, ◌++◌, none, some, arith, ok, err, ◌==◌,
  Text-equality, text_eq,
}
use ai_soc.Base.Text.{Text, codes}
use ai_soc.Models.{User, AuthSession, ServiceApiKey}
use ai_soc.Auth.Sessions.{get_for_update, family_is_active, create, rotate}
use ai_soc.Auth.Sessions.Live.{live_count}
use ai_soc.Auth.Service.{
  State, Request, Settings, Draw, AccessToken, refresh_token_error, get_user, session_row,
  new_session, refresh, replace_session, change_password, record_audit,
}
use ai_soc.Auth.Service.Refresh.{IsOk, MayRefresh, refresh_exact, replay_closes_family}
use ai_soc.Auth.Service.Single.{IsSingle, Reach, here, next, opened, refreshed, Reach-IsSingle}
use ai_soc.Auth.Access.{unauthorized, get_current_user, require_event_ingest_key, used}
use ai_soc.Auth.Access.Guards.{
  IsAuthenticated, get_current_user_exact, reuse_ends_access, password_change_ends_access,
}
use ai_soc.Auth.ApiKeys as ApiKeys
use ai_soc.Auth.ApiKeys.{ApiKeyCreate, new_key, get, revoke}
use ai_soc.Auth.ApiKeys.Lifecycle.{create-serves_until_revoke}

-- A digest for the runs.
abbrev digest : Text → Text
digest s = codes "#" ++ s

abbrev settings : Settings
settings = record { auth_access_token_minutes = 15; auth_refresh_token_days = 7 }

abbrev request : Request
request = record { source_ip = some (codes "203.0.113.9"); user_agent = codes "curl" }

abbrev alice : User
alice = record {
  id = 1;
  email = codes "alice@example.com";
  full_name = codes "Alice";
  password_hash = codes "#old";
  role_name = "admin";
  is_active = true;
  last_login_at = none;
  credentials_changed_at = 0;
  created_by = none;
  updated_at = 0;
}

abbrev key : ServiceApiKey
key = record {
  id = 4;
  name = codes "sensor";
  prefix = codes "ab12";
  key_hash = codes "#k";
  scopes = "events:write" ∷ [];
  is_active = true;
  expires_at = none;
  created_by = 1;
  last_used_at = none;
  revoked_at = none;
}

abbrev start : State
start = record { users = alice ∷ []; sessions = []; api_keys = key ∷ []; audit = [] }

abbrev first : Draw
first = record { session_id = 10; family_id = 20; secret = codes "s1" }

abbrev second : Draw
second = record { session_id = 11; family_id = 21; secret = codes "s2" }

abbrev opened_state : State
opened_state = (new_session digest settings 1000000 first alice request start).0

abbrev rotated_state : State
rotated_state =
    (refresh digest settings 2000000 second (some (10, codes "s1")) request opened_state).0

abbrev first_row : AuthSession
first_row = session_row digest settings 1000000 first 20 1 request

first_refresh : MayRefresh digest settings 2000000 10 (codes "s1") opened_state first_row alice
unfolding new_session create get_for_update get_user
first_refresh = record {
  found = refl;
  genuine = refl;
  unrevoked = refl;
  unexpired = omega arith;
  owner = refl;
  active = refl;
}

refresh_exact_example :
    IsOk digest settings
      (refresh digest settings 2000000 second (some (10, codes "s1")) request opened_state)
refresh_exact_example =
    (refresh_exact digest settings 2000000 second 10 (codes "s1") request opened_state).1
      (first_row, alice, first_refresh)

replay_closes_family_example :
    let r = refresh digest settings 3000000 second (some (10, codes "s1")) request rotated_state in
    (r.1 ≡ err refresh_token_error)
    × (live_count 20 r.0.sessions ≡ 0)
    × ((t : ℕ) → family_is_active t 20 r.0.sessions ≡ false)
unfolding session_row
replay_closes_family_example =
    replay_closes_family digest settings 2000000 3000000 second second 10 (codes "s1") request
      request opened_state first_row alice first_refresh

abbrev check : Text → Text → Bool
check p h = digest p == h

abbrev hash : ℕ → Text → Text
hash salt p = digest p

two_calls : Reach digest settings check hash start rotated_state
two_calls =
    next (next here (opened 1000000 first alice request (unfold live_count in refl)))
      (refreshed 2000000 second (some (10, codes "s1")) request)

Reach-IsSingle_example : IsSingle rotated_state.sessions
Reach-IsSingle_example = Reach-IsSingle digest settings check hash {st = start} refl two_calls

abbrev bearer : AccessToken
bearer = record { user_id = 1; family_id = 20; issued_at = 2000000; expires_in = 900 }

bearer_known : IsAuthenticated 3000000 bearer rotated_state alice
unfolding new_session refresh replace_session session_row create rotate get_for_update get_user
    family_is_active text_eq record_audit
bearer_known = record { owner = refl; active = refl; family_active = refl; fresh = omega arith }

get_current_user_exact_example : (get_current_user 3000000 (some bearer) rotated_state).1 ≡ ok alice
get_current_user_exact_example =
    (get_current_user_exact 3000000 bearer rotated_state alice).1 bearer_known

abbrev spent_row : AuthSession
spent_row = record first_row {
  revoked_at = some 2000000;
  last_used_at = some 2000000;
  replaced_by_id = some 11;
}

spent_found : get_for_update 10 rotated_state.sessions ≡ some spent_row
unfolding new_session refresh replace_session session_row create rotate get_for_update get_user
    text_eq record_audit
spent_found = refl

reuse_ends_access_example :
    (get_current_user 4000000
      (some bearer)
      (refresh digest settings 3000000 second (some (10, codes "s1")) request rotated_state).0).1
    ≡ err unauthorized
unfolding session_row
reuse_ends_access_example =
    reuse_ends_access digest settings 3000000 second 10 (codes "s1") request rotated_state spent_row
      spent_found refl (λ e. cc) 4000000 bearer refl

password_change_ends_access_example :
    (get_current_user 6000000
      (some bearer)
      (change_password check hash 5000000 0 alice (codes "old") (codes "new") start).0).1
    ≡ err unauthorized
unfolding change_password text_eq get_user
password_change_ends_access_example =
    password_change_ends_access check hash 5000000 0 alice (codes "old") (codes "new") start alice
      refl refl 6000000 bearer refl (omega arith)

abbrev key_payload : ApiKeyCreate
key_payload = record {
  name = codes " sensor ";
  scopes = "events:write" ∷ [];
  expires_at = some 100;
}

create-serves_until_revoke_example :
    let issued = (ApiKeys.create digest 8 (codes "cd34") (codes "x") key_payload alice start).0 in
    ((require_event_ingest_key digest 9 (some (codes "cd34", codes "x")) issued).1
      ≡ ok (used 9 (new_key digest 8 (codes "cd34") (codes "x") key_payload alice)))
    × ((require_event_ingest_key digest 12
          (some (codes "cd34", codes "x"))
          (revoke 11 8 alice issued).0).1
        ≡ err unauthorized)
unfolding ApiKeys.create get text_eq
create-serves_until_revoke_example =
    create-serves_until_revoke digest 8 (codes "cd34") (codes "x") key_payload alice start
      (new_key digest 8 (codes "cd34") (codes "x") key_payload alice) (codes "cd34", codes "x") 9 11
      12 (codes "x") alice refl refl (inl refl)
      (λ t e. let same : 100 ≡ t = cc in omega (arith, same))
