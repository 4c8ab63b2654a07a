-- ===== src/Auth/Service.antt =====
-- backend/app/services/auth_service.py: sessions are opened, refreshed and closed. A call gets the
-- time and the random values that it draws; every branch commits, so an error returns a state too.
pub mod Refresh
pub mod Single
use ai_soc.Base.{
  ℕ, zero, suc, ◌+◌, ◌*◌, Bool, true, false, not, ◌||◌, String, List, [], ◌∷◌, ◌++◌, Option, none,
  some, map, leb, find, ◌==◌, ℕ-equality, Text-equality, if◌then◌else◌, Result, ok, err,
}
use ai_soc.Base.Text.{Text}
use ai_soc.Models.{User, AuthSession, ServiceApiKey, AuditLog, second, day}
use ai_soc.Auth.Sessions
use ai_soc.Auth.Sessions.{is_none}

pub record State : Type 0 where
  pub users : List User
  pub sessions : List AuthSession
  pub api_keys : List ServiceApiKey
  pub audit : List AuditLog

-- What the service reads of the request.
pub record Request : Type 0 where
  pub source_ip : Option Text
  pub user_agent : Text

pub record Settings : Type 0 where
  pub auth_access_token_minutes : ℕ
  pub auth_refresh_token_days : ℕ

-- The random values of one call: `uuid4` twice and `token_urlsafe`.
pub record Draw : Type 0 where
  pub session_id : ℕ
  pub family_id : ℕ
  pub secret : Text

-- A refresh token is the text `id.secret`. Here it is the pair that `parse_refresh_token` returns,
-- or `none` where that raises.
abbrev pub RefreshToken : Type 0
RefreshToken = Option (ℕ × Text)

-- The claims of an access token that the backend reads back.
pub record AccessToken : Type 0 where
  pub user_id : ℕ
  pub family_id : ℕ
  pub issued_at : ℕ
  pub expires_in : ℕ

pub record AuthenticationResult : Type 0 where
  pub access_token : AccessToken
  pub user : User
  pub refresh_token : ℕ × Text

pub data AuthError : Type 0 where
  refresh_token_error invalid_credentials login_rate_limited user_already_exists : AuthError

-- `UserRepository`
unfoldable pub get_user : ℕ → List User → Option User
get_user id users = find (λ u. u.id == id) users

unfoldable pub put_user : User → List User → List User
put_user u users = map (λ v. if v.id == u.id then u else v) users

-- `AuditService.record`
unfoldable pub record_audit : AuditLog → State → State
record_audit entry st = record st { audit = st.audit ++ entry ∷ [] }

abbrev pub entry_of : String → String → String → Option ℕ → Option Text → AuditLog
entry_of action outcome actor_type actor_id label = record {
  actor_type = actor_type;
  actor_id = actor_id;
  actor_label = label;
  action = action;
  resource_type = none;
  resource_id = none;
  outcome = outcome;
}

abbrev pub user_entry : String → String → User → AuditLog
user_entry action outcome u = entry_of action outcome "user" (some u.id) (some u.email)

abbrev pub anonymous_entry : String → String → AuditLog
anonymous_entry action outcome = entry_of action outcome "anonymous" none none

-- `text[:512] or None`
abbrev take_text : ℕ → Text → Text
take_text zero s = []
take_text (suc n) [] = []
take_text (suc n) (c ∷ s) = c ∷ take_text n s

abbrev or_none : Text → Option Text
or_none [] = none
or_none (c ∷ s) = some (c ∷ s)

abbrev pub agent_of : Request → Option Text
agent_of r = or_none (take_text 512 r.user_agent)

abbrev is_inactive : Option User → Bool
is_inactive none = true
is_inactive (some u) = not u.is_active

abbrev pub failed : State → State × Result AuthError AuthenticationResult
failed st = (st, err refresh_token_error)

-- `create_access_token`
unfoldable pub create_access_token : Settings → ℕ → ℕ → ℕ → AccessToken
create_access_token settings now user family = record {
  user_id = user;
  family_id = family;
  issued_at = now;
  expires_in = settings.auth_access_token_minutes * 60;
}

-- `_audit_refresh_failure`
unfoldable pub audit_refresh_failure : Option User → State → State
unfolding record_audit
audit_refresh_failure none st = record_audit (anonymous_entry "auth.refresh" "failure") st
audit_refresh_failure (some u) st = record_audit (user_entry "auth.refresh" "failure" u) st

module _ (hash_secret : Text → Text) (settings : Settings) where
  -- A session row that holds the hash of the drawn secret.
  unfoldable pub session_row : ℕ → Draw → ℕ → ℕ → Request → AuthSession
  session_row now draw family user req = record {
    id = draw.session_id;
    family_id = family;
    user_id = user;
    token_hash = hash_secret draw.secret;
    expires_at = now + settings.auth_refresh_token_days * day;
    revoked_at = none;
    replaced_by_id = none;
    source_ip = req.source_ip;
    user_agent = agent_of req;
    last_used_at = none;
  }

  -- `_new_session`
  unfoldable pub new_session : ℕ → Draw → User → Request → State → State × AuthenticationResult
  unfolding session_row
  new_session now draw u req st = (
    record st {
      sessions = Sessions.create (session_row now draw draw.family_id u.id req) st.sessions;
    },
    record {
      access_token = create_access_token settings now u.id draw.family_id;
      user = u;
      refresh_token = (draw.session_id, draw.secret);
    },
  )

  -- The end of `refresh`: the presented session is replaced by a new one of its family.
  unfoldable pub replace_session :
      ℕ
      → Draw
      → AuthSession
      → User
      → Request
      → State
      → State × Result AuthError AuthenticationResult
  unfolding session_row record_audit
  replace_session now draw s u req st =
      let row = session_row now draw s.family_id u.id req in
      let rotated = Sessions.rotate now s.id draw.session_id st.sessions in
      (
        record_audit (user_entry "auth.refresh" "success" u)
            (record st { sessions = Sessions.create row rotated }),
        ok (record {
          access_token = create_access_token settings now u.id s.family_id;
          user = u;
          refresh_token = (draw.session_id, draw.secret);
        }),
      )

  abbrev revoke_session_family : ℕ → AuthSession → State → State
  revoke_session_family now s st = record st {
    sessions = Sessions.revoke_family now s.family_id st.sessions;
  }

  abbrev refresh_user :
      ℕ
      → Draw
      → AuthSession
      → Option User
      → Request
      → State
      → State × Result AuthError AuthenticationResult
  refresh_user now draw s none req st =
      failed (audit_refresh_failure none (revoke_session_family now s st))
  refresh_user now draw s (some u) req st =
      if leb s.expires_at now || not u.is_active
      then failed (audit_refresh_failure (some u) (revoke_session_family now s st))
      else replace_session now draw s u req st

  abbrev refresh_session :
      ℕ
      → Draw
      → Option AuthSession
      → Text
      → Request
      → State
      → State × Result AuthError AuthenticationResult
  refresh_session now draw none secret req st = failed (audit_refresh_failure none st)
  refresh_session now draw (some s) secret req st =
      if not (s.token_hash == hash_secret secret)
      then failed (audit_refresh_failure none st)
      else if not (is_none s.revoked_at)
      then failed (
          record_audit (entry_of "auth.refresh_reuse" "failure" "user" (some s.user_id) none)
            (revoke_session_family now s st))
      else refresh_user now draw s (get_user s.user_id st.users) req st

  abbrev refresh_token :
      ℕ → Draw → RefreshToken → Request → State → State × Result AuthError AuthenticationResult
  refresh_token now draw none req st = failed (audit_refresh_failure none st)
  refresh_token now draw (some (id, secret)) req st =
      refresh_session now draw (Sessions.get_for_update id st.sessions) secret req st

  unfoldable pub refresh :
      ℕ → Draw → RefreshToken → Request → State → State × Result AuthError AuthenticationResult
  unfolding audit_refresh_failure record_audit
  refresh now draw token req st = refresh_token now draw token req st

  abbrev logout_session : ℕ → Option AuthSession → Text → State → State
  logout_session now none secret st = record_audit (anonymous_entry "auth.logout" "success") st
  logout_session now (some s) secret st =
      if s.token_hash == hash_secret secret
      then record_audit (entry_of "auth.logout" "success" "user" (some s.user_id) none)
          (revoke_session_family now s st)
      else record_audit (anonymous_entry "auth.logout" "success") st

  abbrev logout_token : ℕ → RefreshToken → State → State
  logout_token now none st = record_audit (anonymous_entry "auth.logout" "success") st
  logout_token now (some (id, secret)) st =
      logout_session now (Sessions.get_for_update id st.sessions) secret st

  unfoldable pub logout : ℕ → RefreshToken → State → State
  unfolding record_audit
  logout now token st = logout_token now token st

-- The password functions of `pwdlib` are parameters; a hash is salted by a drawn value.
module _ (verify_password : Text → Text → Bool) (hash_password : ℕ → Text → Text) where
  unfoldable pub change_password :
      ℕ → ℕ → User → Text → Text → State → State × Result AuthError (Unit {0})
  unfolding record_audit put_user
  change_password now salt u current_password new_password st =
      let changed = record u {
        password_hash = hash_password salt new_password;
        credentials_changed_at = now;
        updated_at = now;
      } in
      if not (verify_password current_password u.password_hash)
      then (
        record_audit (user_entry "auth.password_change" "failure" u) st,
        err invalid_credentials,
      )
      else (
        record_audit (user_entry "auth.password_change" "success" u) (record st {
          users = put_user changed st.users;
          sessions = Sessions.revoke_user now u.id st.sessions;
        }),
        ok tt,
      )
