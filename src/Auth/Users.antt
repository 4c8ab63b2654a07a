-- ===== src/Auth/Users.antt =====
-- backend/app/services/user_service.py: users are created and changed by an administrator.
pub mod LastAdmin
pub mod Bootstrap
use ai_soc.Base.{
  ℕ, Bool, true, false, not, ◌||◌, ◌&&◌, String, List, [], ◌∷◌, ◌++◌, Option, none, some, leb, ◌==◌,
  ℕ-equality, String-equality, Text-equality, if◌then◌else◌, Result, ok, err,
}
use ai_soc.Base.Text.{Text, strip}
use ai_soc.Base.Sort.{count_if}
use ai_soc.Models.{User, AuditLog}
use ai_soc.Auth.Sessions
use ai_soc.Auth.Service.{State, get_user, put_user, record_audit}
use ai_soc.Auth.Login.{normalize_email, get_by_email}

pub record UserCreate : Type 0 where
  pub email : Text
  pub full_name : Text
  pub password : Text
  pub role_name : String

pub record UserUpdate : Type 0 where
  pub full_name : Option Text
  pub role_name : Option String
  pub is_active : Option Bool

pub data UserError : Type 0 where
  user_conflict last_admin : UserError

abbrev pub is_active_admin : User → Bool
is_active_admin u = u.role_name == "admin" && u.is_active

-- `UserRepository.active_admin_count`
unfoldable pub active_admin_count : List User → ℕ
active_admin_count users = count_if is_active_admin users

abbrev pub actor_entry : String → User → User → AuditLog
actor_entry action actor u = record {
  actor_type = "user";
  actor_id = some actor.id;
  actor_label = some actor.email;
  action = action;
  resource_type = some "user";
  resource_id = some u.id;
  outcome = "success";
}

abbrev add_user : User → User → State → Option User → State × Result UserError User
add_user actor u st (some other) = (st, err user_conflict)
add_user actor u st none = (
  record_audit (actor_entry "user.create" actor u) (record st { users = st.users ++ u ∷ [] }),
  ok u,
)

unfoldable pub create :
    (ℕ → Text → Text) → ℕ → ℕ → ℕ → UserCreate → User → State → State × Result UserError User
create hash_password now fresh salt payload actor st =
    add_user actor
      (record {
        id = fresh;
        email = normalize_email payload.email;
        full_name = strip payload.full_name;
        password_hash = hash_password salt payload.password;
        role_name = payload.role_name;
        is_active = true;
        last_login_at = none;
        credentials_changed_at = now;
        created_by = some actor.id;
        updated_at = now;
      })
      st (get_by_email (normalize_email payload.email) st.users)

abbrev pub other_role : Option String → Bool
other_role none = false
other_role (some role) = not (role == "admin")

abbrev pub deactivates : Option Bool → Bool
deactivates (some false) = true
deactivates _ = false

abbrev pub removes_admin : User → UserUpdate → Bool
removes_admin u payload =
    u.role_name == "admin" && (other_role payload.role_name || deactivates payload.is_active)

abbrev pub or_kept {ℓ} : {A : Type ℓ} → Option A → A → A
or_kept none a = a
or_kept (some b) a = b

abbrev stripped : Option Text → Option Text
stripped none = none
stripped (some s) = some (strip s)

abbrev is_some : Option String → Bool
is_some none = false
is_some (some s) = true

abbrev pub updated : ℕ → UserUpdate → User → User
updated now payload u = record u {
  full_name = or_kept (stripped payload.full_name) u.full_name;
  role_name = or_kept payload.role_name u.role_name;
  is_active = or_kept payload.is_active u.is_active;
  updated_at = now;
}

-- A change of the role or a deactivation closes the sessions.
abbrev pub write_user :
    ℕ → UserUpdate → User → User → State → State × Result UserError (Option User)
write_user now payload actor u st =
    let u' = updated now payload u in
    let sessions =
      if deactivates payload.is_active || is_some payload.role_name
      then Sessions.revoke_user now u.id st.sessions
      else st.sessions in
    (
      record_audit (actor_entry "user.update" actor u')
          (record st { users = put_user u' st.users; sessions = sessions }),
      ok (some u'),
    )

abbrev pub update_found :
    ℕ → UserUpdate → User → State → Option User → State × Result UserError (Option User)
update_found now payload actor st none = (st, ok none)
update_found now payload actor st (some u) =
    if removes_admin u payload && leb (active_admin_count st.users) 1
    then (st, err last_admin)
    else write_user now payload actor u st

unfoldable pub update : ℕ → ℕ → UserUpdate → User → State → State × Result UserError (Option User)
update now id payload actor st = update_found now payload actor st (get_user id st.users)

pub data RuntimeError : Type 0 where
  not_active_admin : RuntimeError

abbrev pub first_admin : (ℕ → Text → Text) → ℕ → ℕ → ℕ → Text → Text → Text → User
first_admin hash_password now fresh salt email full_name password = record {
  id = fresh;
  email = normalize_email email;
  full_name = strip full_name;
  password_hash = hash_password salt password;
  role_name = "admin";
  is_active = true;
  last_login_at = none;
  credentials_changed_at = now;
  created_by = none;
  updated_at = now;
}

abbrev pub add_first_admin : User → State → Option User → State × Result RuntimeError Bool
add_first_admin u st none = (record st { users = st.users ++ u ∷ [] }, ok true)
add_first_admin u st (some existing) =
    if is_active_admin existing then (st, ok false) else (st, err not_active_admin)

-- `create_first_admin`, of backend/app/services/bootstrap_service.py.
unfoldable pub create_first_admin :
    (ℕ → Text → Text) → ℕ → ℕ → ℕ → Text → Text → Text → State → State × Result RuntimeError Bool
create_first_admin hash_password now fresh salt email full_name password st =
    add_first_admin (first_admin hash_password now fresh salt email full_name password) st
      (get_by_email (normalize_email email) st.users)
