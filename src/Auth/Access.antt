-- ===== src/Auth/Access.antt =====
-- backend/app/security/dependencies.py and permissions.py: who a request comes from and what it may
-- do. A bearer token is here what `decode_access_token` returns: its claims, or `none` where it raises.
pub mod Guards
pub mod Keys
pub mod Roles
use ai_soc.Base.{
  ℕ, ◌+◌, ◌*◌, ◌/◌, Bool, true, false, not, ◌||◌, ◌&&◌, String, List, [], ◌∷◌, Option, none, some,
  ltb, leb, find, map, contains, Equality, equality_of, ◌==◌, String-equality, Text-equality,
  ℕ-equality, if◌then◌else◌, Result, ok, err,
}
use ai_soc.Base.Text.{Text}
use ai_soc.Models.{AuthSession, User, ServiceApiKey, second}
use ai_soc.Auth.Sessions
use ai_soc.Auth.Sessions.{is_none}
use ai_soc.Auth.Service.{
  State, AccessToken, get_user, record_audit, entry_of, user_entry, anonymous_entry,
}

pub data Permission : Type 0 where
  soc_read incidents_write investigations_create responses_propose responses_approve : Permission
  responses_approve_tier2 responses_execute users_manage api_keys_manage audit_read : Permission
  audit_verify : Permission

pub Permission-discrete : Discrete Permission
Permission-discrete = hlevel

abbrev pub viewer_permissions : List Permission
viewer_permissions = soc_read ∷ []

abbrev pub analyst_permissions : List Permission
analyst_permissions =
    soc_read ∷ incidents_write ∷ investigations_create ∷ responses_propose ∷ responses_approve
    ∷ audit_read ∷ []

-- `frozenset(Permission)`
abbrev pub all_permissions : List Permission
all_permissions =
    soc_read ∷ incidents_write ∷ investigations_create ∷ responses_propose ∷ responses_approve
    ∷ responses_approve_tier2 ∷ responses_execute ∷ users_manage ∷ api_keys_manage ∷ audit_read
    ∷ audit_verify ∷ []

unfoldable pub permissions_for_role : String → List Permission
permissions_for_role role =
    if role == "viewer"
    then viewer_permissions
    else if role == "analyst"
    then analyst_permissions
    else if role == "admin"
    then all_permissions
    else []

instance abbrev pub Permission-equality : Equality Permission
Permission-equality = equality_of Permission-discrete

pub data HttpError : Type 0 where
  unauthorized forbidden : HttpError

-- `credentials_changed_at.replace(microsecond=0)`
abbrev pub whole_seconds : ℕ → ℕ
whole_seconds t = t / second * second

-- The conditions under which a decoded token names nobody.
abbrev pub is_rejected : ℕ → AccessToken → Option User → List AuthSession → Bool
is_rejected now token none sessions = true
is_rejected now token (some u) sessions =
    not u.is_active
    || not (Sessions.family_is_active now token.family_id sessions)
    || ltb token.issued_at (whole_seconds u.credentials_changed_at)

abbrev denied : HttpError → State → State × Result HttpError User
denied e st = (st, err e)

abbrev audit_anonymous : State → State
audit_anonymous st = record_audit (anonymous_entry "authorization.authenticate" "denied") st

abbrev accept_user : Option User → Bool → State → State × Result HttpError User
accept_user (some u) false st = (st, ok u)
accept_user _ _ st = denied unauthorized (audit_anonymous st)

-- The token's time stamp is in whole seconds.
unfoldable pub get_current_user : ℕ → Option AccessToken → State → State × Result HttpError User
unfolding record_audit
get_current_user now none st = denied unauthorized (audit_anonymous st)
get_current_user now (some token) st =
    let u = get_user token.user_id st.users in
    accept_user u (is_rejected now token u st.sessions) st

-- `require_permission(permission)`, on the user that `get_current_user` found.
unfoldable pub check_permission : Permission → User → State → State × Result HttpError User
unfolding record_audit
check_permission p u st =
    if not (contains (permissions_for_role u.role_name) p)
    then denied forbidden (record_audit (user_entry "authorization.denied" "denied" u) st)
    else (st, ok u)

abbrev and_then :
    (User → State → State × Result HttpError User)
    → State × Result HttpError User
    → State × Result HttpError User
and_then f (st, ok u) = f u st
and_then f (st, err e) = (st, err e)

-- What a request passes through that needs a permission.
unfoldable pub require_permission :
    Permission → ℕ → Option AccessToken → State → State × Result HttpError User
require_permission p now token st = and_then (check_permission p) (get_current_user now token st)

-- `require_event_ingest_key`. The presented key is the pair that `parse_api_key` returns, or `none`
-- where it is missing or malformed. What is kept of the principal is the key's row.
abbrev is_expired : ℕ → Option ℕ → Bool
is_expired now none = false
is_expired now (some t) = leb t now

abbrev pub key_rejected : (Text → Text) → ℕ → Text → ServiceApiKey → Bool
key_rejected hash_secret now secret k =
    not k.is_active
    || not (is_none k.revoked_at)
    || is_expired now k.expires_at
    || not (contains k.scopes "events:write")
    || not (k.key_hash == hash_secret secret)

unfoldable pub get_by_prefix : Text → List ServiceApiKey → Option ServiceApiKey
get_by_prefix prefix keys = find (λ k. k.prefix == prefix) keys

abbrev pub used : ℕ → ServiceApiKey → ServiceApiKey
used now k = record k { last_used_at = some now }

unfoldable pub put_key : ServiceApiKey → List ServiceApiKey → List ServiceApiKey
put_key k keys = map (λ j. if j.id == k.id then k else j) keys

abbrev deny_key : Option ServiceApiKey → State → State × Result HttpError ServiceApiKey
deny_key none st =
    (record_audit (anonymous_entry "authorization.ingest_denied" "denied") st, err unauthorized)
deny_key (some k) st = (
  record_audit (entry_of "authorization.ingest_denied" "denied" "api_key" (some k.id) (some k.name))
      st,
  err unauthorized,
)

abbrev check_key :
    (Text → Text) → ℕ → Text → Option ServiceApiKey → State → State × Result HttpError ServiceApiKey
check_key hash_secret now secret none st = deny_key none st
check_key hash_secret now secret (some k) st =
    if key_rejected hash_secret now secret k
    then deny_key (some k) st
    else (record st { api_keys = put_key (used now k) st.api_keys }, ok (used now k))

unfoldable pub require_event_ingest_key :
    (Text → Text) → ℕ → Option (Text × Text) → State → State × Result HttpError ServiceApiKey
unfolding record_audit
require_event_ingest_key hash_secret now none st = deny_key none st
require_event_ingest_key hash_secret now (some (prefix, secret)) st =
    check_key hash_secret now secret (get_by_prefix prefix st.api_keys) st
