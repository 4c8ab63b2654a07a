-- ===== src/Auth/ApiKeys.antt =====
-- backend/app/services/api_key_service.py: the keys of the senders of events are issued and revoked.
pub mod Lifecycle
use ai_soc.Base.{
  ℕ, Bool, true, false, not, ◌&&◌, ◌||◌, String, List, [], ◌∷◌, ◌++◌, Option, none, some, any,
  contains, find, ◌==◌, ℕ-equality, String-equality, Text-equality, if◌then◌else◌, Result, ok, err,
}
use ai_soc.Base.Text.{Text, strip}
use ai_soc.Models.{User, ServiceApiKey, AuditLog}
use ai_soc.Auth.Service.{State, record_audit}
use ai_soc.Auth.Access.{put_key}

pub record ApiKeyCreate : Type 0 where
  pub name : Text
  pub scopes : List String
  pub expires_at : Option ℕ

-- The prefix or the hash of a new key is there already, so it is not stored.
pub data ApiKeyError : Type 0 where
  integrity_error : ApiKeyError

-- `list(dict.fromkeys(…))`: each value where it came first.
unfoldable pub unique_from : List String → List String → List String
unique_from seen [] = []
unique_from seen (s ∷ scopes) =
    let rest = unique_from (s ∷ seen) scopes in
    let skipped = unique_from seen scopes in if contains seen s then skipped else s ∷ rest

abbrev key_entry : String → User → ServiceApiKey → AuditLog
key_entry action actor k = record {
  actor_type = "user";
  actor_id = some actor.id;
  actor_label = some actor.email;
  action = action;
  resource_type = some "api_key";
  resource_id = some k.id;
  outcome = "success";
}

abbrev pub new_key : (Text → Text) → ℕ → Text → Text → ApiKeyCreate → User → ServiceApiKey
new_key hash_secret fresh prefix secret payload actor = record {
  id = fresh;
  name = strip payload.name;
  prefix = prefix;
  key_hash = hash_secret secret;
  scopes = unique_from [] payload.scopes;
  is_active = true;
  expires_at = payload.expires_at;
  created_by = actor.id;
  last_used_at = none;
  revoked_at = none;
}

abbrev pub is_taken : ServiceApiKey → ServiceApiKey → Bool
is_taken k j = j.prefix == k.prefix || j.key_hash == k.key_hash

-- `create`. The raw key is the pair that `parse_api_key` gives back.
unfoldable pub create :
    (Text → Text)
    → ℕ
    → Text
    → Text
    → ApiKeyCreate
    → User
    → State
    → State × Result ApiKeyError (ServiceApiKey × (Text × Text))
unfolding record_audit
create hash_secret fresh prefix secret payload actor st =
    let k = new_key hash_secret fresh prefix secret payload actor in
    if any (is_taken k) st.api_keys then (st, err integrity_error) else (
      record_audit (key_entry "api_key.create" actor k)
          (record st { api_keys = st.api_keys ++ k ∷ [] }),
      ok (k, (prefix, secret)),
    )

unfoldable pub get : ℕ → List ServiceApiKey → Option ServiceApiKey
get id keys = find (λ k. k.id == id) keys

abbrev pub revoked_from : ℕ → ServiceApiKey → Option ℕ → ServiceApiKey
revoked_from now k none = record k { revoked_at = some now; is_active = false }
revoked_from now k (some t) = k

abbrev pub revoked : ℕ → ServiceApiKey → ServiceApiKey
revoked now k = revoked_from now k k.revoked_at

abbrev revoke_found : ℕ → User → State → Option ServiceApiKey → State × Option ServiceApiKey
revoke_found now actor st none = (st, none)
revoke_found now actor st (some k) = (
  record_audit (key_entry "api_key.revoke" actor k)
      (record st { api_keys = put_key (revoked now k) st.api_keys }),
  some (revoked now k),
)

unfoldable pub revoke : ℕ → ℕ → User → State → State × Option ServiceApiKey
unfolding record_audit
revoke now id actor st = revoke_found now actor st (get id st.api_keys)
