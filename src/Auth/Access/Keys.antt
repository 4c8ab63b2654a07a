-- ===== src/Auth/Access/Keys.antt =====
-- Which API keys may write events.
use ai_soc.Base.{
  ℕ, ◌<◌, ◌≡◌, refl, sym, subst, ◌⊎◌, Option-cases, ◌↔◌, true, false, Option, none, some, arith,
  contains→IsIn, IsIn→contains, IsIn, ==_iff, String-equality, Text-equality, ℕ-equality, ok, err,
  Bool-cases, inl, inr,
}
use ai_soc.Base.Text.{Text}
use ai_soc.Models.{ServiceApiKey}
use ai_soc.Auth.Service.{State}
use ai_soc.Auth.Access.{
  unauthorized, Permission-equality, key_rejected, get_by_prefix, is_expired, check_key, put_key,
  used, require_event_ingest_key,
}

-- What it takes for a key to be accepted.
pub record IsUsableKey (hash_secret : Text → Text) (now : ℕ) (secret : Text) (k : ServiceApiKey)
    : Type 0 where
  pub active : k.is_active ≡ true
  pub unrevoked : k.revoked_at ≡ none
  pub unexpired : (t : ℕ) → k.expires_at ≡ some t → now < t
  pub scoped : IsIn "events:write" k.scopes
  pub genuine : k.key_hash ≡ hash_secret secret

not_expired : (now : ℕ) (o : Option ℕ) → ((t : ℕ) → o ≡ some t → now < t) → is_expired now o ≡ false
not_expired now none h = refl
not_expired now (some t) h = ground (arith, h t refl)

key_rejected_iff :
    (hash_secret : Text → Text) (now : ℕ) (secret : Text) (k : ServiceApiKey)
    → (key_rejected hash_secret now secret k ≡ false) ↔ IsUsableKey hash_secret now secret k
key_rejected_iff hash_secret now secret k = (
  λ h. record {
    active = ground arith;
    unrevoked = ground arith;
    unexpired = λ t e. ground arith;
    scoped = contains→IsIn "events:write" k.scopes (ground arith);
    genuine = (==_iff k.key_hash (hash_secret secret)).0 (ground arith);
  },
  λ h. ground (
    arith,
    h.active,
    h.unrevoked,
    not_expired now k.expires_at h.unexpired,
    IsIn→contains "events:write" k.scopes h.scoped,
    (==_iff k.key_hash (hash_secret secret)).1 h.genuine,
  ),
)

-- A key is accepted exactly when its prefix has a row that is active, neither revoked nor expired,
-- has the scope to write events and holds the hash of the presented secret. Then the time of its use
-- is written in its row; otherwise no row of a key changes.
pub require_event_ingest_key_exact :
    (hash_secret : Text → Text) (now : ℕ) (prefix secret : Text) (st : State)
    → let r = require_event_ingest_key hash_secret now (some (prefix, secret)) st in
      ((r.1 ≡ err unauthorized)
        × (r.0.api_keys ≡ st.api_keys)
        × ((k : ServiceApiKey)
            → get_by_prefix prefix st.api_keys ≡ some k
            → ¬ IsUsableKey hash_secret now secret k))
      ⊎ ((k : ServiceApiKey) × (get_by_prefix prefix st.api_keys ≡ some k)
          × IsUsableKey hash_secret now secret k
          × (r.1 ≡ ok (used now k))
          × (r.0.api_keys ≡ put_key (used now k) st.api_keys))
unfolding require_event_ingest_key
require_event_ingest_key_exact hash_secret now prefix secret st =
    elim (Option-cases (get_by_prefix prefix st.api_keys)) [
      | inl missing ↦ rw (missing, check_key) (inl (refl, refl, λ k e. cc))
      | inr (k, found) ↦ elim (Bool-cases (key_rejected hash_secret now secret k)) [
        | inl rejected ↦
            rw (found, check_key)
              (rw rejected (
                inl (
                  refl,
                  refl,
                  λ j e usable.
                      let same : k ≡ j = cc in
                      let accepted =
                        (key_rejected_iff hash_secret now secret k).1
                          (subst (IsUsableKey hash_secret now secret) (sym same) usable) in
                      ground (arith, rejected, accepted),
                )))
        | inr accepted ↦
            rw (found, check_key)
              (rw accepted
                (inr (k, refl, (key_rejected_iff hash_secret now secret k).0 accepted, refl, refl)))
      ]
    ]
