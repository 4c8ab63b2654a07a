-- ===== src/Auth/ApiKeys/Lifecycle.antt =====
-- backend/app/services/api_key_service.py: an issued key serves until it is revoked.
use ai_soc.Base.{
  true_ne_false, some_inj, err_ne_ok, ℕ, ◌<◌, ◌≡◌, ◌≢◌, refl, sym, ap, ◌∙◌, subst, false, List, [],
  ◌∷◌, ◌++◌, String, Option, none, some, any, contains, IsIn, ◌==◌, ==_refl, ==_iff, ℕ-equality,
  String-equality, Text-equality, Bool-cases, inl, inr, arith, ok, err, ok_inj, find-append,
}
use ai_soc.Base.Text.{Text}
use ai_soc.Models.{User, ServiceApiKey}
use ai_soc.Auth.Service.{State, record_audit}
use ai_soc.Auth.Access.{unauthorized, get_by_prefix, put_key, used, require_event_ingest_key}
use ai_soc.Auth.Access.Keys.{IsUsableKey, require_event_ingest_key_exact}
use ai_soc.Auth.ApiKeys.{
  ApiKeyCreate, unique_from, new_key, is_taken, revoked_from, create, get, revoked, revoke,
}

get_by_prefix-put_key :
    (k k' : ServiceApiKey) (keys : List ServiceApiKey)
    → k'.id ≡ k.id
    → k'.prefix ≡ k.prefix
    → get_by_prefix k.prefix keys ≡ some k
    → get_by_prefix k.prefix (put_key k' keys) ≡ some k'
unfolding get_by_prefix put_key
get_by_prefix-put_key k k' [] same prefix h = cc
get_by_prefix-put_key k k' (j ∷ keys) same prefix h = elim (Bool-cases (j.id == k'.id)) [
  | inl replaced ↦ rw (replaced, prefix, ==_refl k.prefix) refl
  | inr other ↦ elim (Bool-cases (j.prefix == k.prefix)) [
    | inl found ↦
        let this : j ≡ k = some_inj (rw found at h) in
        absurd (
          true_ne_false (
            sym ((==_iff j.id k'.id).1 (ap (λ (x : ServiceApiKey). x.id) this ∙ sym same)) ∙ other))
    | inr away ↦ rw (other, away) (get_by_prefix-put_key k k' keys same prefix (rw away at h))
  ]
]

unique_from-IsIn :
    (s : String) (seen scopes : List String)
    → contains seen s ≡ false
    → IsIn s scopes
    → IsIn s (unique_from seen scopes)
unfolding unique_from
unique_from-IsIn s seen [] new m = m
unique_from-IsIn s seen (x ∷ scopes) new (inl q) =
    let new_x : contains seen x ≡ false = ap (contains seen) q ∙ new in rw new_x (inl q)
unique_from-IsIn s seen (x ∷ scopes) new (inr m) = elim (Bool-cases (contains seen x)) [
  | inl seen_x ↦ rw seen_x (unique_from-IsIn s seen scopes new m)
  | inr new_x ↦ rw new_x (elim (Bool-cases (x == s)) [
    | inl same ↦ inl ((==_iff x s).0 same)
    | inr other ↦ inr (unique_from-IsIn s (x ∷ seen) scopes (rw other new) m)
  ])
]

get_by_prefix-append :
    (k : ServiceApiKey) (keys : List ServiceApiKey)
    → any (is_taken k) keys ≡ false
    → get_by_prefix k.prefix (keys ++ k ∷ []) ≡ some k
unfolding get_by_prefix
get_by_prefix-append k [] h = rw (==_refl k.prefix) refl
get_by_prefix-append k (j ∷ keys) h = elim (Bool-cases (j.prefix == k.prefix)) [
  | inl taken ↦ absurd (true_ne_false (rw taken at h))
  | inr other ↦ rw other (get_by_prefix-append k keys (ground (arith, h)))
]

-- A key that is issued is in the table under its prefix and its identifier.
create-issues :
    (hash_secret : Text → Text) (fresh : ℕ) (prefix secret : Text) (payload : ApiKeyCreate)
    (actor : User) (st : State) (x : ServiceApiKey × (Text × Text))
    → (create hash_secret fresh prefix secret payload actor st).1 ≡ ok x
    → get fresh st.api_keys ≡ none
    → (x ≡ (new_key hash_secret fresh prefix secret payload actor, (prefix, secret)))
      × ((get_by_prefix prefix (create hash_secret fresh prefix secret payload actor st).0.api_keys
            ≡ some (new_key hash_secret fresh prefix secret payload actor))
          × (get fresh (create hash_secret fresh prefix secret payload actor st).0.api_keys
              ≡ some (new_key hash_secret fresh prefix secret payload actor)))
unfolding create record_audit get
create-issues hash_secret fresh prefix secret payload actor st x h new =
    let k = new_key hash_secret fresh prefix secret payload actor in
    elim (Bool-cases (any (is_taken k) st.api_keys)) [
      | inl taken ↦ absurd (err_ne_ok (rw taken at h))
      | inr free ↦ rw free (
        sym (ok_inj (rw free at h)),
        (
          get_by_prefix-append k st.api_keys free,
          find-append (λ j. j.id == fresh) st.api_keys k new (==_refl fresh),
        ),
      )
    ]

revoked_from-closed :
    (now : ℕ) (k : ServiceApiKey) (o : Option ℕ)
    → k.revoked_at ≡ o
    → ((revoked_from now k o).id ≡ k.id)
      × (((revoked_from now k o).prefix ≡ k.prefix) × ((revoked_from now k o).revoked_at ≢ none))
revoked_from-closed now k none h = (refl, (refl, λ q. cc))
revoked_from-closed now k (some t) h = (refl, (refl, λ q. cc))

-- After a revocation no secret passes with the prefix.
revoke-ends_access :
    (hash_secret : Text → Text) (at now : ℕ) (guess : Text) (actor : User) (st : State)
    (k : ServiceApiKey)
    → get_by_prefix k.prefix st.api_keys ≡ some k
    → get k.id st.api_keys ≡ some k
    → (require_event_ingest_key hash_secret now
        (some (k.prefix, guess))
        (revoke at k.id actor st).0).1
      ≡ err unauthorized
unfolding revoke record_audit
revoke-ends_access hash_secret at now guess actor st k by_prefix by_id =
    elim (require_event_ingest_key_exact hash_secret now k.prefix guess
      (revoke at k.id actor st).0) [
        | inl (refused, unchanged, unusable) ↦ refused
        | inr (j, found, usable, accepted, rest) ↦
            let (id, (prefix, closed)) = revoked_from-closed at k k.revoked_at refl in
            let table : (revoke at k.id actor st).0.api_keys ≡ put_key (revoked at k) st.api_keys =
              rw by_id refl in
            let same : revoked at k ≡ j = some_inj (
              sym (get_by_prefix-put_key k (revoked at k) st.api_keys id prefix by_prefix)
              ∙ ap (get_by_prefix k.prefix) (sym table)
              ∙ found) in
            absurd (closed (ap (λ (x : ServiceApiKey). x.revoked_at) same ∙ usable.unrevoked))
      ]

-- If a key with the scope to write events is issued under an identifier that no key has, its raw
-- key is accepted until it expires; and after it is revoked no secret is accepted with its prefix, at any time.
pub create-serves_until_revoke :
    (hash_secret : Text → Text) (fresh : ℕ) (prefix secret : Text) (payload : ApiKeyCreate)
    (actor : User) (st : State) (k : ServiceApiKey) (raw : Text × Text) (now at later : ℕ)
    (guess : Text) (revoker : User)
    → (create hash_secret fresh prefix secret payload actor st).1 ≡ ok (k, raw)
    → get fresh st.api_keys ≡ none
    → IsIn "events:write" payload.scopes
    → ((t : ℕ) → payload.expires_at ≡ some t → now < t)
    → let issued = (create hash_secret fresh prefix secret payload actor st).0 in
      ((require_event_ingest_key hash_secret now (some raw) issued).1 ≡ ok (used now k))
      × ((require_event_ingest_key hash_secret later
            (some (k.prefix, guess))
            (revoke at k.id revoker issued).0).1
          ≡ err unauthorized)
create-serves_until_revoke hash_secret fresh prefix secret payload actor st k raw now at later guess
      revoker issued new scoped unexpired =
    let st' = (create hash_secret fresh prefix secret payload actor st).0 in
    let key = new_key hash_secret fresh prefix secret payload actor in
    let (same, (by_prefix, by_id)) =
      create-issues hash_secret fresh prefix secret payload actor st (k, raw) issued new in
    subst
      (λ (x : ServiceApiKey × (Text × Text)).
        ((require_event_ingest_key hash_secret now (some x.1) st').1 ≡ ok (used now x.0))
        × ((require_event_ingest_key hash_secret later (some (x.0.prefix, guess))
              (revoke at x.0.id revoker st').0).1
            ≡ err unauthorized))
      (sym same)
      (
        elim (require_event_ingest_key_exact hash_secret now prefix secret st') [
          | inl (refused, unchanged, unusable) ↦ absurd (unusable key by_prefix usable)
          | inr (j, found, good, accepted, rest) ↦
              accepted ∙ ap (λ x. ok (used now x)) (some_inj (sym found ∙ by_prefix))
        ],
        revoke-ends_access hash_secret at later guess revoker st' key by_prefix by_id,
      )
  where
    usable :
        IsUsableKey hash_secret now secret (new_key hash_secret fresh prefix secret payload actor)
    usable = record {
      active = refl;
      unrevoked = refl;
      unexpired = unexpired;
      scoped = unique_from-IsIn "events:write" [] payload.scopes refl scoped;
      genuine = refl;
    }
