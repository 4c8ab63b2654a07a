-- ===== src/Auth/Access/Guards.antt =====
-- Who gets past the checks of a request, and who no longer does.
use ai_soc.Base.{
  ℕ, ◌≤◌, ◌<◌, ◌≡◌, refl, ap, ◌∙◌, ◌↔◌, ◌≢◌, Bool, true, false, List, [], ◌∷◌, Option, none, some,
  arith, String-equality, Text-equality, ℕ-equality, ok, err, Bool-cases, inl, inr,
}
use ai_soc.Base.Text.{Text}
use ai_soc.Models.{User, AuthSession}
use ai_soc.Auth.Sessions.{get_for_update, family_is_active}
use ai_soc.Auth.Sessions.Live.{live_count, live_count-revoke_family_self, family_is_active-dead}
use ai_soc.Auth.Service.{
  State, Settings, AccessToken, get_user, put_user, logout, refresh, Draw, Request, change_password,
}
use ai_soc.Auth.Service.Refresh.{logout_sessions, reuse_closes_family}
use ai_soc.Auth.Access.{
  unauthorized, whole_seconds, is_rejected, accept_user, get_current_user, Permission-equality,
}

-- What it takes for a token to stand for a user.
pub record IsAuthenticated (now : ℕ) (token : AccessToken) (st : State) (u : User) : Type 0 where
  pub owner : get_user token.user_id st.users ≡ some u
  pub active : u.is_active ≡ true
  pub family_active : family_is_active now token.family_id st.sessions ≡ true
  pub fresh : whole_seconds u.credentials_changed_at ≤ token.issued_at

accept_user_inv :
    (now : ℕ) (token : AccessToken) (o : Option User) (st : State) (u : User)
    → (accept_user o (is_rejected now token o st.sessions) st).1 ≡ ok u
    → (o ≡ some u)
      × (u.is_active ≡ true)
      × (family_is_active now token.family_id st.sessions ≡ true)
      × (whole_seconds u.credentials_changed_at ≤ token.issued_at)
accept_user_inv now token none st u h = absurd (cc)
accept_user_inv now token (some v) st u h = ground arith

-- A request is the user's exactly when its token decodes, its user is there and active, its family
-- has a live and unexpired session, and the token is not older than the second in which the
-- credentials changed.
pub get_current_user_exact :
    (now : ℕ) (token : AccessToken) (st : State) (u : User)
    → ((get_current_user now (some token) st).1 ≡ ok u) ↔ IsAuthenticated now token st u
unfolding get_current_user
get_current_user_exact now token st u = (
  λ h.
      let (owner, active, family, fresh) =
        accept_user_inv now token (get_user token.user_id st.users) st u h in
      record { owner = owner; active = active; family_active = family; fresh = fresh },
  λ h. rw (h.owner, is_rejected) (ground (arith, h.active, h.family_active, h.fresh)),
)

dead_family_refused :
    (now : ℕ) (token : AccessToken) (st : State)
    → live_count token.family_id st.sessions ≡ 0
    → (get_current_user now (some token) st).1 ≡ err unauthorized
unfolding get_current_user
dead_family_refused now token st dead =
    refused (get_user token.user_id st.users)
      (family_is_active-dead now token.family_id st.sessions dead)
  where
    refused :
        (o : Option User)
        → family_is_active now token.family_id st.sessions ≡ false
        → (accept_user o (is_rejected now token o st.sessions) st).1 ≡ err unauthorized
    refused none inactive = refl
    refused (some v) inactive = ground (arith, inactive)

-- Logging out with the token of a session ends the access of its whole family: no access token of
-- the family is accepted any more, at any time.
pub logout_ends_access :
    (hash_secret : Text → Text) (settings : Settings) (now id : ℕ) (secret : Text) (st : State)
    (s : AuthSession)
    → get_for_update id st.sessions ≡ some s
    → s.token_hash ≡ hash_secret secret
    → (later : ℕ) (token : AccessToken) → token.family_id ≡ s.family_id
    → (get_current_user later
        (some token)
        (logout hash_secret settings now (some (id, secret)) st)).1
      ≡ err unauthorized
logout_ends_access hash_secret settings now id secret st s found genuine later token family =
    dead_family_refused later token _ (
      ap (λ f. live_count f (logout hash_secret settings now (some (id, secret)) st).sessions)
        family
      ∙ ap (live_count s.family_id)
          (logout_sessions hash_secret settings now id secret st s found genuine)
      ∙ live_count-revoke_family_self now s.family_id st.sessions)

-- The replay of a refresh token that was already used ends the access of its family: from then on no
-- access token of the family is accepted, at any time.
pub reuse_ends_access :
    (hash_secret : Text → Text) (settings : Settings) (now : ℕ) (draw : Draw) (id : ℕ)
    (secret : Text) (req : Request) (st : State) (s : AuthSession)
    → get_for_update id st.sessions ≡ some s
    → s.token_hash ≡ hash_secret secret
    → s.revoked_at ≢ none
    → (later : ℕ) (token : AccessToken) → token.family_id ≡ s.family_id
    → (get_current_user later
        (some token)
        (refresh hash_secret settings now draw (some (id, secret)) req st).0).1
      ≡ err unauthorized
reuse_ends_access hash_secret settings now draw id secret req st s found genuine revoked later token
      family =
    dead_family_refused later token _ (
      ap
        (λ f.
          live_count f
            (refresh hash_secret settings now draw (some (id, secret)) req st).0.sessions)
        family
      ∙ (reuse_closes_family hash_secret settings now draw id secret req st s found genuine
          revoked).1)

get_user-put_user :
    (u c : User) (id : ℕ) (users : List User)
    → c.id ≡ id
    → get_user id users ≡ some u
    → get_user id (put_user c users) ≡ some c
unfolding get_user put_user
get_user-put_user u c id [] same found = cc
get_user-put_user u c id (v ∷ users) same found =
    ground (arith, get_user-put_user u c id users same)

stale_refused :
    (now : ℕ) (token : AccessToken) (st : State) (u : User)
    → get_user token.user_id st.users ≡ some u
    → token.issued_at < whole_seconds u.credentials_changed_at
    → (get_current_user now (some token) st).1 ≡ err unauthorized
unfolding get_current_user
stale_refused now token st u found stale = rw (found, is_rejected) (ground arith)

abbrev with_password : (ℕ → Text → Text) → ℕ → ℕ → Text → User → User
with_password hash now salt new u = record u {
  password_hash = hash salt new;
  credentials_changed_at = now;
  updated_at = now;
}

changed_user :
    (verify : Text → Text → Bool) (hash : ℕ → Text → Text) (now salt : ℕ) (u v : User)
    (current new : Text) (st : State)
    → get_user u.id st.users ≡ some v
    → (change_password verify hash now salt u current new st).1 ≡ ok tt
    → get_user u.id (change_password verify hash now salt u current new st).0.users
      ≡ some (with_password hash now salt new u)
unfolding change_password
changed_user verify hash now salt u v current new st found done =
    elim (Bool-cases (verify current u.password_hash)) [
      | inl right ↦
          rw right
            (get_user-put_user v (with_password hash now salt new u) u.id st.users refl found)
      | inr wrong ↦ absurd (let e = rw wrong at done in ground (arith, e))
    ]

-- A change of password, when it succeeds, ends the access of every token of the user that was issued
-- before the second of the change, at any time; the user has a row.
pub password_change_ends_access :
    (verify : Text → Text → Bool) (hash : ℕ → Text → Text) (now salt : ℕ) (u : User)
    (current new : Text) (st : State) (v : User)
    → get_user u.id st.users ≡ some v
    → (change_password verify hash now salt u current new st).1 ≡ ok tt
    → (later : ℕ) (token : AccessToken) → token.user_id ≡ u.id
    → token.issued_at < whole_seconds now
    → (get_current_user later
        (some token)
        (change_password verify hash now salt u current new st).0).1
      ≡ err unauthorized
password_change_ends_access verify hash now salt u current new st v found done later token owner
      stale =
    stale_refused later token _ (with_password hash now salt new u)
      (ap (λ i. get_user i (change_password verify hash now salt u current new st).0.users) owner
        ∙ changed_user verify hash now salt u v current new st found done)
      stale
