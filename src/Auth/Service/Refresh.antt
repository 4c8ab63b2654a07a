-- ===== src/Auth/Service/Refresh.antt =====
-- What refreshing guarantees: when it succeeds, that a family has one live session, and that a
-- replayed token closes its family.
use ai_soc.Base.{
  ℕ, ◌<◌, ◌≡◌, refl, ap, ◌∙◌, ◌≢◌, ◌↔◌, Bool, true, false, not, Option, none, some, arith, ◌==◌,
  ==_iff, ==_refl, ℕ-equality, Text-equality, if◌then◌else◌, Result, ok, err,
}
use ai_soc.Base.Text.{Text}
use ai_soc.Models.{User, AuthSession}
use ai_soc.Auth.Sessions.{
  is_none, create, get_for_update, family_is_active, revoke_family, rotate, rotated,
}
use ai_soc.Auth.Sessions.Live.{
  live_count, live_count-revoke_family_self, family_is_active-dead, get_for_update-rotate,
  get_for_update-create, get_for_update-id,
}
use ai_soc.Auth.Service.{
  State, Request, Settings, Draw, AuthenticationResult, AuthError, refresh_token_error, get_user,
  create_access_token, session_row, replace_session, refresh_user, refresh_session, refresh, logout,
  logout_session, record_audit,
}

module _ (hash_secret : Text → Text) (settings : Settings) where
  abbrev pub IsOk : State × Result AuthError AuthenticationResult → Type 0
  IsOk r = (a : AuthenticationResult) × (r.1 ≡ ok a)

  -- What it takes for a token to be refreshed.
  pub record MayRefresh (now id : ℕ) (secret : Text) (st : State) (s : AuthSession) (u : User)
      : Type 0 where
    pub found : get_for_update id st.sessions ≡ some s
    pub genuine : s.token_hash ≡ hash_secret secret
    pub unrevoked : s.revoked_at ≡ none
    pub unexpired : now < s.expires_at
    pub owner : get_user s.user_id st.users ≡ some u
    pub active : u.is_active ≡ true

  refresh_ok :
      (now : ℕ) (draw : Draw) (id : ℕ) (secret : Text) (req : Request) (st : State)
      (s : AuthSession) (u : User)
      → MayRefresh now id secret st s u
      → refresh hash_secret settings now draw (some (id, secret)) req st
        ≡ replace_session hash_secret settings now draw s u req st
  unfolding refresh
  refresh_ok now draw id secret req st s u m =
      rw (m.found, refresh_session)
        (rw (m.owner, m.unrevoked, m.genuine, ==_refl (hash_secret secret)) (ground arith))

  refresh_reused :
      (now : ℕ) (draw : Draw) (id : ℕ) (secret : Text) (req : Request) (st : State)
      (s : AuthSession)
      → get_for_update id st.sessions ≡ some s
      → s.token_hash ≡ hash_secret secret
      → s.revoked_at ≢ none
      → let r = refresh hash_secret settings now draw (some (id, secret)) req st in
        (r.1 ≡ err refresh_token_error) × (r.0.sessions ≡ revoke_family now s.family_id st.sessions)
  unfolding refresh
  refresh_reused now draw id secret req st s found genuine revoked =
      let reused : is_none s.revoked_at ≡ false = ground (arith, revoked) in
      rw (found, refresh_session) (rw (reused, genuine, ==_refl (hash_secret secret)) (refl, refl))

  -- A presented token of a session that is already revoked is refused, and no session of its family
  -- is live or active afterwards, at any time.
  pub reuse_closes_family :
      (now : ℕ) (draw : Draw) (id : ℕ) (secret : Text) (req : Request) (st : State)
      (s : AuthSession)
      → get_for_update id st.sessions ≡ some s
      → s.token_hash ≡ hash_secret secret
      → s.revoked_at ≢ none
      → let r = refresh hash_secret settings now draw (some (id, secret)) req st in
        (r.1 ≡ err refresh_token_error)
        × (live_count s.family_id r.0.sessions ≡ 0)
        × ((t : ℕ) → family_is_active t s.family_id r.0.sessions ≡ false)
  reuse_closes_family now draw id secret req st s found genuine revoked =
      let (refused, closed) = refresh_reused now draw id secret req st s found genuine revoked in
      let dead =
        ap (live_count s.family_id) closed
        ∙ live_count-revoke_family_self now s.family_id st.sessions in
      (refused, dead, λ t. family_is_active-dead t s.family_id _ dead)

  pub granted : ℕ → Draw → AuthSession → User → AuthenticationResult
  granted now draw s u = record {
    access_token = create_access_token settings now u.id s.family_id;
    user = u;
    refresh_token = (draw.session_id, draw.secret);
  }

  pub replace_session-ok :
      (now : ℕ) (draw : Draw) (s : AuthSession) (u : User) (req : Request) (st : State)
      → (replace_session hash_secret settings now draw s u req st).1 ≡ ok (granted now draw s u)
  unfolding replace_session granted
  replace_session-ok now draw s u req st = refl

  refresh_user_inv :
      (now : ℕ) (draw : Draw) (s : AuthSession) (o : Option User) (req : Request) (st : State)
      → IsOk (refresh_user hash_secret settings now draw s o req st)
      → (u : User) × (o ≡ some u) × (now < s.expires_at) × (u.is_active ≡ true)
  refresh_user_inv now draw s none req st h = absurd (ground (arith, h.1))
  refresh_user_inv now draw s (some u) req st h =
      (u, refl, ground (arith, h.1), ground (arith, h.1))

  -- Two refusals, and what follows them.
  gates_inv :
      (p q : Bool) (x y z : State × Result AuthError AuthenticationResult)
      → x.1 ≡ err refresh_token_error
      → y.1 ≡ err refresh_token_error
      → IsOk (if not p then x else if not q then y else z)
      → (p ≡ true) × (q ≡ true) × IsOk z
  gates_inv true true x y z ex ey h = (refl, refl, h)
  gates_inv true false x y z ex ey h = absurd (ground (arith, h.1))
  gates_inv false q x y z ex ey h = absurd (ground (arith, h.1))

  unrevoked_of : (o : Option ℕ) → is_none o ≡ true → o ≡ none
  unrevoked_of none h = refl
  unrevoked_of (some t) h = cc

  refresh_session_inv :
      (now : ℕ) (draw : Draw) (o : Option AuthSession) (secret : Text) (req : Request) (st : State)
      → IsOk (refresh_session hash_secret settings now draw o secret req st)
      → (s : AuthSession) × (o ≡ some s)
        × (s.token_hash ≡ hash_secret secret)
        × (s.revoked_at ≡ none)
        × IsOk (refresh_user hash_secret settings now draw s (get_user s.user_id st.users) req st)
  refresh_session_inv now draw none secret req st h = absurd (ground (arith, h.1))
  refresh_session_inv now draw (some s) secret req st h =
      let (right, fresh, h') =
        gates_inv (s.token_hash == hash_secret secret) (is_none s.revoked_at) _ _
          (refresh_user hash_secret settings now draw s (get_user s.user_id st.users) req st) refl
          refl h in
      (s, refl, (==_iff _ _).0 right, unrevoked_of s.revoked_at fresh, h')

  -- `refresh` succeeds exactly for the token of a session that is there, not revoked and not
  -- expired, and whose user is there and active.
  pub refresh_exact :
      (now : ℕ) (draw : Draw) (id : ℕ) (secret : Text) (req : Request) (st : State)
      → IsOk (refresh hash_secret settings now draw (some (id, secret)) req st)
        ↔ ((s : AuthSession) × (u : User) × MayRefresh now id secret st s u)
  refresh_exact now draw id secret req st = (
    λ h.
        let (s, found, genuine, unrevoked, h') =
          refresh_session_inv now draw (get_for_update id st.sessions) secret req st
            (unfold refresh in h) in
        let (u, owner, unexpired, active) =
          refresh_user_inv now draw s (get_user s.user_id st.users) req st h' in
        (
          s,
          u,
          record {
            found = found;
            genuine = genuine;
            unrevoked = unrevoked;
            unexpired = unexpired;
            owner = owner;
            active = active;
          },
        ),
    λ h.
        let (s, u, m) = h in
        (
          granted now draw s u,
          rw (refresh_ok now draw id secret req st s u m) (replace_session-ok now draw s u req st),
        ),
  )

  pub refreshed_sessions :
      (now : ℕ) (draw : Draw) (id : ℕ) (secret : Text) (req : Request) (st : State)
      (s : AuthSession) (u : User)
      → MayRefresh now id secret st s u
      → (refresh hash_secret settings now draw (some (id, secret)) req st).0.sessions
        ≡ create
            (session_row hash_secret settings now draw s.family_id u.id req)
            (rotate now id draw.session_id st.sessions)
  refreshed_sessions now draw id secret req st s u m =
      rw (refresh_ok now draw id secret req st s u m) (
        unfold replace_session record_audit in
        ap
          (λ (i : ℕ).
            create (session_row hash_secret settings now draw s.family_id u.id req)
              (rotate now i draw.session_id st.sessions))
          (get_for_update-id id st.sessions s m.found))

  -- A token that was refreshed is dead: presented again, it is refused, and from then on no session
  -- of its family is live or active, the replacement included.
  pub replay_closes_family :
      (now later : ℕ) (draw draw' : Draw) (id : ℕ) (secret : Text) (req req' : Request) (st : State)
      (s : AuthSession) (u : User)
      → MayRefresh now id secret st s u
      → let st' = (refresh hash_secret settings now draw (some (id, secret)) req st).0 in
        let r = refresh hash_secret settings later draw' (some (id, secret)) req' st' in
        (r.1 ≡ err refresh_token_error)
        × (live_count s.family_id r.0.sessions ≡ 0)
        × ((t : ℕ) → family_is_active t s.family_id r.0.sessions ≡ false)
  replay_closes_family now later draw draw' id secret req req' st s u m =
      let again = get_for_update-rotate now id draw.session_id st.sessions s m.found in
      let row = session_row hash_secret settings now draw s.family_id u.id req in
      reuse_closes_family later draw' id secret req' _ (rotated now draw.session_id s)
        (ap (get_for_update id) (refreshed_sessions now draw id secret req st s u m)
          ∙ get_for_update-create id _ row _ again)
        m.genuine (λ e. cc)

  pub logout_sessions :
      (now id : ℕ) (secret : Text) (st : State) (s : AuthSession)
      → get_for_update id st.sessions ≡ some s
      → s.token_hash ≡ hash_secret secret
      → (logout hash_secret settings now (some (id, secret)) st).sessions
        ≡ revoke_family now s.family_id st.sessions
  unfolding logout
  logout_sessions now id secret st s found genuine =
      rw (found, logout_session) (rw (genuine, ==_refl (hash_secret secret)) refl)
