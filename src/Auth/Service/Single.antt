-- ===== src/Auth/Service/Single.antt =====
-- A family of sessions never has two live sessions: the invariant of every operation, and of every
-- run from an empty table.
use ai_soc.Base.{
  ℕ, ◌≤◌, ◌≡◌, refl, sym, subst, ◌⊎◌, inl, inr, Bool, true, false, not, List, [], Option, none,
  some, arith, ◌==◌, ℕ-equality, Text-equality, if◌then◌else◌, Result, ok, err,
}
use ai_soc.Base.Text.{Text}
use ai_soc.Models.{User, AuthSession}
use ai_soc.Auth.Sessions.{is_none, create, get_for_update, rotate}
use ai_soc.Auth.Sessions.Live.{
  live_count, live_count-create, live_count-revoke_family-le, live_count-revoke_user-le,
  live_count-rotate, live_count-rotate-le,
}
use ai_soc.Auth.Service.{
  State, Request, Settings, Draw, RefreshToken, AuthenticationResult, AuthError, get_user,
  session_row, new_session, refresh_user, refresh_session, refresh, logout_session, logout,
  change_password, record_audit, audit_refresh_failure,
}
use ai_soc.Auth.Service.Refresh.{IsOk, refresh_exact, refreshed_sessions, replace_session-ok}

abbrev pub IsSingle : List AuthSession → Type 0
IsSingle ss = (family : ℕ) → live_count family ss ≤ 1

-- No family gains a live session.
abbrev Shrinks : List AuthSession → List AuthSession → Type 0
Shrinks ss ts = (family : ℕ) → live_count family ts ≤ live_count family ss

module _ (hash_secret : Text → Text) (settings : Settings) where
  refresh_user-err :
      (e : AuthError) (now : ℕ) (draw : Draw) (s : AuthSession) (o : Option User) (req : Request)
      (st : State)
      → (refresh_user hash_secret settings now draw s o req st).1 ≡ err e
      → Shrinks st.sessions (refresh_user hash_secret settings now draw s o req st).0.sessions
  unfolding audit_refresh_failure record_audit
  refresh_user-err e now draw s none req st h g =
      live_count-revoke_family-le now s.family_id g st.sessions
  refresh_user-err e now draw s (some u) req st h g = ground (
    arith,
    h,
    live_count-revoke_family-le now s.family_id g st.sessions,
    replace_session-ok hash_secret settings now draw s u req st,
  )

  gates_shrink :
      (e : AuthError) (ss : List AuthSession) (p q : Bool)
      (x y z : State × Result AuthError AuthenticationResult)
      → Shrinks ss x.0.sessions
      → Shrinks ss y.0.sessions
      → (z.1 ≡ err e → Shrinks ss z.0.sessions)
      → (if not p then x else if not q then y else z).1 ≡ err e
      → Shrinks ss (if not p then x else if not q then y else z).0.sessions
  gates_shrink e ss false q x y z hx hy hz h = hx
  gates_shrink e ss true false x y z hx hy hz h = hy
  gates_shrink e ss true true x y z hx hy hz h = hz h

  refresh_session-err :
      (e : AuthError) (now : ℕ) (draw : Draw) (o : Option AuthSession) (secret : Text)
      (req : Request) (st : State)
      → (refresh_session hash_secret settings now draw o secret req st).1 ≡ err e
      → Shrinks st.sessions
          (refresh_session hash_secret settings now draw o secret req st).0.sessions
  unfolding audit_refresh_failure record_audit
  refresh_session-err e now draw none secret req st h = λ g. omega arith
  refresh_session-err e now draw (some s) secret req st h =
      gates_shrink e st.sessions (s.token_hash == hash_secret secret) (is_none s.revoked_at) _ _ _
        (λ g. omega arith) (λ g. live_count-revoke_family-le now s.family_id g st.sessions)
        (refresh_user-err e now draw s (get_user s.user_id st.users) req st) h

  refresh-err :
      (e : AuthError) (now : ℕ) (draw : Draw) (token : RefreshToken) (req : Request) (st : State)
      → (refresh hash_secret settings now draw token req st).1 ≡ err e
      → Shrinks st.sessions (refresh hash_secret settings now draw token req st).0.sessions
  unfolding refresh
  refresh-err e now draw none req st h = λ g. omega arith
  refresh-err e now draw (some (id, secret)) req st h =
      refresh_session-err e now draw (get_for_update id st.sessions) secret req st h

  IsSingle-shrink : (ss ts : List AuthSession) → Shrinks ss ts → IsSingle ss → IsSingle ts
  IsSingle-shrink ss ts shrinks single g = omega (arith, shrinks g, single g)

  -- Rotation: one live session of the family goes, and one comes.
  IsSingle-replace :
      (now id replacement : ℕ) (row s : AuthSession) (ss : List AuthSession)
      → get_for_update id ss ≡ some s
      → s.revoked_at ≡ none
      → row.family_id ≡ s.family_id
      → IsSingle ss
      → IsSingle (create row (rotate now id replacement ss))
  IsSingle-replace now id replacement row s ss found live family single g = ground (
    arith,
    single g,
    live_count-create g row (rotate now id replacement ss),
    live_count-rotate now id replacement g ss s found,
    live_count-rotate-le now id replacement g ss,
  )

  Result-cases :
      (r : Result AuthError AuthenticationResult)
      → ((a : AuthenticationResult) × (r ≡ ok a)) ⊎ ((e : AuthError) × (r ≡ err e))
  Result-cases (ok a) = inl (a, refl)
  Result-cases (err e) = inr (e, refl)

  refresh-some-IsSingle :
      (now : ℕ) (draw : Draw) (id : ℕ) (secret : Text) (req : Request) (st : State)
      → IsOk hash_secret settings (refresh hash_secret settings now draw (some (id, secret)) req st)
      → IsSingle st.sessions
      → IsSingle (refresh hash_secret settings now draw (some (id, secret)) req st).0.sessions
  refresh-some-IsSingle now draw id secret req st done single =
      let (s, u, m) = (refresh_exact hash_secret settings now draw id secret req st).0 done in
      subst IsSingle (sym (refreshed_sessions hash_secret settings now draw id secret req st s u m))
        (IsSingle-replace now id draw.session_id _ s st.sessions m.found m.unrevoked
          (unfold session_row in refl) single)

  -- Refreshing, whatever the token and whatever comes of it, leaves at most one live session in each
  -- family, if there was at most one.
  pub refresh-IsSingle :
      (now : ℕ) (draw : Draw) (token : RefreshToken) (req : Request) (st : State)
      → IsSingle st.sessions
      → IsSingle (refresh hash_secret settings now draw token req st).0.sessions
  refresh-IsSingle now draw none req st single = unfold refresh in single
  refresh-IsSingle now draw (some (id, secret)) req st single =
      elim (Result-cases (refresh hash_secret settings now draw (some (id, secret)) req st).1) [
        | inl done ↦ refresh-some-IsSingle now draw id secret req st done single
        | inr (e, failed) ↦
            IsSingle-shrink st.sessions _ (refresh-err e now draw (some (id, secret)) req st failed)
              single
      ]

  new_session-IsSingle :
      (now : ℕ) (draw : Draw) (u : User) (req : Request) (st : State)
      → live_count draw.family_id st.sessions ≡ 0
      → IsSingle st.sessions
      → IsSingle (new_session hash_secret settings now draw u req st).0.sessions
  unfolding new_session
  new_session-IsSingle now draw u req st fresh single g = ground (
    arith,
    single g,
    live_count-create g (session_row hash_secret settings now draw draw.family_id u.id req)
        st.sessions,
  )

  logout_session-IsSingle :
      (now : ℕ) (o : Option AuthSession) (secret : Text) (st : State)
      → IsSingle st.sessions
      → IsSingle (logout_session hash_secret settings now o secret st).sessions
  unfolding record_audit
  logout_session-IsSingle now none secret st single g = single g
  logout_session-IsSingle now (some s) secret st single g =
      ground (arith, single g, live_count-revoke_family-le now s.family_id g st.sessions)

  logout-IsSingle :
      (now : ℕ) (token : RefreshToken) (st : State)
      → IsSingle st.sessions
      → IsSingle (logout hash_secret settings now token st).sessions
  unfolding logout
  logout-IsSingle now none st single = single
  logout-IsSingle now (some (id, secret)) st single =
      logout_session-IsSingle now (get_for_update id st.sessions) secret st single

change_password-IsSingle :
    (verify : Text → Text → Bool) (hash : ℕ → Text → Text) (now salt : ℕ) (u : User)
    (current new : Text) (st : State)
    → IsSingle st.sessions
    → IsSingle (change_password verify hash now salt u current new st).0.sessions
unfolding change_password
change_password-IsSingle verify hash now salt u current new st single g =
    ground (arith, single g, live_count-revoke_user-le now u.id g st.sessions)

module _ (hash_secret : Text → Text) (settings : Settings) (verify : Text → Text → Bool)
    (hash : ℕ → Text → Text) where
  -- One call of the service. A login draws a family that has no live session.
  pub data Step (st : State) : State → Type 0 where
    opened :
        (now : ℕ) (draw : Draw) (u : User) (req : Request)
        → live_count draw.family_id st.sessions ≡ 0
        → Step st (new_session hash_secret settings now draw u req st).0
    refreshed :
        (now : ℕ) (draw : Draw) (token : RefreshToken) (req : Request)
        → Step st (refresh hash_secret settings now draw token req st).0
    logged_out :
        (now : ℕ) (token : RefreshToken) → Step st (logout hash_secret settings now token st)
    password_changed :
        (now salt : ℕ) (u : User) (current new : Text)
        → Step st (change_password verify hash now salt u current new st).0

  pub data Reach (st : State) : State → Type 0 where
    here : Reach st st
    next : {t u : State} → Reach st t → Step t u → Reach st u

  Step-IsSingle : {st t : State} → Step st t → IsSingle st.sessions → IsSingle t.sessions
  Step-IsSingle {st} (opened now draw u req fresh) =
      new_session-IsSingle hash_secret settings now draw u req st fresh
  Step-IsSingle {st} (refreshed now draw token req) =
      refresh-IsSingle hash_secret settings now draw token req st
  Step-IsSingle {st} (logged_out now token) = logout-IsSingle hash_secret settings now token st
  Step-IsSingle {st} (password_changed now salt u current new) =
      change_password-IsSingle verify hash now salt u current new st

  -- In every state that any calls of the service reach from a state without sessions, in any order
  -- and with any tokens, each family has at most one live session; provided that a login draws a
  -- family without a live session.
  pub Reach-IsSingle : {st t : State} → st.sessions ≡ [] → Reach st t → IsSingle t.sessions
  unfolding live_count
  Reach-IsSingle empty here g = rw empty (omega arith)
  Reach-IsSingle empty (next r step) g = Step-IsSingle step (Reach-IsSingle empty r) g
