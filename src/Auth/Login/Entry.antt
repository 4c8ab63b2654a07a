-- ===== src/Auth/Login/Entry.antt =====
-- backend/app/services/auth_service.py: when a login succeeds and what it opens.
use ai_soc.Base.{
  ℕ, ◌≡◌, refl, ◌↔◌, inl, inr, Bool, true, false, ◌&&◌, Option, none, some, Bool-cases, Result, ok,
  err,
}
use ai_soc.Base.Text.{Text}
use ai_soc.Models.{User}
use ai_soc.Auth.Service.{State, Request, Settings, Draw, AuthenticationResult, AuthError}
use ai_soc.Auth.Limiter.{Redis, Limits, is_limited}
use ai_soc.Auth.Login.{normalize_email, get_by_email, host_of, opens, check_user, login_as, login}

module _ (hash_secret digest : Text → Text) (verify_password : Text → Text → Bool)
    (settings : Settings) (limits : Limits) where
  module _ {R : Type 0} (redis : Redis R) where
    abbrev pub IsOk : (State × R) × Result AuthError AuthenticationResult → Type 0
    IsOk o = (r : AuthenticationResult) × (o.1 ≡ ok r)

    -- What it takes to log in.
    abbrev pub MayLogin : Text → Text → Request → State → R → Type 0
    MayLogin email password req st r =
        (is_limited digest redis limits r (normalize_email email) (host_of req.source_ip) ≡ false)
        × ((u : User) × ((get_by_email (normalize_email email) st.users ≡ some u)
              × ((verify_password password u.password_hash ≡ true) × (u.is_active ≡ true))))

    no_result :
        {x : AuthError} {y : AuthenticationResult}
        → Path (Result AuthError AuthenticationResult) (err x) (ok y)
        → ⊥
    no_result p = cc

    both : (a b : Bool) → (a && b) ≡ true → (a ≡ true) × (b ≡ true)
    both true b h = (refl, h)
    both false b h = absurd (cc)

    -- A login succeeds exactly when neither the account nor the address is limited and the normalized
    -- address of mail is that of an active user with this password.
    pub login_exact :
        (now : ℕ) (draw : Draw) (email password : Text) (req : Request) (st : State) (r : R)
        → IsOk (
            login hash_secret digest verify_password settings limits redis now draw email password
              req st r)
          ↔ MayLogin email password req st r
    unfolding login
    login_exact now draw email password req st r = (only, enough)
      where
        of_user :
            (o : Option User)
            → get_by_email (normalize_email email) st.users ≡ o
            → IsOk (
                check_user hash_secret digest verify_password settings limits redis now draw
                  (normalize_email email)
                  password
                  o
                  req
                  st
                  r)
            → (u : User) × ((get_by_email (normalize_email email) st.users ≡ some u)
                × ((verify_password password u.password_hash ≡ true) × (u.is_active ≡ true)))
        of_user none e h = absurd (no_result h.1)
        of_user (some u) e h = elim (Bool-cases (opens verify_password password (some u))) [
          | inl t ↦ (u, (e, both (verify_password password u.password_hash) u.is_active t))
          | inr f ↦ absurd (no_result (rw f at h).1)
        ]

        only :
            IsOk (
              login_as hash_secret digest verify_password settings limits redis now draw
                (normalize_email email)
                password
                req
                st
                r)
            → MayLogin email password req st r
        only h =
            elim (Bool-cases
              (is_limited digest redis limits r (normalize_email email) (host_of req.source_ip))) [
                | inl t ↦ absurd (no_result (rw t at h).1)
                | inr f ↦
                    (f, of_user (get_by_email (normalize_email email) st.users) refl (rw f at h))
              ]

        enough :
            MayLogin email password req st r
            → IsOk (
                login_as hash_secret digest verify_password settings limits redis now draw
                  (normalize_email email)
                  password
                  req
                  st
                  r)
        enough (f, (u, (e, (p, q)))) = rw (f, e, p, q) (_, refl)
