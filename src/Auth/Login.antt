-- ===== src/Auth/Login.antt =====
-- backend/app/services/auth_service.py: `login` and `register`, with the counters of the limiter.
-- `casefold` maps the ASCII letters.
pub mod Entry
pub mod Guesses
use ai_soc.Base.{
  ℕ, Bool, true, false, not, ◌||◌, ◌&&◌, String, List, [], ◌∷◌, ◌++◌, Option, none, some, find,
  ◌==◌, Text-equality, if◌then◌else◌, Result, ok, err,
}
use ai_soc.Base.Text.{Text, codes, strip, lower}
use ai_soc.Models.{User}
use ai_soc.Auth.Service.{
  State, Request, Settings, Draw, AuthenticationResult, AuthError, invalid_credentials,
  login_rate_limited, user_already_exists, put_user, record_audit, entry_of, user_entry,
  new_session,
}
use ai_soc.Auth.Limiter.{
  Redis, Limits, is_limited, record_failure, clear_account, is_register_limited,
  record_register_attempt,
}

unfoldable pub normalize_email : Text → Text
normalize_email email = lower (strip email)

unfoldable pub get_by_email : Text → List User → Option User
get_by_email email users = find (λ u. u.email == email) users

-- `request.client.host if request.client else "unknown"`
abbrev pub host_of : Option Text → Text
host_of none = codes "unknown"
host_of (some ip) = ip

-- Whether a password opens an account; without one the dummy hash is verified in vain.
abbrev pub opens : (Text → Text → Bool) → Text → Option User → Bool
opens verify_password password none = false
opens verify_password password (some u) = verify_password password u.password_hash && u.is_active

abbrev pub id_of : Option User → Option ℕ
id_of none = none
id_of (some u) = some u.id

module _ (hash_secret digest : Text → Text) (verify_password : Text → Text → Bool)
    (settings : Settings) (limits : Limits) where
  module _ {R : Type 0} (redis : Redis R) where
    abbrev Outcome : Type 0
    Outcome = (State × R) × Result AuthError AuthenticationResult

    abbrev pub login_failed : Text → Text → Option User → State → R → Outcome
    login_failed email source_ip u st r = (
      (
        record_audit (entry_of "auth.login" "failure" "anonymous" (id_of u) (some email)) st,
        record_failure digest redis limits r email source_ip,
      ),
      err invalid_credentials,
    )

    abbrev pub logged_in : ℕ → Draw → Text → User → Request → State → R → Outcome
    logged_in now draw email u req st r =
        let (opened, result) = new_session hash_secret settings now draw u req st in
        let seen = record u { last_login_at = some now; updated_at = now } in
        (
          (
            record_audit (user_entry "auth.login" "success" u)
                (record opened { users = put_user seen opened.users }),
            clear_account digest redis limits r email,
          ),
          ok result,
        )

    abbrev pub check_user : ℕ → Draw → Text → Text → Option User → Request → State → R → Outcome
    check_user now draw email password none req st r =
        login_failed email (host_of req.source_ip) none st r
    check_user now draw email password (some u) req st r =
        if not (opens verify_password password (some u))
        then login_failed email (host_of req.source_ip) (some u) st r
        else logged_in now draw email u req st r

    abbrev pub login_as : ℕ → Draw → Text → Text → Request → State → R → Outcome
    login_as now draw email password req st r =
        if is_limited digest redis limits r email (host_of req.source_ip)
        then (
          (record_audit (entry_of "auth.login" "rate_limited" "anonymous" none (some email)) st, r),
          err login_rate_limited,
        )
        else check_user now draw email password (get_by_email email st.users) req st r

    unfoldable pub login : ℕ → Draw → Text → Text → Request → State → R → Outcome
    login now draw email password req st r =
        login_as now draw (normalize_email email) password req st r

    -- The row of a registered user; `fresh` is its identifier.
    abbrev pub registered : ℕ → ℕ → Text → Text → Text → User
    registered now fresh email full_name hashed = record {
      id = fresh;
      email = email;
      full_name = strip full_name;
      password_hash = hashed;
      role_name = "analyst";
      is_active = true;
      last_login_at = some now;
      credentials_changed_at = now;
      created_by = none;
      updated_at = now;
    }

    abbrev pub register_new : ℕ → Draw → User → Request → State → R → Option User → Outcome
    register_new now draw u req st r (some other) = (
      (record_audit (entry_of "auth.register" "failure" "anonymous" none (some u.email)) st, r),
      err user_already_exists,
    )
    register_new now draw u req st r none =
        let (opened, result) =
          new_session hash_secret settings now draw u req
            (record st { users = st.users ++ u ∷ [] }) in
        ((record_audit (user_entry "auth.register" "success" u) opened, r), ok result)

    abbrev pub register_as : ℕ → Draw → User → Request → State → R → Outcome
    register_as now draw u req st r =
        if is_register_limited digest redis limits r (host_of req.source_ip)
        then (
          (
            record_audit (entry_of "auth.register" "rate_limited" "anonymous" none (some u.email))
                st,
            r,
          ),
          err login_rate_limited,
        )
        else register_new now draw u req st
            (record_register_attempt digest redis limits r (host_of req.source_ip))
            (get_by_email u.email st.users)

    unfoldable pub register :
        (ℕ → Text → Text) → ℕ → ℕ → ℕ → Draw → Text → Text → Text → Request → State → R → Outcome
    register hash_password now fresh salt draw email full_name password req st r =
        register_as now draw
          (registered now fresh (normalize_email email) full_name (hash_password salt password)) req
          st r
