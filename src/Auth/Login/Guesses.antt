-- ===== src/Auth/Login/Guesses.antt =====
-- backend/app/services/auth_service.py, backend/app/security/rate_limit.py: how many wrong passwords
-- an account gets in one window.
use ai_soc.Base.{
  ℕ, zero, suc, ◌+◌, ◌-◌, ◌≤◌, ◌≡◌, ap, ◌∙◌, ◌≢◌, inl, inr, Bool, false, List, [], ◌∷◌, Option,
  none, some, arith, nat_eq, Bool-cases, Result, ok, err,
}
use ai_soc.Base.Text.{Text}
use ai_soc.Models.{User}
use ai_soc.Auth.Service.{
  State, Request, Settings, Draw, AuthenticationResult, AuthError, refresh_token_error,
  invalid_credentials, login_rate_limited, user_already_exists,
}
use ai_soc.Auth.Limiter.{
  Redis, IsRedis, Limits, account_key, ip_key, is_limited, bump, record_failure,
}
use ai_soc.Auth.Login.{
  normalize_email, get_by_email, host_of, opens, login_failed, check_user, login_as, login,
}

pub record Attempt : Type 0 where
  pub now : ℕ
  pub draw : Draw
  pub password : Text
  pub request : Request

-- One more wrong password; a success ends the count.
abbrev add_guess : Result AuthError AuthenticationResult → ℕ → ℕ
add_guess (ok r) n = 0
add_guess (err invalid_credentials) n = suc n
add_guess (err refresh_token_error) n = n
add_guess (err login_rate_limited) n = n
add_guess (err user_already_exists) n = n

code_at : ℕ → Text → ℕ
code_at n [] = 0
code_at zero (c ∷ s) = c
code_at (suc n) (c ∷ s) = code_at n s

-- The keys of accounts and of addresses are apart.
ip_key_differs :
    (digest : Text → Text) (email source_ip : Text)
    → ip_key digest source_ip ≢ account_key digest email
unfolding code_at
ip_key_differs digest email source_ip e =
    let letters : 105 ≡ 97 = ap (code_at 12) e in absurd (omega (arith, letters))

module _ (hash_secret digest : Text → Text) (verify_password : Text → Text → Bool)
    (settings : Settings) (limits : Limits) where
  module _ {R : Type 0} (redis : Redis R) where
    -- The wrong passwords among a sequence of attempts on one address of mail, up to the first success.
    unfoldable pub guesses : Text → List Attempt → State → R → ℕ
    guesses email [] st r = 0
    guesses email (a ∷ attempts) st r =
        let ((st', r'), result) =
          login hash_secret digest verify_password settings limits redis a.now a.draw email
            a.password a.request st r in
        add_guess result (guesses email attempts st' r')

    module _ (laws : IsRedis redis) where
      count-bump :
          (r : R) (k : Text) → redis.count (bump digest redis limits r k) k ≡ redis.count r k + 1
      unfolding bump
      count-bump r k = elim (Bool-cases (nat_eq (redis.count (redis.incr r k) k) 1)) [
        | inl t ↦ rw t (
            laws.count-expire (redis.incr r k) k k limits.auth_login_window_seconds
            ∙ laws.count-incr r k)
        | inr f ↦ rw f (laws.count-incr r k)
      ]

      count-bump_other :
          (r : R) (k k' : Text)
          → k ≢ k'
          → redis.count (bump digest redis limits r k) k' ≡ redis.count r k'
      unfolding bump
      count-bump_other r k k' n = elim (Bool-cases (nat_eq (redis.count (redis.incr r k) k) 1)) [
        | inl t ↦ rw t (
            laws.count-expire (redis.incr r k) k k' limits.auth_login_window_seconds
            ∙ laws.count-incr_other r k k' n)
        | inr f ↦ rw f (laws.count-incr_other r k k' n)
      ]

      count-record_failure :
          (r : R) (email source_ip : Text)
          → redis.count
              (record_failure digest redis limits r email source_ip)
              (account_key digest email)
            ≡ redis.count r (account_key digest email) + 1
      unfolding record_failure
      count-record_failure r email source_ip =
          count-bump_other (bump digest redis limits r (account_key digest email))
            (ip_key digest source_ip) (account_key digest email)
            (ip_key_differs digest email source_ip)
          ∙ count-bump r (account_key digest email)

      -- An outcome leaves room for at most the attempts that the limit allows.
      KeepsLimit : Text → R → (State × R) × Result AuthError AuthenticationResult → Type 0
      KeepsLimit email r o =
          (n : ℕ)
          → n ≤ limits.auth_login_account_limit - redis.count o.0.1 (account_key digest email)
          → add_guess o.1 n
            ≤ limits.auth_login_account_limit - redis.count r (account_key digest email)

      login_as-KeepsLimit :
          (a : Attempt) (email : Text) (st : State) (r : R)
          → KeepsLimit email r (
              login_as hash_secret digest verify_password settings limits redis a.now a.draw email
                a.password a.request st r)
      unfolding KeepsLimit is_limited
      login_as-KeepsLimit a email st r =
          elim (Bool-cases (is_limited digest redis limits r email (host_of a.request.source_ip))) [
            | inl t ↦ rw t (λ n h. h)
            | inr f ↦ rw f (by_user (below f) (get_by_email email st.users))
          ]
        where
          below :
              is_limited digest redis limits r email (host_of a.request.source_ip) ≡ false
              → redis.count r (account_key digest email) + 1 ≤ limits.auth_login_account_limit
          below f = ground arith

          wrong :
              redis.count r (account_key digest email) + 1 ≤ limits.auth_login_account_limit
              → (u : Option User)
              → KeepsLimit email r (
                  login_failed hash_secret digest verify_password settings limits redis email
                    (host_of a.request.source_ip)
                    u
                    st
                    r)
          wrong b u n h =
              omega (arith, b, h, count-record_failure r email (host_of a.request.source_ip))

          by_user :
              redis.count r (account_key digest email) + 1 ≤ limits.auth_login_account_limit
              → (u : Option User)
              → KeepsLimit email r (
                  check_user hash_secret digest verify_password settings limits redis a.now a.draw
                    email a.password u a.request st r)
          by_user b none = wrong b none
          by_user b (some u) = elim (Bool-cases (opens verify_password a.password (some u))) [
            | inl t ↦ rw t (λ n h. omega arith)
            | inr f ↦ rw f (wrong b (some u))
          ]

      -- While no key of the limiter expires, the attempts on an account meet at most as many wrong
      -- passwords before the first success as its limit has left.
      pub guesses_bounded :
          (email : Text) (attempts : List Attempt) (st : State) (r : R)
          → guesses email attempts st r
            ≤ limits.auth_login_account_limit
              - redis.count r (account_key digest (normalize_email email))
      unfolding guesses login KeepsLimit
      guesses_bounded email [] st r = omega arith
      guesses_bounded email (a ∷ attempts) st r =
          let o =
            login_as hash_secret digest verify_password settings limits redis a.now a.draw
              (normalize_email email) a.password a.request st r in
          login_as-KeepsLimit a (normalize_email email) st r (guesses email attempts o.0.0 o.0.1)
            (guesses_bounded email attempts o.0.0 o.0.1)
