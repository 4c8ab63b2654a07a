-- ===== src/Auth/Limiter.antt =====
-- backend/app/security/rate_limit.py: counters of attempts. Redis is an interface; `count` is
-- `int(value or 0)` of the key.
use ai_soc.Base.{ℕ, ◌+◌, ◌≡◌, ◌≢◌, Bool, ◌||◌, ◌++◌, leb, nat_eq, if◌then◌else◌}
use ai_soc.Base.Text.{Text, codes}

pub record Redis (R : Type 0) : Type 0 where
  pub count : R → Text → ℕ
  pub incr : R → Text → R
  pub expire : R → Text → ℕ → R
  pub delete : R → Text → R

-- What Redis documents, for as long as no key expires.
pub record IsRedis {R : Type 0} (redis : Redis R) : Type 0 where
  pub count-incr : (r : R) (k : Text) → redis.count (redis.incr r k) k ≡ redis.count r k + 1
  pub count-incr_other :
      (r : R) (k k' : Text) → k ≢ k' → redis.count (redis.incr r k) k' ≡ redis.count r k'
  pub count-expire :
      (r : R) (k k' : Text) (seconds : ℕ)
      → redis.count (redis.expire r k seconds) k' ≡ redis.count r k'

pub record Limits : Type 0 where
  pub auth_login_account_limit : ℕ
  pub auth_login_ip_limit : ℕ
  pub auth_login_window_seconds : ℕ

-- The keys, on the digest of their value.
module _ (digest : Text → Text) where
  abbrev pub account_key : Text → Text
  account_key email = codes "ai_soc:auth:account:" ++ digest email

  abbrev pub ip_key : Text → Text
  ip_key source_ip = codes "ai_soc:auth:ip:" ++ digest source_ip

  abbrev pub register_ip_key : Text → Text
  register_ip_key source_ip = codes "ai_soc:auth:register_ip:" ++ digest source_ip

  module _ {R : Type 0} (redis : Redis R) (limits : Limits) where
    unfoldable pub is_limited : R → Text → Text → Bool
    is_limited r email source_ip =
        leb limits.auth_login_account_limit (redis.count r (account_key email))
        || leb limits.auth_login_ip_limit (redis.count r (ip_key source_ip))

    -- The first attempt starts the window.
    unfoldable pub bump : R → Text → R
    bump r key =
        let r' = redis.incr r key in
        if nat_eq (redis.count r' key) 1
        then redis.expire r' key limits.auth_login_window_seconds
        else r'

    unfoldable pub record_failure : R → Text → Text → R
    record_failure r email source_ip = bump (bump r (account_key email)) (ip_key source_ip)

    unfoldable pub clear_account : R → Text → R
    clear_account r email = redis.delete r (account_key email)

    unfoldable pub is_register_limited : R → Text → Bool
    is_register_limited r source_ip = leb 5 (redis.count r (register_ip_key source_ip))

    unfoldable pub record_register_attempt : R → Text → R
    record_register_attempt r source_ip = bump r (register_ip_key source_ip)
