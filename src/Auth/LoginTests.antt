-- ===== src/Auth/LoginTests.antt =====
-- Runs of login and of the changes of users, and their theorems at concrete inputs.
use ai_soc.Base.{
  ℕ, ◌+◌, ◌-◌, ◌≤◌, ◌≡◌, refl, ◌↔◌, inl, inr, Bool, true, [], ◌∷◌, ◌++◌, none, some, arith, ◌==◌,
  ==_iff, ==_refl, Text-equality, if◌then◌else◌, Bool-cases, err, text_eq,
}
use ai_soc.Base.Text.{Text, codes, lower, strip, lstrip, is_space, lower_code}
use ai_soc.Models.{User}
use ai_soc.Auth.Service.{State, Request, Settings, Draw, get_user, record_audit}
use ai_soc.Auth.Limiter.{Redis, IsRedis, Limits, account_key, is_limited, bump, record_failure}
use ai_soc.Auth.Login.{normalize_email, get_by_email, login}
use ai_soc.Auth.Login.Entry.{IsOk, MayLogin, login_exact}
use ai_soc.Auth.Login.Guesses.{Attempt, guesses, guesses_bounded}
use ai_soc.Auth.Users.{UserUpdate, last_admin, active_admin_count, update}
use ai_soc.Auth.Users.LastAdmin.{IsKeyed, update_keeps_admin}

abbrev digest : Text → Text
digest s = codes "#" ++ s

abbrev check : Text → Text → Bool
check password hash = hash == digest password

abbrev settings : Settings
settings = record { auth_access_token_minutes = 15; auth_refresh_token_days = 7 }

abbrev limits : Limits
limits = record {
  auth_login_account_limit = 2;
  auth_login_ip_limit = 50;
  auth_login_window_seconds = 900;
}

-- Counters as a function.
abbrev memory : Redis (Text → ℕ)
memory = record {
  count = λ r k. r k;
  incr = λ r k k'. if k == k' then r k' + 1 else r k';
  expire = λ r k seconds. r;
  delete = λ r k k'. if k == k' then 0 else r k';
}

memory-IsRedis : IsRedis memory
memory-IsRedis = record {
  count-incr = λ r k. rw (==_refl k) refl;
  count-incr_other = λ r k k' n. elim (Bool-cases (k == k')) [
    | inl t ↦ absurd (n ((==_iff k k').0 t))
    | inr f ↦ rw f refl
  ];
  count-expire = λ r k k' seconds. refl;
}

abbrev empty : Text → ℕ
empty k = 0

abbrev root : User
root = record {
  id = 1;
  email = codes "root@example.com";
  full_name = codes "Root";
  password_hash = codes "#secret";
  role_name = "admin";
  is_active = true;
  last_login_at = none;
  credentials_changed_at = 0;
  created_by = none;
  updated_at = 0;
}

abbrev start : State
start = record { users = root ∷ []; sessions = []; api_keys = []; audit = [] }

abbrev request : Request
request = record { source_ip = some (codes "203.0.113.9"); user_agent = codes "curl" }

abbrev draw : Draw
draw = record { session_id = 2; family_id = 3; secret = codes "s" }

abbrev typed : Text
typed = codes " Root@Example.com"

login_exact_example :
    IsOk digest digest check settings limits memory (
      login digest digest check settings limits memory 50 draw typed
        (codes "secret")
        request
        start
        empty)
    ↔ MayLogin digest digest check settings limits memory typed (codes "secret") request start empty
login_exact_example =
    login_exact digest digest check settings limits memory 50 draw typed (codes "secret") request
      start empty

normalize_run : normalize_email typed ≡ root.email
unfolding normalize_email strip lstrip is_space lower lower_code
normalize_run = refl

abbrev wrong : Attempt
wrong = record { now = 50; draw = draw; password = codes "guess"; request = request }

-- The third attempt is refused before its password is looked at.
guesses_run :
    guesses digest digest check settings limits memory
      (codes "a")
      (wrong ∷ wrong ∷ wrong ∷ [])
      start
      empty
    ≡ 2
unfolding guesses login is_limited record_failure bump normalize_email strip lstrip is_space lower
    lower_code get_by_email record_audit text_eq
guesses_run = refl

guesses_bounded_example :
    guesses digest digest check settings limits memory
      (codes "a")
      (wrong ∷ wrong ∷ wrong ∷ [])
      start
      empty
    ≤ 2 - memory.count empty (account_key digest (normalize_email (codes "a")))
guesses_bounded_example =
    guesses_bounded digest digest check settings limits memory memory-IsRedis (codes "a")
      (wrong ∷ wrong ∷ wrong ∷ []) start empty

abbrev demotion : UserUpdate
demotion = record { full_name = none; role_name = some "viewer"; is_active = none }

update_run : update 60 1 demotion root start ≡ (start, err last_admin)
unfolding update get_user active_admin_count
update_run = refl

root-IsKeyed : IsKeyed (root ∷ [])
root-IsKeyed id = ground arith

one_admin : 1 ≤ active_admin_count start.users
unfolding active_admin_count
one_admin = omega arith

update_keeps_admin_example : 1 ≤ active_admin_count (update 60 1 demotion root start).0.users
update_keeps_admin_example = update_keeps_admin 60 1 demotion root start root-IsKeyed one_admin
