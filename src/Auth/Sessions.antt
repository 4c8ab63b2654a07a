-- ===== src/Auth/Sessions.antt =====
-- backend/app/repositories/auth_repository.py, `AuthSessionRepository`: a session belongs to a
-- family, which begins at a login; each refresh replaces a session of the family by a new one.
pub mod Live
use ai_soc.Base.{
  ℕ, suc, ◌≡◌, Bool, true, false, not, ◌&&◌, ◌||◌, List, [], ◌∷◌, ◌++◌, Option, none, some, map,
  ltb, leb, find, any, ◌==◌, ℕ-equality, if◌then◌else◌,
}
use ai_soc.Models.{AuthSession}

abbrev pub is_none {ℓ} : {A : Type ℓ} → Option A → Bool
is_none none = true
is_none (some a) = false

-- A session of the family that is not revoked.
abbrev pub is_live : ℕ → AuthSession → Bool
is_live family s = s.family_id == family && is_none s.revoked_at

abbrev pub revoked : ℕ → AuthSession → AuthSession
revoked now s = record s { revoked_at = some now }

unfoldable pub create : AuthSession → List AuthSession → List AuthSession
create s ss = ss ++ s ∷ []

unfoldable pub get_for_update : ℕ → List AuthSession → Option AuthSession
get_for_update id ss = find (λ s. s.id == id) ss

unfoldable pub family_is_active : ℕ → ℕ → List AuthSession → Bool
family_is_active now family ss = any (λ s. is_live family s && ltb now s.expires_at) ss

unfoldable pub revoke_family : ℕ → ℕ → List AuthSession → List AuthSession
revoke_family now family ss = map (λ s. if is_live family s then revoked now s else s) ss

unfoldable pub revoke_user : ℕ → ℕ → List AuthSession → List AuthSession
revoke_user now user ss =
    map (λ s. if s.user_id == user && is_none s.revoked_at then revoked now s else s) ss

-- The assignments of `refresh` to the session that it replaces.
abbrev pub rotated : ℕ → ℕ → AuthSession → AuthSession
rotated now replacement s = record s {
  revoked_at = some now;
  last_used_at = some now;
  replaced_by_id = some replacement;
}

unfoldable pub rotate : ℕ → ℕ → ℕ → List AuthSession → List AuthSession
rotate now id replacement ss = map (λ s. if s.id == id then rotated now replacement s else s) ss
