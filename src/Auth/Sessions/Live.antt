-- ===== src/Auth/Sessions/Live.antt =====
-- How many live sessions each operation leaves in a family.
use ai_soc.Base.{
  ℕ, suc, ◌+◌, ◌≤◌, ◌≡◌, refl, true, false, List, [], ◌∷◌, some, arith, ℕ-equality, if◌then◌else◌,
}
use ai_soc.Models.{AuthSession}
use ai_soc.Auth.Sessions.{
  is_live, create, get_for_update, family_is_active, revoke_family, revoke_user, rotate, rotated,
}

unfoldable pub live_count : ℕ → List AuthSession → ℕ
live_count family [] = 0
live_count family (s ∷ ss) =
    let rest = live_count family ss in if is_live family s then suc rest else rest

pub live_count-create :
    (family : ℕ) (s : AuthSession) (ss : List AuthSession)
    → live_count family (create s ss)
      ≡ (if is_live family s then live_count family ss + 1 else live_count family ss)
unfolding live_count create
live_count-create family s [] = ground arith
live_count-create family s (t ∷ ss) = ground (arith, live_count-create family s ss)

pub live_count-revoke_family_self :
    (now family : ℕ) (ss : List AuthSession) → live_count family (revoke_family now family ss) ≡ 0
unfolding live_count revoke_family
live_count-revoke_family_self now family [] = refl
live_count-revoke_family_self now family (s ∷ ss) =
    ground (arith, live_count-revoke_family_self now family ss)

pub live_count-revoke_family-le :
    (now family g : ℕ) (ss : List AuthSession)
    → live_count g (revoke_family now family ss) ≤ live_count g ss
unfolding live_count revoke_family
live_count-revoke_family-le now family g [] = omega arith
live_count-revoke_family-le now family g (s ∷ ss) =
    ground (arith, live_count-revoke_family-le now family g ss)

pub live_count-revoke_user-le :
    (now user g : ℕ) (ss : List AuthSession)
    → live_count g (revoke_user now user ss) ≤ live_count g ss
unfolding live_count revoke_user
live_count-revoke_user-le now user g [] = omega arith
live_count-revoke_user-le now user g (s ∷ ss) =
    ground (arith, live_count-revoke_user-le now user g ss)

pub live_count-rotate-le :
    (now id replacement g : ℕ) (ss : List AuthSession)
    → live_count g (rotate now id replacement ss) ≤ live_count g ss
unfolding live_count rotate
live_count-rotate-le now id replacement g [] = omega arith
live_count-rotate-le now id replacement g (s ∷ ss) =
    ground (arith, live_count-rotate-le now id replacement g ss)

-- Rotating a live session leaves one live session less in its family.
pub live_count-rotate :
    (now id replacement g : ℕ) (ss : List AuthSession) (s : AuthSession)
    → get_for_update id ss ≡ some s
    → is_live g s ≡ true
    → live_count g (rotate now id replacement ss) + 1 ≤ live_count g ss
unfolding live_count rotate get_for_update
live_count-rotate now id replacement g [] s found live = cc
live_count-rotate now id replacement g (t ∷ ss) s found live = ground (
  arith,
  live_count-rotate now id replacement g ss s,
  live_count-rotate-le now id replacement g ss,
)

-- A family with no live session is not active, at any time.
pub family_is_active-dead :
    (now family : ℕ) (ss : List AuthSession)
    → live_count family ss ≡ 0
    → family_is_active now family ss ≡ false
unfolding live_count family_is_active
family_is_active-dead now family [] h = refl
family_is_active-dead now family (s ∷ ss) h = ground (arith, family_is_active-dead now family ss)

-- The session that was presented is found again after the rotation, revoked.
pub get_for_update-rotate :
    (now id replacement : ℕ) (ss : List AuthSession) (s : AuthSession)
    → get_for_update id ss ≡ some s
    → get_for_update id (rotate now id replacement ss) ≡ some (rotated now replacement s)
unfolding get_for_update rotate
get_for_update-rotate now id replacement [] s found = cc
get_for_update-rotate now id replacement (t ∷ ss) s found =
    ground (arith, get_for_update-rotate now id replacement ss s)

pub get_for_update-create :
    (id : ℕ) (ss : List AuthSession) (row s : AuthSession)
    → get_for_update id ss ≡ some s
    → get_for_update id (create row ss) ≡ some s
unfolding get_for_update create
get_for_update-create id [] row s found = cc
get_for_update-create id (t ∷ ss) row s found = ground (arith, get_for_update-create id ss row s)

pub get_for_update-id :
    (id : ℕ) (ss : List AuthSession) (s : AuthSession) → get_for_update id ss ≡ some s → s.id ≡ id
unfolding get_for_update
get_for_update-id id [] s found = cc
get_for_update-id id (t ∷ ss) s found = ground (arith, get_for_update-id id ss s)
