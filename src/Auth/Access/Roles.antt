-- ===== src/Auth/Access/Roles.antt =====
-- What the roles may do, and the check of a permission after that of the token.
use ai_soc.Base.{
  ℕ, ◌≡◌, sym, ap, subst, ◌⊎◌, ◌↔◌, ◌≢◌, String, some, arith, contains→IsIn, IsIn→contains, IsIn,
  ==_iff, String-equality, Text-equality, ℕ-equality, Result, ok, err,
}
use ai_soc.Models.{User}
use ai_soc.Auth.Service.{State, AccessToken}
use ai_soc.Auth.Access.{
  Permission, HttpError, get_current_user, check_permission, require_permission,
  permissions_for_role, and_then, responses_approve_tier2, responses_execute, users_manage,
  api_keys_manage, audit_verify, Permission-equality,
}
use ai_soc.Auth.Access.Guards.{IsAuthenticated, get_current_user_exact}

permission_iff :
    (p : Permission) (u : User) (st : State)
    → ((check_permission p u st).1 ≡ ok u) ↔ IsIn p (permissions_for_role u.role_name)
unfolding check_permission
permission_iff p u st = (
  λ h. contains→IsIn p (permissions_for_role u.role_name) (ground (arith, h)),
  λ h. rw (IsIn→contains p (permissions_for_role u.role_name) h),
)

checked_same :
    (p : Permission) (v u : User) (st : State) → (check_permission p v st).1 ≡ ok u → v ≡ u
unfolding check_permission
checked_same p v u st h = ground (arith, h)

and_then_ok :
    (p : Permission) (u : User) (r : State × Result HttpError User)
    → r.1 ≡ ok u
    → (check_permission p u r.0).1 ≡ ok u
    → (and_then (check_permission p) r).1 ≡ ok u
and_then_ok p u (st, err e) known permitted = absurd (cc)
and_then_ok p u (st, ok v) known permitted =
    let same : v ≡ u = cc in subst (λ w. (check_permission p w st).1 ≡ ok u) (sym same) permitted

and_then_inv :
    (p : Permission) (u : User) (r : State × Result HttpError User)
    → (and_then (check_permission p) r).1 ≡ ok u
    → (r.1 ≡ ok u) × ((check_permission p u r.0).1 ≡ ok u)
and_then_inv p u (st, err e) h = absurd (cc)
and_then_inv p u (st, ok v) h =
    let same : v ≡ u = checked_same p v u st h in
    (ap ok same, subst (λ w. (check_permission p w st).1 ≡ ok u) same h)

-- A request passes a check of permission exactly when it is authenticated and the role of its user
-- has the permission.
pub require_permission_exact :
    (p : Permission) (now : ℕ) (token : AccessToken) (st : State) (u : User)
    → ((require_permission p now (some token) st).1 ≡ ok u)
      ↔ (IsAuthenticated now token st u × IsIn p (permissions_for_role u.role_name))
unfolding require_permission
require_permission_exact p now token st u = (
  λ h.
      let (known, permitted) = and_then_inv p u (get_current_user now (some token) st) h in
      (
        (get_current_user_exact now token st u).0 known,
        (permission_iff p u (get_current_user now (some token) st).0).0 permitted,
      ),
  λ h.
      and_then_ok p u (get_current_user now (some token) st)
        ((get_current_user_exact now token st u).1 h.0)
        ((permission_iff p u (get_current_user now (some token) st).0).1 h.1),
)

-- The roles are ordered: what a viewer may do an analyst may, and what an analyst may an admin may.
-- Deciding on tier 2 actions, executing responses, managing users and keys, and verifying the audit
-- trail is for admins alone; a role of another name may do nothing.
pub role_order :
    (p : Permission)
    → (IsIn p (permissions_for_role "viewer") → IsIn p (permissions_for_role "analyst"))
      × (IsIn p (permissions_for_role "analyst") → IsIn p (permissions_for_role "admin"))
      × ((role : String)
          → IsIn p (permissions_for_role role)
          → role ≢ "admin"
          → (p ≢ responses_approve_tier2)
            × (p ≢ responses_execute)
            × (p ≢ users_manage)
            × (p ≢ api_keys_manage)
            × (p ≢ audit_verify)
            × ((role ≡ "viewer") ⊎ (role ≡ "analyst")))
unfolding permissions_for_role
role_order p = (
  λ h. ground arith,
  λ h. ground arith,
  λ role h other.
      ground (arith, (==_iff role "viewer"), (==_iff role "analyst"), (==_iff role "admin")),
)
