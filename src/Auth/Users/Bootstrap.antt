-- ===== src/Auth/Users/Bootstrap.antt =====
-- backend/app/services/bootstrap_service.py: the first administrator.
use ai_soc.Base.{
  err_ne_ok, ℕ, ◌≤◌, ◌≡◌, inl, inr, Bool, true, List, [], ◌∷◌, IsIn, find-IsIn, Option-cases,
  Bool-cases, arith, ok, ◌==◌, String-equality, Text-equality,
}
use ai_soc.Base.Text.{Text}
use ai_soc.Base.Sort.{count_if, count_if-append}
use ai_soc.Models.{User}
use ai_soc.Auth.Service.{State}
use ai_soc.Auth.Login.{normalize_email, get_by_email}
use ai_soc.Auth.Users.{is_active_admin, active_admin_count, first_admin, create_first_admin}

IsIn-count :
    (p : User → Bool) (u : User) (users : List User)
    → IsIn u users
    → p u ≡ true
    → 1 ≤ count_if p users
IsIn-count p u [] m h = absurd m
IsIn-count p u (v ∷ users) (inl same) h = let first : p v ≡ true = cc in rw first (omega arith)
IsIn-count p u (v ∷ users) (inr m) h = ground (arith, IsIn-count p u users m h)

-- If the bootstrap raises nothing, an active administrator is there afterwards.
pub create_first_admin-leaves_admin :
    (hash_password : ℕ → Text → Text) (now fresh salt : ℕ) (email full_name password : Text)
    (st : State) (made : Bool)
    → (create_first_admin hash_password now fresh salt email full_name password st).1 ≡ ok made
    → 1
      ≤ active_admin_count
          (create_first_admin hash_password now fresh salt email full_name password st).0.users
unfolding create_first_admin active_admin_count get_by_email
create_first_admin-leaves_admin hash_password now fresh salt email full_name password st made h =
    elim (Option-cases (get_by_email (normalize_email email) st.users)) [
      | inl missing ↦
          rw missing (rw (count_if-append is_active_admin st.users (u ∷ [])) (omega arith))
      | inr (existing, found) ↦ elim (Bool-cases (is_active_admin existing)) [
        | inl admin ↦
            rw (found, admin)
              (IsIn-count is_active_admin existing st.users
                (find-IsIn (λ v. v.email == normalize_email email) st.users existing found).0 admin)
        | inr other ↦ absurd (err_ne_ok (rw (found, other) at h))
      ]
    ]
  where
    u : User
    u = first_admin hash_password now fresh salt email full_name password
