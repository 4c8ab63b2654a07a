-- ===== src/Auth/Users/LastAdmin.antt =====
-- backend/app/services/user_service.py: a change of a user leaves an active administrator.
use ai_soc.Base.{
  some_inj, find-IsIn, ℕ, suc, ◌+◌, ◌≤◌, ◌≡◌, refl, sym, ap, ◌∙◌, subst, inl, inr, Bool, true,
  false, ◌||◌, ◌&&◌, String, List, [], ◌∷◌, Option, none, some, arith, leb, nat_eq, ◌==◌, ==_iff,
  ℕ-equality, String-equality, Bool-cases,
}
use ai_soc.Base.Sort.{count_if}
use ai_soc.Models.{User}
use ai_soc.Auth.Service.{State, get_user, put_user, record_audit}
use ai_soc.Auth.Users.{
  UserUpdate, is_active_admin, active_admin_count, removes_admin, other_role, deactivates, or_kept,
  updated, update_found, update,
}

-- The table's primary key.
abbrev pub IsKeyed : List User → Type 0
IsKeyed users = (id : ℕ) → count_if (λ (u : User). nat_eq u.id id) users ≤ 1

count-put_user :
    (p : User → Bool) (u : User) (users : List User)
    → count_if p users
      ≤ count_if p (put_user u users) + count_if (λ (v : User). nat_eq v.id u.id) users
unfolding put_user
count-put_user p u [] = omega arith
count-put_user p u (v ∷ users) = ground (arith, count-put_user p u users)

count-put_user_kept :
    (p : User → Bool) (u : User) (users : List User)
    → p u ≡ true
    → count_if p users ≤ count_if p (put_user u users)
unfolding put_user
count-put_user_kept p u [] h = omega arith
count-put_user_kept p u (v ∷ users) h = ground (arith, count-put_user_kept p u users h)

count-put_user_absent :
    (p : User → Bool) (u : User) (users : List User)
    → count_if (λ (v : User). nat_eq v.id u.id) users ≡ 0
    → count_if p users ≤ count_if p (put_user u users)
unfolding put_user
count-put_user_absent p u [] h = omega arith
count-put_user_absent p u (v ∷ users) h = ground (arith, h, count-put_user_absent p u users)

count-put_user_other :
    (p : User → Bool) (u u' : User) (users : List User)
    → get_user u'.id users ≡ some u
    → p u ≡ false
    → count_if (λ (v : User). nat_eq v.id u'.id) users ≤ 1
    → count_if p users ≤ count_if p (put_user u' users)
unfolding put_user get_user
count-put_user_other p u u' [] e h k = omega arith
count-put_user_other p u u' (v ∷ users) e h k = elim (Bool-cases (v.id == u'.id)) [
  | inl t ↦
      let same : v ≡ u = some_inj (rw t at e) in
      let pv : p v ≡ false = ap p same ∙ h in
      let rest = count-put_user_absent p u' users (nothing_left (rw t at k)) in
      rw t (rw pv (ground (arith, rest)))
  | inr f ↦ rw f (ground (arith, count-put_user_other p u u' users (rw f at e) h (rw f at k)))
]
  where
    nothing_left : {n : ℕ} → suc n ≤ 1 → n ≡ 0
    nothing_left m = omega (arith, m)

get_user-id : (id : ℕ) (users : List User) (u : User) → get_user id users ≡ some u → u.id ≡ id
unfolding get_user
get_user-id id users u e = (==_iff u.id id).0 (find-IsIn (λ (v : User). v.id == id) users u e).1

-- If a user was an active administrator and the change does not remove that, it still is one.
updated-keeps :
    (now : ℕ) (payload : UserUpdate) (u : User)
    → removes_admin u payload ≡ false
    → is_active_admin u ≡ true
    → is_active_admin (updated now payload u) ≡ true
updated-keeps now payload u h a = by_parts payload.role_name payload.is_active h
  where
    by_parts :
        (role : Option String) (active : Option Bool)
        → (u.role_name == "admin" && (other_role role || deactivates active)) ≡ false
        → (or_kept role u.role_name == "admin" && or_kept active u.is_active) ≡ true
    by_parts none none h' = a
    by_parts none (some true) h' = ground (arith, a, h')
    by_parts none (some false) h' = ground (arith, a, h')
    by_parts (some role) none h' = ground (arith, a, h')
    by_parts (some role) (some true) h' = ground (arith, a, h')
    by_parts (some role) (some false) h' = ground (arith, a, h')

-- When no user is there twice, a change of a user leaves an active administrator if there was one,
-- whether it is refused or not.
pub update_keeps_admin :
    (now id : ℕ) (payload : UserUpdate) (actor : User) (st : State)
    → IsKeyed st.users
    → 1 ≤ active_admin_count st.users
    → 1 ≤ active_admin_count (update now id payload actor st).0.users
unfolding update active_admin_count record_audit
update_keeps_admin now id payload actor st keyed some_admin = by_row (get_user id st.users) refl
  where
    AfterWrite : User → Type 0
    AfterWrite u = 1 ≤ count_if is_active_admin (put_user (updated now payload u) st.users)

    found_id : (u : User) → get_user id st.users ≡ some u → u.id ≡ id
    found_id u e = get_user-id id st.users u e

    kept :
        (u : User) → get_user id st.users ≡ some u → removes_admin u payload ≡ false → AfterWrite u
    kept u e f = elim (Bool-cases (is_active_admin u)) [
      | inl a ↦ omega (
        arith,
        some_admin,
        count-put_user_kept is_active_admin (updated now payload u) st.users
            (updated-keeps now payload u f a),
      )
      | inr n ↦ omega (
        arith,
        some_admin,
        count-put_user_other is_active_admin u (updated now payload u) st.users
            (subst (λ k. get_user k st.users ≡ some u) (sym (found_id u e)) e) n (keyed u.id),
      )
    ]

    by_row :
        (o : Option User)
        → get_user id st.users ≡ o
        → 1 ≤ active_admin_count (update_found now payload actor st o).0.users
    by_row none e = some_admin
    by_row (some u) e = elim (Bool-cases (removes_admin u payload)) [
      | inr f ↦ rw f (kept u e f)
      | inl t ↦ elim (Bool-cases (leb (count_if is_active_admin st.users) 1)) [
        | inl few ↦ rw (t, few) some_admin
        | inr many ↦
            rw (t, many)
              (omega (
                arith,
                at_least_two many,
                count-put_user is_active_admin (updated now payload u) st.users,
                keyed u.id,
              ))
      ]
    ]
      where
        at_least_two :
            leb (count_if is_active_admin st.users) 1 ≡ false
            → 2 ≤ count_if is_active_admin st.users
        at_least_two many = ground arith
