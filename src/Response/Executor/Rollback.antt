-- ===== src/Response/Executor/Rollback.antt =====
-- backend/app/response/executor.py: disabling a user ends the user's access, and the rollback
-- restores the account.
use ai_soc.Base.{
  if◌then◌else◌, some_inj, none_ne_some, true_ne_false, ℕ, ◌≡◌, refl, sym, ap, ◌∙◌, ◌⊎◌, inl, inr,
  Bool, true, false, List, [], ◌∷◌, Option, none, some, find, find-IsIn, IsIn, ◌==◌, ==_iff,
  ℕ-equality, Text-equality, Bool-cases, Option-cases, ok, err,
}
use ai_soc.Base.Text.{Text}
use ai_soc.Models.{User}
use ai_soc.Auth.Service
use ai_soc.Auth.Service.{AccessToken, get_user, put_user, record_audit}
use ai_soc.Auth.Login.{get_by_email}
use ai_soc.Auth.Access.{unauthorized, get_current_user}
use ai_soc.Response.Actions.{disable_user, ProposedAction}
use ai_soc.Base.Uuid.{parse_uuid}
use ai_soc.Response.Executor.{
  Denylist, ExecutionResult, by_id, or_user, find_user, disabled, set_active, execute, rollback,
  activity, deactivated, outcome_of, audited, disable_for, dispatch, undo, enable_for,
}

find-put_user :
    (p : User → Bool) (u c : User) (users : List User)
    → find p users ≡ some u
    → p c ≡ true
    → c.id ≡ u.id
    → find p (put_user c users) ≡ some c
unfolding put_user
find-put_user p u c [] e t same = absurd (none_ne_some e)
find-put_user p u c (v ∷ users) e t same = elim (Bool-cases (v.id == c.id)) [
  | inl here ↦ rw here (rw t refl)
  | inr there ↦ elim (Bool-cases (p v)) [
    | inl yes_v ↦
        let is_u : v ≡ u = some_inj (rw yes_v at e) in
        absurd (
          true_ne_false
            (sym ((==_iff v.id c.id).1 (ap (λ (x : User). x.id) is_u ∙ sym same)) ∙ there))
    | inr no_v ↦ rw (there, no_v) (find-put_user p u c users (rw no_v at e) t same)
  ]
]

find-put_user-none :
    (p : User → Bool) (c : User) (users : List User)
    → find p users ≡ none
    → p c ≡ false
    → find p (put_user c users) ≡ none
unfolding put_user
find-put_user-none p c [] e f = refl
find-put_user-none p c (v ∷ users) e f = elim (Bool-cases (p v)) [
  | inl t ↦ absurd (none_ne_some (sym (rw t at e)))
  | inr n ↦ elim (Bool-cases (v.id == c.id)) [
    | inl here ↦ rw here (rw f (find-put_user-none p c users (rw n at e) f))
    | inr there ↦ rw (there, n) (find-put_user-none p c users (rw n at e) f)
  ]
]

IsIn-find-none :
    (p : User → Bool) (a : User) (users : List User)
    → find p users ≡ none
    → IsIn a users
    → p a ≡ false
IsIn-find-none p a [] e m = absurd m
IsIn-find-none p a (v ∷ users) e m = elim (Bool-cases (p v)) [
  | inl t ↦ absurd (none_ne_some (sym (rw t at e)))
  | inr n ↦ elim m [
    | inl same ↦ sym (ap p same) ∙ n
    | inr k ↦ IsIn-find-none p a users (rw n at e) k
  ]
]

module _ (target : Text) (users : List User) where
  find_user-IsIn : (u : User) → find_user target users ≡ some u → IsIn u users
  unfolding find_user get_user get_by_email
  find_user-IsIn u e = by_uuid (parse_uuid target) e
    where
      by_row :
          (id : ℕ) (o : Option User)
          → find (λ (v : User). v.id == id) users ≡ o
          → or_user o (find (λ (v : User). v.email == target) users) ≡ some u
          → IsIn u users
      by_row id none f e' = (find-IsIn (λ (v : User). v.email == target) users u e').0
      by_row id (some w) f e' = (find-IsIn (λ (v : User). v.id == id) users u (f ∙ e')).0

      by_uuid :
          (o : Option ℕ)
          → or_user (by_id o users) (find (λ (v : User). v.email == target) users) ≡ some u
          → IsIn u users
      by_uuid none e' = (find-IsIn (λ (v : User). v.email == target) users u e').0
      by_uuid (some id) e' = by_row id (find (λ (v : User). v.id == id) users) refl e'

  -- A user that is found is found as the row that was written in its place.
  find_user-put_user :
      (u c : User)
      → c.id ≡ u.id
      → c.email ≡ u.email
      → find_user target users ≡ some u
      → find_user target (put_user c users) ≡ some c
  unfolding find_user get_user get_by_email
  find_user-put_user u c same mail e = by_uuid (parse_uuid target) e
    where
      by_mail :
          find (λ (v : User). v.email == target) users ≡ some u
          → find (λ (v : User). v.email == target) (put_user c users) ≡ some c
      by_mail e' =
          find-put_user (λ (v : User). v.email == target) u c users e'
            (ap (λ m. m == target) mail
              ∙ (find-IsIn (λ (v : User). v.email == target) users u e').1)
            same

      by_row :
          (id : ℕ) (o : Option User)
          → find (λ (v : User). v.id == id) users ≡ o
          → or_user o (find (λ (v : User). v.email == target) users) ≡ some u
          → or_user
              (find (λ (v : User). v.id == id) (put_user c users))
              (find (λ (v : User). v.email == target) (put_user c users))
            ≡ some c
      by_row id none f e' =
          rw
            (find-put_user-none (λ (v : User). v.id == id) c users f
              (ap (λ n. n == id) same
                ∙ IsIn-find-none (λ (v : User). v.id == id) u users f
                    (find-IsIn (λ (v : User). v.email == target) users u e').0))
            (by_mail e')
      by_row id (some w) f e' =
          rw
            (find-put_user (λ (v : User). v.id == id) u c users (f ∙ e')
              (ap (λ n. n == id) same ∙ (find-IsIn (λ (v : User). v.id == id) users u (f ∙ e')).1)
              same)
            refl

      by_uuid :
          (o : Option ℕ)
          → or_user (by_id o users) (find (λ (v : User). v.email == target) users) ≡ some u
          → or_user
              (by_id o (put_user c users))
              (find (λ (v : User). v.email == target) (put_user c users))
            ≡ some c
      by_uuid none e' = by_mail e'
      by_uuid (some id) e' = by_row id (find (λ (v : User). v.id == id) users) refl e'

module _ {R : Type 0} (redis : Option (Denylist R)) (a : ProposedAction) (label : Text) (id now : ℕ)
    (st : Service.State) (r : R) (u : User) (is_disable : a.action_type ≡ disable_user)
    (found : find_user a.target st.users ≡ some u) where
  abbrev after : Service.State
  after = (execute redis a label id now st r).0.0

  -- The result of the execution.
  abbrev pub result : ExecutionResult
  result = outcome_of redis a id now (activity u.id u.email u.is_active) deactivated true a.target

  ran :
      execute redis a label id now st r
      ≡ audited redis a label id (disable_for redis a id now (some u) st r)
  unfolding execute
  ran =
      ap (λ t. audited redis a label id (dispatch redis a t id now st r)) is_disable
      ∙ ap (λ o. audited redis a label id (disable_for redis a id now o st r)) found

  users_after : after.users ≡ put_user (disabled now u) st.users
  unfolding record_audit
  users_after = ap (λ o. o.0.0.users) ran

  -- Disabling a user that is found ends the access of every token of the user.
  pub disable_ends_access :
      (later : ℕ) (token : AccessToken)
      → token.user_id ≡ u.id
      → (get_current_user later (some token) after).1 ≡ err unauthorized
  unfolding get_current_user get_user
  disable_ends_access later token same =
      rw
        (ap (find (λ (v : User). v.id == token.user_id)) users_after
          ∙ row (Option-cases (find (λ (v : User). v.id == token.user_id) st.users)))
        refl
    where
      its_id : (u.id == token.user_id) ≡ true
      its_id = (==_iff u.id token.user_id).1 (sym same)

      row :
          ((find (λ (v : User). v.id == token.user_id) st.users ≡ none)
            ⊎ ((w : User) × (find (λ (v : User). v.id == token.user_id) st.users ≡ some w)))
          → find (λ (v : User). v.id == token.user_id) (put_user (disabled now u) st.users)
            ≡ some (disabled now u)
      row (inl e) = absurd (
          true_ne_false (
            sym its_id
            ∙ IsIn-find-none (λ (v : User). v.id == token.user_id) u st.users e
                (find_user-IsIn a.target st.users u found)))
      row (inr (w, e)) =
          find-put_user (λ (v : User). v.id == token.user_id) w (disabled now u) st.users e its_id
            (sym same
              ∙ sym (
                  (==_iff w.id token.user_id).0
                    (find-IsIn (λ (v : User). v.id == token.user_id) st.users w e).1))

  -- The account after the rollback at `later`.
  abbrev pub restored : ℕ → User
  restored later = record u {
    credentials_changed_at = now;
    updated_at = if u.is_active then later else now;
  }

  set_active-restored :
      (later : ℕ) → set_active later false u.is_active (disabled now u) ≡ restored later
  set_active-restored later = by_value u.is_active refl
    where
      by_value :
          (b : Bool)
          → u.is_active ≡ b
          → set_active later false b (disabled now u)
            ≡ record u { credentials_changed_at = now; updated_at = if b then later else now }
      by_value true e =
          ap (λ x. record u { is_active = x; credentials_changed_at = now; updated_at = later })
            (sym e)
      by_value false e =
          ap (λ x. record u { is_active = x; credentials_changed_at = now; updated_at = now })
            (sym e)

  -- Disabling a user that is found succeeds, and rolling the result back leaves under the same target
  -- the account as it was, but for two times: that of its credentials is the execution, and that of its
  -- last change is the rollback, or the execution if the account was not active before.
  pub rollback_restores :
      (later : ℕ) (label' : Text) (r' : R)
      → ((execute redis a label id now st r).1 ≡ ok result)
        × (find_user a.target (rollback redis result later label' after r').0.0.users
            ≡ some (restored later))
  unfolding rollback record_audit
  rollback_restores later label' r' = (
    ap (λ o. o.1) ran,
    ap (find_user a.target) reverted
        ∙ find_user-put_user a.target after.users (disabled now u) (restored later) refl refl again,
  )
    where
      again : find_user a.target after.users ≡ some (disabled now u)
      again =
          ap (find_user a.target) users_after
          ∙ find_user-put_user a.target st.users u (disabled now u) refl refl found

      reverted :
          (rollback redis result later label' after r').0.0.users
          ≡ put_user (restored later) after.users
      reverted =
          ap (λ t. (undo redis result t later label' after r').0.0.users) is_disable
          ∙ ap
              (λ o.
                (enable_for redis result later label' (activity u.id u.email u.is_active) o after
                  r').0.0.users)
              again
          ∙ ap (λ c. put_user c after.users) (set_active-restored later)
