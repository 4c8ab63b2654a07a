-- ===== src/Response/Approval/Rows.antt =====
-- backend/app/services/response_actions.py: reading the table of actions after it was written.
use ai_soc.Base.{
  ℕ, ◌≡◌, refl, sym, ap, ◌∙◌, ◌⊎◌, inl, inr, List, [], ◌∷◌, some, IsIn, ◌==◌, ==_iff, ℕ-equality,
  Bool-cases,
}
use ai_soc.Response.Approval.{ResponseAction, get_action, put_action}

-- A written row is a row that was there or the new one.
pub IsIn-put_action :
    (a b : ResponseAction) (actions : List ResponseAction)
    → IsIn b (put_action a actions)
    → IsIn b actions ⊎ (a ≡ b)
unfolding put_action
IsIn-put_action a b [] m = absurd m
IsIn-put_action a b (x ∷ actions) (inr m) = elim (IsIn-put_action a b actions m) [
  | inl k ↦ inl (inr k)
  | inr e ↦ inr e
]
IsIn-put_action a b (x ∷ actions) (inl e) = elim (Bool-cases (x.id == a.id)) [
  | inl t ↦ inr (rw t at e)
  | inr f ↦ inl (inl (rw f at e))
]

-- The row that is read under an identifier is the one that was written there last.
pub get_action-put_action :
    (id : ℕ) (a b : ResponseAction) (actions : List ResponseAction)
    → get_action id actions ≡ some a
    → b.id ≡ id
    → get_action id (put_action b actions) ≡ some b
unfolding get_action put_action
get_action-put_action id a b [] e same = absurd (cc)
get_action-put_action id a b (x ∷ actions) e same = elim (Bool-cases (x.id == id)) [
  | inl t ↦ rw (sym (ap (λ n. x.id == n) (sym same)) ∙ t) (rw ((==_iff b.id id).1 same) refl)
  | inr f ↦
      rw (ap (λ n. x.id == n) same ∙ f)
        (rw f (get_action-put_action id a b actions (rw f at e) same))
]
