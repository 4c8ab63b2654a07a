-- ===== src/Response/Approval/Once.antt =====
-- A request that is repeated gives the same action, an action is executed at most once, and what an
-- execution does.
use ai_soc.Base.{
  some_inj, none_ne_some, find-IsIn, find-append, ℕ, ◌≡◌, refl, sym, ◌∙◌, subst, ◌⊎◌, inl, inr,
  Bool, false, not, ◌||◌, List, [], ◌∷◌, ◌++◌, Option, none, some, ◌==◌, ==_iff, ==_refl,
  ℕ-equality, Text-equality, Bool-cases, Result, ok, err,
}
use ai_soc.Models.{User, Incident}
use ai_soc.Auth.Service.{get_user}
use ai_soc.Base.Uuid.{parse_uuid}
use ai_soc.Response.Approval.{
  ActionType-equality, ActionStatus, approved, running, succeeded, failed, ActionStatus-equality,
  ActionStatus-discrete, ResponseAction, ResponseActionCreate, ResponseActionError, EvidenceRef,
  Store, propose, propose_for, propose_new, check_refs, add_action, new_action, get_action,
  put_action, get_incident, same_request, existing_action, foreign_refs, valid_refs, target_error,
  revoke_app_sessions,
}
use ai_soc.Response.Approval.Rows.{get_action-put_action}
use ai_soc.Response.Approval.Worker.{
  Boto, AwsSettings, execute_action, execute_aws_action, claim, run_claimed, revoke_sessions,
  revoke_for, finish_aws, finished,
}

-- The row under `id` has one of the two statuses of an executed action.
abbrev IsFinished : ℕ → Store → Type 0
IsFinished id st =
    (a : ResponseAction) × ((get_action id st.actions ≡ some a)
      × ((a.status ≡ succeeded) ⊎ (a.status ≡ failed)))

module _ {W : Type 0} (boto : Boto W) (settings : AwsSettings) where
  module _ (id : ℕ) (a : ResponseAction) (st : Store) (e : get_action id st.actions ≡ some a)
      (same : a.id ≡ id) where
    finished-IsFinished :
        (status : ActionStatus)
        → (status ≡ succeeded) ⊎ (status ≡ failed)
        → IsFinished id (finished boto status a st)
    finished-IsFinished status h = (
      record a { status = status },
      (get_action-put_action id a (record a { status = status }) st.actions e same, h),
    )

    run_claimed-IsFinished :
        (now : ℕ) (w : W) → IsFinished id (run_claimed boto now settings a st w).0
    run_claimed-IsFinished now w = elim (Bool-cases (a.action_type == revoke_app_sessions)) [
      | inl t ↦ rw t (by_target (parse_uuid a.target))
      | inr f ↦ rw f (by_result (execute_aws_action boto settings w a))
    ]
      where
        by_user : (u : Option User) → IsFinished id (revoke_for boto now u a st)
        by_user none = finished-IsFinished failed (inr refl)
        by_user (some u) = finished-IsFinished succeeded (inl refl)

        by_target : (o : Option ℕ) → IsFinished id (revoke_sessions boto now o a st)
        by_target none = finished-IsFinished failed (inr refl)
        by_target (some n) = by_user (get_user n st.accounts.users)

        by_result : (r : W × Option ResponseActionError) → IsFinished id (finish_aws boto a st r).0
        by_result (w', none) = finished-IsFinished succeeded (inl refl)
        by_result (w', some x) = finished-IsFinished failed (inr refl)

  IsSettled : ℕ → Store → Type 0
  IsSettled id st =
      (a : ResponseAction) → get_action id st.actions ≡ some a → (a.status == approved) ≡ false

  IsFinished-IsSettled : (id : ℕ) (st : Store) → IsFinished id st → IsSettled id st
  unfolding IsSettled ActionStatus-discrete
  IsFinished-IsSettled id st (b, (found, over)) a e =
      subst (λ (x : ResponseAction). (x.status == approved) ≡ false) (some_inj (sym found ∙ e))
        (by_status over)
    where
      by_status : (b.status ≡ succeeded) ⊎ (b.status ≡ failed) → (b.status == approved) ≡ false
      by_status (inl p) = rw p refl
      by_status (inr p) = rw p refl

  found_id :
      (id : ℕ) (st : Store) (a : ResponseAction) → get_action id st.actions ≡ some a → a.id ≡ id
  unfolding get_action
  found_id id st a e =
      (==_iff a.id id).0 (find-IsIn (λ (b : ResponseAction). b.id == id) st.actions a e).1

  execute_action-IsSettled :
      (now id : ℕ) (st : Store) (w : W) → IsSettled id (execute_action boto now settings id st w).0
  unfolding execute_action IsSettled
  execute_action-IsSettled now id st w = by_row (get_action id st.actions) refl
    where
      by_row :
          (o : Option ResponseAction)
          → get_action id st.actions ≡ o
          → IsSettled id (claim boto now settings o st w).0
      by_row none e = λ a found. absurd (none_ne_some (sym e ∙ found))
      by_row (some a) e = elim (Bool-cases (a.status == approved)) [
        | inl t ↦
            let a' = record a { status = running } in
            let same = found_id id st a e in
            let st' : Store = record st { actions = put_action a' st.actions } in
            rw t (
              IsFinished-IsSettled id (run_claimed boto now settings a' st' w).0 (
                run_claimed-IsFinished id a' st' (get_action-put_action id a a' st.actions e same)
                  same now w))
        | inr f ↦ rw f (λ b found.
            subst (λ (x : ResponseAction). (x.status == approved) ≡ false)
              (some_inj (sym e ∙ found)) f)
      ]

  skip :
      (now id : ℕ) (st : Store) (w : W)
      → IsSettled id st
      → execute_action boto now settings id st w ≡ (st, w)
  unfolding execute_action IsSettled
  skip now id st w settled = by_row (get_action id st.actions) settled
    where
      by_row :
          (o : Option ResponseAction)
          → ((a : ResponseAction) → o ≡ some a → (a.status == approved) ≡ false)
          → claim boto now settings o st w ≡ (st, w)
      by_row none h = refl
      by_row (some a) h = rw (h a refl) refl

  -- Executing an action again changes nothing, neither in the tables nor in the cloud, whatever has
  -- happened to the cloud in between.
  pub execute_action_once :
      (now later id : ℕ) (st : Store) (w w' : W)
      → execute_action boto later settings id (execute_action boto now settings id st w).0 w'
        ≡ ((execute_action boto now settings id st w).0, w')
  execute_action_once now later id st w w' =
      skip later id _ w' (execute_action-IsSettled now id st w)

-- Proposing once more gives the action that is there.
abbrev IsRemembered :
    ℕ → ResponseActionCreate → Store × Result ResponseActionError ResponseAction → Type 0
IsRemembered incident payload (st, err e) = Unit
IsRemembered incident payload (st, ok a) =
    (again other : ℕ) → propose again incident payload other st ≡ (st, ok a)

module _ (incident : ℕ) (payload : ResponseActionCreate) where
  differs : ResponseAction → Bool
  differs a = not (a.action_type == payload.action_type) || not (a.target == payload.target)

  known-IsRemembered :
      (i : Incident) (st : Store) (a : ResponseAction)
      → get_incident incident st.tables.incidents ≡ some i
      → existing_action incident payload.idempotency_key st.actions ≡ some a
      → differs a ≡ false
      → IsRemembered incident payload (st, ok a)
  unfolding propose differs
  known-IsRemembered i st a e f d again other = rw e (rw f (rw d refl))

  propose-IsRemembered :
      (fresh actor : ℕ) (st : Store)
      → IsRemembered incident payload (propose fresh incident payload actor st)
  unfolding propose existing_action differs
  propose-IsRemembered fresh actor st = by_incident (get_incident incident st.tables.incidents) refl
    where
      by_error :
          (i : Incident)
          → get_incident incident st.tables.incidents ≡ some i
          → existing_action incident payload.idempotency_key st.actions ≡ none
          → (x : Option ResponseActionError)
          → IsRemembered incident payload (add_action fresh incident payload actor st x)
      by_error i e f (some x) = tt
      by_error i e f none =
          known-IsRemembered i
            (record st { actions = st.actions ++ new_action fresh incident payload actor ∷ [] })
            (new_action fresh incident payload actor) e
            (find-append (same_request incident payload.idempotency_key) st.actions
              (new_action fresh incident payload actor) f
              (rw (==_refl incident) (==_refl payload.idempotency_key)))
            (rw (==_refl payload.action_type) (rw (==_refl payload.target) refl))

      by_refs :
          (i : Incident)
          → get_incident incident st.tables.incidents ≡ some i
          → existing_action incident payload.idempotency_key st.actions ≡ none
          → (refs : List EvidenceRef)
          → IsRemembered incident payload (check_refs fresh incident payload actor st refs)
      by_refs i e f (r ∷ rs) = tt
      by_refs i e f [] =
          by_error i e f (target_error payload.action_type payload.target st.accounts.users)

      by_existing :
          (i : Incident)
          → get_incident incident st.tables.incidents ≡ some i
          → (o : Option ResponseAction)
          → existing_action incident payload.idempotency_key st.actions ≡ o
          → IsRemembered incident payload (propose_new fresh incident payload actor st o)
      by_existing i e none f =
          by_refs i e f (foreign_refs payload.evidence_refs (valid_refs incident st))
      by_existing i e (some a) f = elim (Bool-cases (differs a)) [
        | inl t ↦ rw t tt
        | inr g ↦ rw g (known-IsRemembered i st a e f g)
      ]

      by_incident :
          (o : Option Incident)
          → get_incident incident st.tables.incidents ≡ o
          → IsRemembered incident payload (propose_for fresh incident o payload actor st)
      by_incident none e = tt
      by_incident (some i) e =
          by_existing i e (existing_action incident payload.idempotency_key st.actions) refl

-- Proposing the same request again, by anybody, gives the action of the first time and changes
-- nothing.
pub propose_idempotent :
    (fresh again incident : ℕ) (payload : ResponseActionCreate) (actor other : ℕ) (st st' : Store)
    (a : ResponseAction)
    → propose fresh incident payload actor st ≡ (st', ok a)
    → propose again incident payload other st' ≡ (st', ok a)
propose_idempotent fresh again incident payload actor other st st' a e =
    subst (IsRemembered incident payload) e (propose-IsRemembered incident payload fresh actor st)
      again other
