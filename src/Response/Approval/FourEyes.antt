-- ===== src/Response/Approval/FourEyes.antt =====
-- Whoever proposed an action has not approved it, in every state that the service and the worker
-- reach.
use ai_soc.Base.{
  find-IsIn, ℕ, ◌≡◌, refl, sym, ◌∙◌, subst, ◌≢◌, ◌⊎◌, inl, inr, Bool, true, false, not, ◌&&◌, ◌||◌,
  List, [], ◌∷◌, ◌++◌, Option, none, some, IsIn, ◌==◌, ==_iff, ℕ-equality, Text-equality,
  Bool-cases,
}
use ai_soc.Models.{User, Incident}
use ai_soc.Auth.Service.{get_user}
use ai_soc.Base.Uuid.{parse_uuid}
use ai_soc.Response.Approval.{
  ActionType-equality, proposed, approved, running, succeeded, failed, ActionStatus-equality,
  ResponseAction, ResponseActionCreate, ResponseActionError, EvidenceRef, Store, propose,
  propose_for, propose_new, check_refs, add_action, decide, decide_found, decided, new_action,
  get_action, put_action, get_incident, existing_action, foreign_refs, valid_refs, target_error,
  revoke_app_sessions,
}
use ai_soc.Response.Approval.Rows.{IsIn-put_action}
use ai_soc.Response.Approval.Worker.{
  Boto, AwsSettings, execute_action, execute_aws_action, claim, run_claimed, revoke_sessions,
  revoke_for, finish_aws,
}

-- The action is undecided, or it was decided by someone else than its proposer.
abbrev pub IsSound : ResponseAction → Type 0
IsSound a = (a.status ≡ proposed) ⊎ ((u : ℕ) × ((a.approved_by ≡ some u) × (u ≢ a.proposed_by)))

abbrev pub IsFourEyes : Store → Type 0
IsFourEyes st = (a : ResponseAction) → IsIn a st.actions → IsSound a

IsIn-append : {A : Type 0} (a b : A) (xs : List A) → IsIn a (xs ++ b ∷ []) → IsIn a xs ⊎ (b ≡ a)
IsIn-append a b [] (inl e) = inr e
IsIn-append a b [] (inr m) = absurd m
IsIn-append a b (x ∷ xs) (inl e) = inl (inl e)
IsIn-append a b (x ∷ xs) (inr m) = elim (IsIn-append a b xs m) [
  | inl k ↦ inl (inr k)
  | inr e ↦ inr e
]

put_action-IsFourEyes :
    (a : ResponseAction) (st : Store)
    → IsSound a
    → IsFourEyes st
    → (b : ResponseAction) → IsIn b (put_action a st.actions)
    → IsSound b
put_action-IsFourEyes a st sound all b m = elim (IsIn-put_action a b st.actions m) [
  | inl old ↦ all b old
  | inr new ↦ subst IsSound new sound
]

propose-IsFourEyes :
    (fresh incident : ℕ) (payload : ResponseActionCreate) (actor : ℕ) (st : Store)
    → IsFourEyes st
    → IsFourEyes (propose fresh incident payload actor st).0
unfolding propose
propose-IsFourEyes fresh incident payload actor st all =
    by_incident (get_incident incident st.tables.incidents)
  where
    by_error :
        (e : Option ResponseActionError)
        → IsFourEyes (add_action fresh incident payload actor st e).0
    by_error (some e) = all
    by_error none = λ a m.
        elim (IsIn-append a (new_action fresh incident payload actor) st.actions m) [
          | inl old ↦ all a old
          | inr new ↦ subst IsSound new (inl refl)
        ]

    by_refs :
        (refs : List EvidenceRef) → IsFourEyes (check_refs fresh incident payload actor st refs).0
    by_refs [] = by_error (target_error payload.action_type payload.target st.accounts.users)
    by_refs (r ∷ rs) = all

    by_existing :
        (o : Option ResponseAction) → IsFourEyes (propose_new fresh incident payload actor st o).0
    by_existing none = by_refs (foreign_refs payload.evidence_refs (valid_refs incident st))
    by_existing (some a) =
        elim (Bool-cases
          (not (a.action_type == payload.action_type) || not (a.target == payload.target))) [
            | inl t ↦ rw t all
            | inr f ↦ rw f all
          ]

    by_incident :
        (o : Option Incident) → IsFourEyes (propose_for fresh incident o payload actor st).0
    by_incident none = all
    by_incident (some i) = by_existing (existing_action incident payload.idempotency_key st.actions)

decide-IsFourEyes :
    (id actor : ℕ) (approve enabled : Bool) (st : Store)
    → IsFourEyes st
    → IsFourEyes (decide id actor approve enabled st).0
unfolding decide
decide-IsFourEyes id actor approve enabled st all = by_row (get_action id st.actions)
  where
    other : {n : ℕ} → (n == actor) ≡ false → actor ≢ n
    other {n} g e = let t : (n == actor) ≡ true = (==_iff n actor).1 (sym e) in cc

    by_row : (o : Option ResponseAction) → IsFourEyes (decide_found actor approve enabled st o).0
    by_row none = all
    by_row (some a) = elim (Bool-cases (not (a.status == proposed))) [
      | inl t ↦ rw t all
      | inr f ↦ elim (Bool-cases (a.proposed_by == actor)) [
        | inl t ↦ rw (f, t) all
        | inr g ↦
            elim (Bool-cases
              (approve && not (a.action_type == revoke_app_sessions) && not enabled)) [
                | inl t ↦ rw (f, g, t) all
                | inr h ↦
                    rw (f, g, h)
                      (put_action-IsFourEyes (decided actor approve a) st
                        (inr (actor, (refl, other g))) all)
              ]
      ]
    ]

-- Someone else approved the action.
abbrev IsCleared : ResponseAction → Type 0
IsCleared a = (u : ℕ) × ((a.approved_by ≡ some u) × (u ≢ a.proposed_by))

module _ {W : Type 0} (boto : Boto W) (settings : AwsSettings) where
  revoke_for-IsFourEyes :
      (now : ℕ) (u : Option User) (a : ResponseAction) (st : Store)
      → IsCleared a
      → IsFourEyes st
      → IsFourEyes (revoke_for boto now u a st)
  revoke_for-IsFourEyes now none a st c all =
      put_action-IsFourEyes (record a { status = failed }) st (inr c) all
  revoke_for-IsFourEyes now (some u) a st c all =
      put_action-IsFourEyes (record a { status = succeeded }) st (inr c) all

  revoke_sessions-IsFourEyes :
      (now : ℕ) (id : Option ℕ) (a : ResponseAction) (st : Store)
      → IsCleared a
      → IsFourEyes st
      → IsFourEyes (revoke_sessions boto now id a st)
  revoke_sessions-IsFourEyes now none a st c all =
      put_action-IsFourEyes (record a { status = failed }) st (inr c) all
  revoke_sessions-IsFourEyes now (some id) a st c all =
      revoke_for-IsFourEyes now (get_user id st.accounts.users) a st c all

  finish_aws-IsFourEyes :
      (a : ResponseAction) (st : Store) (r : W × Option ResponseActionError)
      → IsCleared a
      → IsFourEyes st
      → IsFourEyes (finish_aws boto a st r).0
  finish_aws-IsFourEyes a st (w, none) c all =
      put_action-IsFourEyes (record a { status = succeeded }) st (inr c) all
  finish_aws-IsFourEyes a st (w, some e) c all =
      put_action-IsFourEyes (record a { status = failed }) st (inr c) all

  run_claimed-IsFourEyes :
      (now : ℕ) (a : ResponseAction) (st : Store) (w : W)
      → IsCleared a
      → IsFourEyes st
      → IsFourEyes (run_claimed boto now settings a st w).0
  run_claimed-IsFourEyes now a st w c all =
      elim (Bool-cases (a.action_type == revoke_app_sessions)) [
        | inl t ↦ rw t (revoke_sessions-IsFourEyes now (parse_uuid a.target) a st c all)
        | inr f ↦ rw f (finish_aws-IsFourEyes a st (execute_aws_action boto settings w a) c all)
      ]

  cleared : (a : ResponseAction) → IsSound a → (a.status == approved) ≡ true → IsCleared a
  cleared a (inr c) e = c
  cleared a (inl p) e = absurd (proposed_is_not (sym p ∙ (==_iff a.status approved).0 e))
    where
      proposed_is_not : proposed ≡ approved → ⊥
      proposed_is_not q = cc

  execute_action-IsFourEyes :
      (now id : ℕ) (st : Store) (w : W)
      → IsFourEyes st
      → IsFourEyes (execute_action boto now settings id st w).0
  unfolding execute_action get_action
  execute_action-IsFourEyes now id st w all =
      by_row (get_action id st.actions) (find-IsIn (λ (a : ResponseAction). a.id == id) st.actions)
    where
      by_row :
          (o : Option ResponseAction)
          → ((a : ResponseAction) → o ≡ some a → IsIn a st.actions × ((a.id == id) ≡ true))
          → IsFourEyes (claim boto now settings o st w).0
      by_row none h = all
      by_row (some a) h = elim (Bool-cases (a.status == approved)) [
        | inl t ↦
            let a' = record a { status = running } in
            let c = cleared a (all a (h a refl).0) t in
            rw t (
              run_claimed-IsFourEyes now a' (record st { actions = put_action a' st.actions }) w c
                (put_action-IsFourEyes a' st (inr c) all))
        | inr f ↦ rw f all
      ]

  -- The calls of the service and of the worker, in any order.
  pub data Reach (start : Store × W) : Store × W → Type 0 where
    here : Reach start start
    proposes :
        {st : Store} {w : W} (fresh incident : ℕ) (payload : ResponseActionCreate) (actor : ℕ)
        → Reach start (st, w)
        → Reach start ((propose fresh incident payload actor st).0, w)
    decides :
        {st : Store} {w : W} (id actor : ℕ) (approve : Bool)
        → Reach start (st, w)
        → Reach start ((decide id actor approve settings.aws_response_enabled st).0, w)
    executes :
        {st : Store} {w : W} (now id : ℕ)
        → Reach start (st, w)
        → Reach start (execute_action boto now settings id st w)

  -- From a state without actions, every reachable state has only undecided actions and actions that
  -- were decided by someone else than their proposer.
  pub Reach-IsFourEyes :
      {start end : Store × W} → start.0.actions ≡ [] → Reach start end → IsFourEyes end.0
  Reach-IsFourEyes {start} empty here = λ a m. absurd (subst (IsIn a) empty m)
  Reach-IsFourEyes empty (proposes {st} fresh incident payload actor r) =
      propose-IsFourEyes fresh incident payload actor st (Reach-IsFourEyes empty r)
  Reach-IsFourEyes empty (decides {st} id actor approve r) =
      decide-IsFourEyes id actor approve settings.aws_response_enabled st (Reach-IsFourEyes empty r)
  Reach-IsFourEyes empty (executes {st} {w} now id r) =
      execute_action-IsFourEyes now id st w (Reach-IsFourEyes empty r)
