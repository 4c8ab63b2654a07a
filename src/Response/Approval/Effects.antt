-- ===== src/Response/Approval/Effects.antt =====
-- backend/app/services/response_actions.py: what an execution may do to the cloud, and what it does
-- to the sessions of a user.
use ai_soc.Base.{
  find-IsIn, ℕ, ◌≡◌, refl, sym, ◌∙◌, subst, ◌≢◌, ◌⊎◌, inl, inr, Bool, true, false, ◌&&◌, List, [],
  ◌∷◌, Option, none, some, IsIn, ◌==◌, ==_iff, ℕ-equality, Text-equality, if◌then◌else◌, Bool-cases,
}
use ai_soc.Models.{User, AuthSession}
use ai_soc.Auth.Sessions.{is_none, revoked, revoke_user}
use ai_soc.Auth.Service.{get_user}
use ai_soc.Base.Uuid.{parse_uuid}
use ai_soc.Response.Approval.{
  ActionType-equality, ActionType-discrete, approved, running, succeeded, ActionStatus-equality,
  ActionStatus-discrete, ResponseAction, ResponseActionError, Store, get_action, put_action,
  revoke_app_sessions,
}
use ai_soc.Response.Approval.Rows.{get_action-put_action}
use ai_soc.Response.Approval.Worker.{
  Boto, AwsSettings, execute_action, execute_aws_action, claim, run_claimed, revoke_for, finish_aws,
  is_allowlisted, account_of,
}

module _ {W : Type 0} (boto : Boto W) (settings : AwsSettings) where
  -- The conditions under which an action may touch the cloud.
  abbrev pub MayTouch : W → ResponseAction → Type 0
  MayTouch w a =
      (a.status ≡ approved)
      × ((a.action_type ≢ revoke_app_sessions)
          × ((settings.aws_response_enabled ≡ true)
              × ((is_allowlisted settings a.account_id ≡ true)
                  × (boto.caller_account w ≡ account_of a.account_id))))

  abbrev AwsGuards : W → ResponseAction → Type 0
  AwsGuards w a =
      (settings.aws_response_enabled ≡ true)
      × ((is_allowlisted settings a.account_id ≡ true)
          × (boto.caller_account w ≡ account_of a.account_id))

  execute_aws_action_guarded :
      (w : W) (a : ResponseAction) → ((execute_aws_action boto settings w a).0 ≡ w) ⊎ AwsGuards w a
  unfolding execute_aws_action
  execute_aws_action_guarded w a = elim (Bool-cases settings.aws_response_enabled) [
    | inr off ↦ inl (rw off refl)
    | inl on ↦ elim (Bool-cases (is_allowlisted settings a.account_id)) [
      | inr out ↦ inl (rw (out, on) refl)
      | inl allowed ↦ elim (Bool-cases (boto.caller_account w == account_of a.account_id)) [
        | inr other ↦ inl (rw (other, allowed, on) refl)
        | inl same ↦
            inr (on, (allowed, (==_iff (boto.caller_account w) (account_of a.account_id)).0 same))
      ]
    ]
  ]

  finish_aws-cloud :
      (a : ResponseAction) (st : Store) (r : W × Option ResponseActionError)
      → (finish_aws boto a st r).1 ≡ r.0
  finish_aws-cloud a st (w, none) = refl
  finish_aws-cloud a st (w, some e) = refl

  -- An execution changes the cloud only for a stored action that is approved and not about sessions,
  -- while AWS responses are enabled, in an account that is allowed and that the credentials are of.
  pub execute_action_guarded :
      (now id : ℕ) (st : Store) (w : W)
      → ((execute_action boto now settings id st w).1 ≡ w)
        ⊎ ((a : ResponseAction) × ((get_action id st.actions ≡ some a) × MayTouch w a))
  unfolding execute_action
  execute_action_guarded now id st w = by_row (get_action id st.actions) refl
    where
      by_type :
          (a : ResponseAction) (st' : Store)
          → ((run_claimed boto now settings a st' w).1 ≡ w)
            ⊎ ((a.action_type ≢ revoke_app_sessions) × AwsGuards w a)
      by_type a st' = elim (Bool-cases (a.action_type == revoke_app_sessions)) [
        | inl t ↦ inl (rw t refl)
        | inr f ↦ elim (execute_aws_action_guarded w a) [
          | inl same ↦
              inl (rw f (finish_aws-cloud a st' (execute_aws_action boto settings w a) ∙ same))
          | inr guards ↦ inr (differs f, guards)
        ]
      ]
        where
          differs :
              (a.action_type == revoke_app_sessions) ≡ false → a.action_type ≢ revoke_app_sessions
          differs f e =
              let t : (a.action_type == revoke_app_sessions) ≡ true =
                (==_iff a.action_type revoke_app_sessions).1 e in
              cc

      by_row :
          (o : Option ResponseAction)
          → get_action id st.actions ≡ o
          → ((claim boto now settings o st w).1 ≡ w)
            ⊎ ((a : ResponseAction) × ((get_action id st.actions ≡ some a) × MayTouch w a))
      by_row none e = inl refl
      by_row (some a) e = elim (Bool-cases (a.status == approved)) [
        | inr f ↦ inl (rw f refl)
        | inl t ↦
            elim (by_type (record a { status = running })
              (record st { actions = put_action (record a { status = running }) st.actions })) [
                | inl same ↦ inl (rw t same)
                | inr guards ↦ inr (a, (e, ((==_iff a.status approved).0 t, guards)))
              ]
      ]

  revoke_user-revokes :
      (now user : ℕ) (s : AuthSession) (sessions : List AuthSession)
      → IsIn s (revoke_user now user sessions)
      → s.user_id ≡ user
      → is_none s.revoked_at ≡ false
  unfolding revoke_user
  revoke_user-revokes now user s [] m e = absurd m
  revoke_user-revokes now user s (x ∷ sessions) (inr m) e =
      revoke_user-revokes now user s sessions m e
  revoke_user-revokes now user s (x ∷ sessions) (inl same) e =
      subst (λ (y : AuthSession). y.user_id ≡ user → is_none y.revoked_at ≡ false) same
        (head (x.user_id == user && is_none x.revoked_at) refl) e
    where
      kept :
          (x.user_id == user && is_none x.revoked_at) ≡ false
          → x.user_id ≡ user
          → is_none x.revoked_at ≡ false
      kept f e' = rw ((==_iff x.user_id user).1 e') at f

      head :
          (b : Bool)
          → (x.user_id == user && is_none x.revoked_at) ≡ b
          → (if b then revoked now x else x).user_id ≡ user
          → is_none (if b then revoked now x else x).revoked_at ≡ false
      head true t e' = refl
      head false f e' = kept f e'

  -- Executing an approved action on the sessions of a user that exists makes it succeed, leaves the
  -- cloud as it is, and leaves the user no session that is not revoked.
  pub execute_action_revokes :
      (now id user : ℕ) (a : ResponseAction) (u : User) (st : Store) (w : W)
      → get_action id st.actions ≡ some a
      → a.status ≡ approved
      → a.action_type ≡ revoke_app_sessions
      → parse_uuid a.target ≡ some user
      → get_user user st.accounts.users ≡ some u
      → (get_action id (execute_action boto now settings id st w).0.actions
          ≡ some (record a { status = succeeded }))
        × (((execute_action boto now settings id st w).1 ≡ w)
            × ((s : AuthSession)
                → IsIn s (execute_action boto now settings id st w).0.accounts.sessions
                → s.user_id ≡ user
                → is_none s.revoked_at ≡ false))
  unfolding execute_action get_action get_user ActionStatus-discrete ActionType-discrete
  execute_action_revokes now id user a u st w e is_approved is_revoke parsed found =
      subst (λ r. Outcome r) (sym runs)
        (
          written,
          (
            refl,
            λ s m same. revoke_user-revokes now u.id s st.accounts.sessions m (same ∙ sym user_id),
          ),
        )
    where
      same_id : a.id ≡ id
      same_id = (==_iff a.id id).0 (find-IsIn (λ (b : ResponseAction). b.id == id) st.actions a e).1

      user_id : u.id ≡ user
      user_id =
          (==_iff u.id user).0 (find-IsIn (λ (v : User). v.id == user) st.accounts.users u found).1

      claimed : ResponseAction
      claimed = record a { status = running }

      claimed_store : Store
      claimed_store = record st { actions = put_action claimed st.actions }

      Outcome : Store × W → Type 0
      Outcome r =
          (get_action id r.0.actions ≡ some (record a { status = succeeded }))
          × ((r.1 ≡ w)
              × ((s : AuthSession)
                  → IsIn s r.0.accounts.sessions
                  → s.user_id ≡ user
                  → is_none s.revoked_at ≡ false))

      runs :
          execute_action boto now settings id st w
          ≡ (revoke_for boto now (some u) claimed claimed_store, w)
      runs = rw (e, is_approved, is_revoke, parsed, found) refl

      written :
          get_action id
            (put_action (record a { status = succeeded }) (put_action claimed st.actions))
          ≡ some (record a { status = succeeded })
      written =
          get_action-put_action id claimed (record a { status = succeeded })
            (put_action claimed st.actions)
            (get_action-put_action id a claimed st.actions e same_id) same_id
