-- ===== src/Investigation/Automation/Triggered.antt =====
-- backend/app/investigation/automation.py: the dispatcher touches nothing but the investigations of incidents
-- that the policy names.
use ai_soc.Base.{
  ℕ, suc, ◌≤◌, ◌≡◌, refl, sym, ap, ◌∙◌, ◌⊎◌, inl, inr, Bool, true, false, ◌&&◌, ◌||◌, List, [], ◌∷◌,
  ◌++◌, Option, none, some, find-IsIn, IsIn, leb→le, ◌==◌, ==_iff, ℕ-equality, String-equality,
  Bool-cases, ok, err,
}
use ai_soc.Base.Text.{Text, codes, lower}
use ai_soc.Base.Slices.{IsIn-append}
use ai_soc.Base.Table.{get_row, get_row-IsIn, put_row, IsIn-put_row}
use ai_soc.Models.{Incident}
use ai_soc.Investigation.Rows.{
  failed, InvestigationStatus-equality, Investigation, row_id, is_for, find_for_context, requeue,
  fail,
}
use ai_soc.Investigation.Service.{
  LlmSettings, RequestError, Jobs, Reply, incident_id, settings_error, new_investigation, enqueue,
  restarted, request_for, request_allowed, request_investigation,
}
use ai_soc.Investigation.Automation.{
  severity_rank, should_trigger, Cooldowns, settle, request_claimed, dispatch_one, dispatch,
}

-- Rows that were there, or rows of the incident.
IsOldOr : ℕ → List Investigation → List Investigation → Type 0
IsOldOr incident rows rows' =
    (x : Investigation) → IsIn x rows' → IsIn x rows ⊎ (x.incident_id ≡ incident)

put-IsOldOr :
    (incident : ℕ) (rows rows' : List Investigation) (a : Investigation)
    → IsOldOr incident rows rows'
    → a.incident_id ≡ incident
    → IsOldOr incident rows (put_row row_id a rows')
unfolding IsOldOr
put-IsOldOr incident rows rows' a h e x m = elim (IsIn-put_row row_id a x rows' m) [
  | inl same ↦ inr (ap (λ (y : Investigation). y.incident_id) (sym same) ∙ e)
  | inr (k, other) ↦ h x k
]

enqueue-IsOldOr :
    (incident now : ℕ) (online : Bool) (rows : List Investigation) (r : Investigation) (st : Jobs)
    → IsOldOr incident rows st.rows
    → r.incident_id ≡ incident
    → IsOldOr incident rows (enqueue now online r st).0.rows
unfolding fail
enqueue-IsOldOr incident now true rows r st h e = h
enqueue-IsOldOr incident now false rows r st h e = put-IsOldOr incident rows st.rows _ h e

is_for→incident :
    (i : ℕ) (hash version : Text) (r : Investigation)
    → is_for i hash version r ≡ true
    → r.incident_id ≡ i
is_for→incident i hash version r t = elim (Bool-cases (r.incident_id == i)) [
  | inl same ↦ (==_iff r.incident_id i).0 same
  | inr other ↦ absurd (false_true (rw other at t))
]
  where
    false_true : Path Bool false true → ⊥
    false_true q = cc

module _ (settings : LlmSettings) (context_hash : Incident → Text) (now fresh : ℕ) (online : Bool)
    (st : Jobs) where
  request_for-IsOldOr :
      (i : ℕ) (hash : Text) (found : Option Investigation)
      → find_for_context i hash settings.llm_prompt_version st.rows ≡ found
      → IsOldOr i st.rows (request_for settings now fresh online i hash found st).0.rows
  unfolding find_for_context requeue IsOldOr
  request_for-IsOldOr i hash none e =
      enqueue-IsOldOr i now online st.rows r (record st { rows = st.rows ++ r ∷ [] }) appended refl
    where
      r : Investigation
      r = new_investigation settings now fresh i hash

      appended : IsOldOr i st.rows (st.rows ++ r ∷ [])
      appended x m = elim (IsIn-append x st.rows (r ∷ []) m) [
        | inl k ↦ inl k
        | inr k ↦ elim k [
          | inl q ↦ inr (ap (λ (y : Investigation). y.incident_id) (sym q))
          | inr n ↦ absurd n
        ]
      ]
  request_for-IsOldOr i hash (some r) e =
      let mine = is_for→incident i hash settings.llm_prompt_version r (find-IsIn _ st.rows r e).1 in
      elim (Bool-cases (r.status == failed)) [
        | inl again ↦ rw again (
            enqueue-IsOldOr i now online st.rows (restarted settings now r) _
              (put-IsOldOr i st.rows st.rows (restarted settings now r) (λ x m. inl m) mine) mine)
        | inr kept ↦ rw kept (λ x m. inl m)
      ]

  request_allowed-IsOldOr :
      (incident : ℕ) (e : Option RequestError) (found : Option Incident)
      → get_row incident_id incident st.incidents ≡ found
      → IsOldOr incident st.rows
          (request_allowed e settings context_hash now fresh online incident st).0.rows
  unfolding IsOldOr
  request_allowed-IsOldOr incident (some e) found same = λ x m. inl m
  request_allowed-IsOldOr incident none none same = rw same (λ x m. inl m)
  request_allowed-IsOldOr incident none (some i) same = rw same (λ x m.
      elim (request_for-IsOldOr i.id (context_hash i) _ refl x m) [
        | inl k ↦ inl k
        | inr q ↦ inr (q ∙ (get_row-IsIn incident_id incident st.incidents i same).1)
      ])

  request_investigation-IsOldOr :
      (incident : ℕ)
      → IsOldOr incident st.rows
          (request_investigation settings context_hash now fresh online incident st).0.rows
  unfolding request_investigation
  request_investigation-IsOldOr incident =
      request_allowed-IsOldOr incident (settings_error settings) _ refl

-- The incidents of the policy: open ones at or above the least severity, with automation on.
pub record MayTrigger (settings : LlmSettings) (i : Incident) : Type 0 where
  pub enabled : settings.automatic_investigations_enabled ≡ true
  pub is_active : (i.status ≡ "open") ⊎ (i.status ≡ "investigating")
  pub severe :
      severity_rank 4 (lower settings.automatic_investigation_min_severity)
      ≤ severity_rank 0 (lower (codes i.severity))

and_left : (a b : Bool) → (a && b) ≡ true → (a ≡ true) × (b ≡ true)
and_left true b e = (refl, e)
and_left false b e = cc

or_cases : (a b : Bool) → (a || b) ≡ true → (a ≡ true) ⊎ (b ≡ true)
or_cases true b e = inl refl
or_cases false b e = inr e

should_trigger→MayTrigger :
    (settings : LlmSettings) (i : Incident)
    → should_trigger settings i ≡ true
    → MayTrigger settings i
unfolding should_trigger
should_trigger→MayTrigger settings i e =
    let (on, rest) = and_left settings.automatic_investigations_enabled _ e in
    let (active, rank) = and_left (i.status == "open" || i.status == "investigating") _ rest in
    record {
      enabled = on;
      is_active = elim (or_cases (i.status == "open") _ active) [
        | inl a ↦ inl ((==_iff i.status "open").0 a)
        | inr b ↦ inr ((==_iff i.status "investigating").0 b)
      ];
      severe = leb→le _ _ rank;
    }

module _ {R : Type 0} (redis : Cooldowns R) (settings : LlmSettings)
    (context_hash : Incident → Text) (now : ℕ) (online : ℕ → Bool) where
  dispatch_one-IsOldOr :
      (fresh : ℕ) (i : Incident) (st : Jobs) (r : R) (x : Investigation)
      → IsIn x (dispatch_one redis settings context_hash now online fresh i st r).0.rows
      → IsIn x st.rows ⊎ (MayTrigger settings i × (x.incident_id ≡ i.id))
  unfolding IsOldOr
  dispatch_one-IsOldOr fresh i st r x m = elim (Bool-cases (should_trigger settings i)) [
    | inl named ↦
        let policy = should_trigger→MayTrigger settings i named in
        elim (claimed (redis.claim r i.id settings.automatic_investigation_cooldown_seconds)
          (rw named at m)) [ inl k ↦ inl k | inr e ↦ inr (policy, e) ]
    | inr passed ↦ inl (rw passed at m)
  ]
    where
      settled :
          (r' : R) (reply : Reply)
          → IsIn x (settle redis settings context_hash now online i.id r' reply).0.rows
          → IsIn x reply.0.rows
      settled r' (st', ok y) k = k
      settled r' (st', err e) k = k

      claimed :
          (won : R × Bool)
          → IsIn x (request_claimed redis settings context_hash now online fresh i.id st won).0.rows
          → IsIn x st.rows ⊎ (x.incident_id ≡ i.id)
      claimed (r', true) k =
          request_investigation-IsOldOr settings context_hash now fresh (online i.id) st i.id x (
            settled r' (request_investigation settings context_hash now fresh (online i.id) i.id st)
              k)
      claimed (r', false) k = inl k

  -- After the dispatcher ran over a list of incidents, an investigation is one that was there
  -- unchanged, or it is of an incident of the list that is open or under investigation and whose
  -- severity reaches the minimum, and automatic investigations are enabled.
  pub dispatch-triggered :
      (fresh : ℕ) (incidents : List Incident) (st : Jobs) (r : R) (x : Investigation)
      → IsIn x (dispatch redis settings context_hash now online fresh incidents st r).0.rows
      → IsIn x st.rows
        ⊎ ((i : Incident) × (IsIn i incidents × (MayTrigger settings i × (x.incident_id ≡ i.id))))
  unfolding dispatch
  dispatch-triggered fresh [] st r x m = inl m
  dispatch-triggered fresh (i ∷ incidents) st r x m =
      elim (dispatch-triggered (suc fresh) incidents
        (dispatch_one redis settings context_hash now online fresh i st r).0
        (dispatch_one redis settings context_hash now online fresh i st r).1 x m) [
          | inl k ↦ elim (dispatch_one-IsOldOr fresh i st r x k) [
            | inl old ↦ inl old
            | inr (policy, e) ↦ inr (i, (inl refl, (policy, e)))
          ]
          | inr (j, (k, rest)) ↦ inr (j, (inr k, rest))
        ]
