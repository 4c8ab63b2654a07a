-- ===== src/Correlation/Service/Joined.antt =====
-- backend/app/correlation/service.py: a stored alert of a credential rule is correlated without an
-- error, and an incident that results is linked with it.
use ai_soc.Base.{
  ℕ, ◌-◌, ◌*◌, ◌≡◌, refl, sym, ap, subst, ◌∙◌, ◌⊎◌, inl, inr, Bool, true, false, ◌&&◌, ◌||◌, List,
  [], ◌∷◌, ◌++◌, map, Option, none, some, arith, leb, filter, IsIn, filter-IsIn, ==_refl,
  ℕ-equality, String-equality, Text-equality, if◌then◌else◌, contains, Bool-cases, Result, ok,
}
use ai_soc.Base.Text.{Text}
use ai_soc.Base.Sort.{sort_by, sort_by-IsIn}
use ai_soc.Models.{Alert, Incident, second}
use ai_soc.Repository.Events.{matches_identity}
use ai_soc.Repository.Alerts.{related_alerts, earlier_alert}
use ai_soc.Repository.Incidents.{Tables, get_alerts_for_incident}
use ai_soc.Repository.Incidents.Links.{any-add_alert_links}
use ai_soc.Correlation.Risk.{has_rule, brute_force, password_spray, login_after_failures}
use ai_soc.Correlation.Service.{
  Settings, State, CorrelationError, find_or_open, join, finish, linked, alerts_of, refreshed,
  with_candidates, id_of, correlate_credentials, credential_compromise_candidates, related_to,
  allowed_rules,
}

leb_refl : (n : ℕ) → leb n n ≡ true
leb_refl n = ground arith

leb-sub : (n k : ℕ) → leb (n - k) n ≡ true
leb-sub n k = ground arith

-- An alert that has an identity is related to itself; one without is related to nothing.
matches_self : (u s : Option Text) → (matches_identity u s u s ≡ true) ⊎ ((u ≡ none) × (s ≡ none))
matches_self none none = inr (refl, refl)
matches_self (some u) s = inl (rw (==_refl u) refl)
matches_self none (some s) = inl (==_refl s)

filter-never :
    {A : Type 0} (p : A → Bool) (xs : List A) → ((a : A) → p a ≡ false) → filter p xs ≡ []
filter-never p [] h = refl
filter-never p (x ∷ xs) h = rw (h x) (filter-never p xs h)

IsIn-last : {A : Type 0} (a : A) (xs : List A) → IsIn a (xs ++ a ∷ [])
IsIn-last a [] = inl refl
IsIn-last a (x ∷ xs) = inr (IsIn-last a xs)

IsIn-left : {A : Type 0} (a : A) (xs ys : List A) → IsIn a xs → IsIn a (xs ++ ys)
IsIn-left a [] ys m = absurd m
IsIn-left a (x ∷ xs) ys (inl e) = inl e
IsIn-left a (x ∷ xs) ys (inr m) = inr (IsIn-left a xs ys m)

IsIn-map : {A B : Type 0} (f : A → B) (a : A) (xs : List A) → IsIn a xs → IsIn (f a) (map f xs)
IsIn-map f a [] m = m
IsIn-map f a (x ∷ xs) (inl e) = inl (ap f e)
IsIn-map f a (x ∷ xs) (inr m) = inr (IsIn-map f a xs m)

-- The alert is among its related ones, whether it was found or appended.
with_itself :
    (alert : Alert) (related : List Alert)
    → IsIn alert related ⊎ (related ≡ [])
    → IsIn alert (if contains (map id_of related) alert.id then related else related ++ alert ∷ [])
with_itself alert related (inr e) = rw e (inl refl)
with_itself alert related (inl m) = elim (Bool-cases (contains (map id_of related) alert.id)) [
  | inl there ↦ rw there m
  | inr new ↦ rw new (IsIn-left alert related (alert ∷ []) m)
]

sort_by-nil : {A : Type 0} (le : A → A → Bool) → sort_by {A = A} le [] ≡ []
unfolding sort_by
sort_by-nil le = refl

and_false : (a b : Bool) → (a && b && false) ≡ false
and_false a b = ground arith

related_alerts-nobody :
    (since until : ℕ) (alerts : List Alert) → related_alerts none none since until alerts ≡ []
unfolding related_alerts
related_alerts-nobody since until alerts =
    ap (sort_by earlier_alert)
      (filter-never _ alerts (λ a. and_false (leb since a.last_seen) (leb a.last_seen until)))
    ∙ sort_by-nil earlier_alert

related_to-IsIn :
    (settings : Settings) (alert : Alert) (st : State)
    → IsIn alert st.tables.alerts
    → IsIn alert (related_to settings alert st)
unfolding related_alerts
related_to-IsIn settings alert st stored =
    with_itself alert _ (elim (matches_self alert.username alert.source_ip) [
      | inl self ↦ inl (
          sort_by-IsIn earlier_alert alert _ (
            filter-IsIn _ alert st.tables.alerts stored (
              rw
                (
                  leb-sub alert.last_seen
                      (settings.credential_compromise_lookback_seconds * second),
                  leb_refl alert.last_seen,
                )
                self)))
      | inr nobody ↦ inr (rw (nobody.0, nobody.1) (related_alerts-nobody _ _ st.tables.alerts))
    ])

credential_compromise_candidates-IsIn :
    (a : Alert) (alerts : List Alert)
    → IsIn a alerts
    → contains allowed_rules a.rule_id ≡ true
    → (credential_compromise_candidates alerts ≡ [])
      ⊎ IsIn a (credential_compromise_candidates alerts)
unfolding credential_compromise_candidates
credential_compromise_candidates-IsIn a alerts m allowed =
    elim (Bool-cases (
      (has_rule brute_force alerts || has_rule password_spray alerts)
      && has_rule login_after_failures alerts)) [
        | inl both ↦ inr (rw both (filter-IsIn _ a alerts m allowed))
        | inr missing ↦ inl (rw missing refl)
      ]

-- A linked alert is one of the incident's.
linked-IsIn :
    (i : Incident) (ids : List ℕ) (a : Alert) (t : Tables)
    → IsIn a.id ids
    → IsIn a t.alerts
    → IsIn a (alerts_of i (linked i ids t))
unfolding get_alerts_for_incident
linked-IsIn i ids a t asked stored =
    sort_by-IsIn earlier_alert a _
      (filter-IsIn _ a t.alerts stored (any-add_alert_links i.id a.id ids t.links asked))

-- `i` came of the alert, which is now one of its alerts.
abbrev pub HasJoined : Alert → Result CorrelationError (State × Option Incident) → Type 0
HasJoined alert (ok (st, some i)) = IsIn alert (alerts_of i st.tables)
HasJoined alert _ = ⊥

refreshed-HasJoined :
    (settings : Settings) (key : Text) (username source_ip : Option Text) (alert : Alert)
    (i : Incident) (st : State) (all : List Alert)
    → all ≡ alerts_of i st.tables
    → IsIn alert all
    → HasJoined alert (finish st (refreshed settings key username source_ip st.tables all i))
unfolding refreshed
refreshed-HasJoined settings key username source_ip alert i st [] same m = absurd m
refreshed-HasJoined settings key username source_ip alert i st (a ∷ all) same m =
    subst (IsIn alert) same m

find_or_open-alerts :
    (found : Option Incident) (new : Incident) (st : State)
    → (find_or_open found new st).1.tables.alerts ≡ st.tables.alerts
find_or_open-alerts none new st = refl
find_or_open-alerts (some i) new st = refl

join-HasJoined :
    (settings : Settings) (key : Text) (username source_ip : Option Text) (alert : Alert)
    (ids : List ℕ) (target : Incident × State)
    → IsIn alert.id ids
    → IsIn alert target.1.tables.alerts
    → HasJoined alert (join (refreshed settings key username source_ip) ids target)
join-HasJoined settings key username source_ip alert ids (i, st) asked stored =
    refreshed-HasJoined settings key username source_ip alert i
      (record st { tables = linked i ids st.tables }) _ refl
      (linked-IsIn i ids alert st.tables asked stored)

with_candidates-HasJoined :
    (settings : Settings) (fresh : ℕ) (alert : Alert) (alerts : List Alert) (st : State)
    → IsIn alert alerts
    → IsIn alert st.tables.alerts
    → HasJoined alert (with_candidates settings fresh alert alerts st)
unfolding with_candidates
with_candidates-HasJoined settings fresh alert [] st m stored = absurd m
with_candidates-HasJoined settings fresh alert (a ∷ alerts) st m stored =
    join-HasJoined settings _ _ _ alert _ _ (IsIn-map id_of alert (a ∷ alerts) m)
      (subst (IsIn alert) (sym (find_or_open-alerts _ _ _)) stored)

-- Correlating a stored alert of one of the credential rules raises no error. Either its related
-- alerts, itself included, give no candidates and nothing changes, or it is one of the alerts that
-- are then linked with the resulting incident.
pub correlate_credentials_joins :
    (settings : Settings) (fresh : ℕ) (alert : Alert) (st : State)
    → IsIn alert st.tables.alerts
    → contains allowed_rules alert.rule_id ≡ true
    → ((credential_compromise_candidates (related_to settings alert st) ≡ [])
        × (correlate_credentials settings fresh alert st ≡ ok (st, none)))
      ⊎ HasJoined alert (correlate_credentials settings fresh alert st)
unfolding correlate_credentials with_candidates
correlate_credentials_joins settings fresh alert st stored allowed =
    let m = related_to-IsIn settings alert st stored in
    elim (credential_compromise_candidates-IsIn alert (related_to settings alert st) m allowed) [
      | inl nothing ↦ inl (nothing, ap (λ c. with_candidates settings fresh alert c st) nothing)
      | inr c ↦ inr (with_candidates-HasJoined settings fresh alert _ st c stored)
    ]
