-- ===== src/Detection/Engine.antt =====
-- backend/app/detection/registry.py and engine.py: the rules in their order, and the alerts of what
-- they find.
use ai_soc.Base.{
  ok_inj, ℕ, suc, ◌≡◌, refl, sym, ap, ◌∙◌, ◌↔◌, subst, inl, inr, String, List, [], ◌∷◌, Option,
  none, some, IsIn, find, contains, ◌==◌, String-equality, if◌then◌else◌, Result, ok, err,
}
use ai_soc.Models.{Event, Alert}
use ai_soc.Detection.Rules.{DetectionResult, DetectionError, Verdict}

-- A rule on the events that are stored.
pub record DetectionRule : Type 0 where
  pub id : String
  pub evaluate : List Event → Event → Verdict

-- `RuleRegistry.__init__`: the first identifier that is there already is an error.
unfoldable pub new_registry : List String → List DetectionRule → Result String (List DetectionRule)
new_registry seen [] = ok []
new_registry seen (r ∷ rules) =
    if contains seen r.id
    then err r.id
    else elim (new_registry (r.id ∷ seen) rules) [ ok rest ↦ ok (r ∷ rest) | err e ↦ err e ]

unfoldable pub get : String → List DetectionRule → Option DetectionRule
get id rules = find (λ r. r.id == id) rules

abbrev pub add_match : Option DetectionResult → List DetectionResult → List DetectionResult
add_match none matches = matches
add_match (some m) matches = m ∷ matches

abbrev pub cons_match :
    Verdict
    → Result DetectionError (List DetectionResult)
    → Result DetectionError (List DetectionResult)
cons_match (err e) rest = err e
cons_match (ok m) (err e) = err e
cons_match (ok m) (ok matches) = ok (add_match m matches)

-- A rule that raises ends the evaluation.
unfoldable pub evaluate_event :
    List DetectionRule → List Event → Event → Result DetectionError (List DetectionResult)
evaluate_event [] events e = ok []
evaluate_event (r ∷ rules) events e =
    let rest = evaluate_event rules events e in cons_match (r.evaluate events e) rest

abbrev pub or_time : Option ℕ → ℕ → ℕ
or_time none t = t
or_time (some s) t = s

-- The alerts, with the identifiers and the time of their rows.
abbrev pub alert_of : Event → ℕ → ℕ → DetectionResult → Alert
alert_of e now id m = record {
  id = id;
  rule_id = m.rule_id;
  event_id = e.id;
  severity = m.severity;
  confidence = m.confidence;
  status = "new";
  source_ip = m.source_ip;
  username = m.username;
  first_seen = or_time m.first_seen e.timestamp;
  last_seen = or_time m.last_seen e.timestamp;
  created_at = now;
}

unfoldable pub build_alerts : Event → ℕ → ℕ → List DetectionResult → List Alert
build_alerts e now id [] = []
build_alerts e now id (m ∷ matches) = alert_of e now id m ∷ build_alerts e now (suc id) matches

module _ (events : List Event) (e : Event) where
  -- A rule of the list finds `m`.
  abbrev pub IsFound : List DetectionRule → DetectionResult → Type 0
  IsFound rules m = (r : DetectionRule) × (IsIn r rules × (r.evaluate events e ≡ ok (some m)))

  abbrev IsMatch : List DetectionRule → DetectionResult → List DetectionResult → Type 0
  IsMatch rules m matches = IsIn m matches ↔ IsFound rules m

  IsMatch-step :
      (r : DetectionRule) (rules : List DetectionRule) (v : Verdict)
      (rest : Result DetectionError (List DetectionResult)) (matches : List DetectionResult)
      (m : DetectionResult)
      → r.evaluate events e ≡ v
      → cons_match v rest ≡ ok matches
      → ((ms : List DetectionResult) → rest ≡ ok ms → IsMatch rules m ms)
      → IsMatch (r ∷ rules) m matches
  IsMatch-step r rules (err x) rest matches m runs h ih = absurd (cc)
  IsMatch-step r rules (ok o) (err x) matches m runs h ih = absurd (cc)
  IsMatch-step r rules (ok none) (ok ms) matches m runs h ih =
      subst (IsMatch (r ∷ rules) m) (ok_inj h) (
        λ k. let (s, (there, found)) = (ih ms refl).0 k in (s, (inr there, found)),
        λ k. (ih ms refl).1 (later k),
      )
    where
      none_is_not : {x : DetectionResult} → Path Verdict (ok none) (ok (some x)) → ⊥
      none_is_not q = cc

      later : IsFound (r ∷ rules) m → IsFound rules m
      later (s, (inl same, found)) =
          absurd
            (none_is_not (sym runs ∙ ap (λ (x : DetectionRule). x.evaluate events e) same ∙ found))
      later (s, (inr there, found)) = (s, (there, found))
  IsMatch-step r rules (ok (some x)) (ok ms) matches m runs h ih =
      subst (IsMatch (r ∷ rules) m) (ok_inj h) (only, enough)
    where
      some_inj : {a b : DetectionResult} → Path Verdict (ok (some a)) (ok (some b)) → a ≡ b
      some_inj q = cc

      only : IsIn m (x ∷ ms) → IsFound (r ∷ rules) m
      only (inl same) = (r, (inl refl, runs ∙ ap (λ (y : DetectionResult). ok (some y)) same))
      only (inr k) = let (s, (there, found)) = (ih ms refl).0 k in (s, (inr there, found))

      enough : IsFound (r ∷ rules) m → IsIn m (x ∷ ms)
      enough (s, (inl same, found)) =
          inl (some_inj (sym runs ∙ ap (λ (y : DetectionRule). y.evaluate events e) same ∙ found))
      enough (s, (inr there, found)) = inr ((ih ms refl).1 (s, (there, found)))

  -- When no rule raises, the matches are what the rules of the registry find.
  pub evaluate_event_exact :
      (rules : List DetectionRule) (matches : List DetectionResult)
      → evaluate_event rules events e ≡ ok matches
      → (m : DetectionResult) → IsIn m matches ↔ IsFound rules m
  unfolding evaluate_event
  evaluate_event_exact [] matches h m =
      subst (IsMatch [] m) (ok_inj h) (λ k. absurd k, λ k. absurd k.1.0)
  evaluate_event_exact (r ∷ rules) matches h m =
      IsMatch-step r rules (r.evaluate events e) (evaluate_event rules events e) matches m refl h
        (λ ms e'. evaluate_event_exact rules ms e' m)
