-- ===== src/Detection/Threshold.antt =====
-- backend/app/detection/rules: the two rules that count failed logins, in terms of the stored events.
use ai_soc.Base.{
  ℕ, ◌≤◌, ◌≡◌, refl, sym, ◌∙◌, subst, ◌⊎◌, inl, inr, Bool, true, false, ◌&&◌, List, [], ◌∷◌, Option,
  none, some, arith, length, filter, ltb, ◌==◌, ==_iff, String-equality, Text-equality,
  if◌then◌else◌, Bool-cases, ok,
}
use ai_soc.Base.Text.{Text}
use ai_soc.Base.Sort.{sort_by, count_if, length-sort_by, length-filter_count}
use ai_soc.Models.{Event}
use ai_soc.Repository.Events.{
  earlier_event, column_is, matches_identity, is_failure_between,
  recent_login_failures_by_source_ip, recent_login_failures_for_identity,
}
use ai_soc.Detection.Rules.{
  DetectionResult, Settings, Verdict, present, window_start, span, since_first, brute_force,
  brute_force_from, login_after_failures,
}

-- The rule raises nothing, and finds something exactly under the condition.
abbrev pub Decides : Verdict → Type 0 → Type 0
Decides v P = (P × ((r : DetectionResult) × (v ≡ ok (some r)))) ⊎ ((P → ⊥) × (v ≡ ok none))

-- The failed logins from an address, from `since` until the event.
abbrev pub failures_from : Text → ℕ → Event → Event → Bool
failures_from ip since e f = is_failure_between since e.timestamp f && column_is f.source_ip ip

-- Those that share the user name or the address with the event.
abbrev pub failures_like : ℕ → Event → Event → Bool
failures_like since e f =
    is_failure_between since e.timestamp f
    && matches_identity e.username e.source_ip f.username f.source_ip

length-sorted :
    (p : Event → Bool) (events : List Event)
    → length (sort_by earlier_event (filter p events)) ≡ count_if p events
length-sorted p events =
    length-sort_by earlier_event (filter p events) ∙ length-filter_count p events

-- A threshold of at least one on a list whose first element is then there.
Decides-threshold :
    (rule : List Event → Verdict)
    → ((f : Event) (fs : List Event) → (r : DetectionResult) × (rule (f ∷ fs) ≡ ok (some r)))
    → (threshold n : ℕ) (failures : List Event) → 1 ≤ threshold
    → length failures ≡ n
    → Decides (if ltb (length failures) threshold then ok none else rule failures) (threshold ≤ n)
Decides-threshold rule finds threshold n failures positive size =
    elim (Bool-cases (ltb (length failures) threshold)) [
      | inl t ↦ rw t (inr (λ h. too_few t h, refl))
      | inr f ↦ rw f (inl (enough f, first failures (omega (arith, size, enough f))))
    ]
  where
    too_few : ltb (length failures) threshold ≡ true → threshold ≤ n → ⊥
    too_few t h = absurd (ground (arith, size, h, t))

    enough : ltb (length failures) threshold ≡ false → threshold ≤ n
    enough f = ground (arith, size, f)

    first : (fs : List Event) → 1 ≤ length fs → (r : DetectionResult) × (rule fs ≡ ok (some r))
    first [] h = absurd (omega (arith, h))
    first (g ∷ fs) h = finds g fs

abbrev pub IsBruteForce : Settings → List Event → Event → Type 0
IsBruteForce settings events e =
    (e.event_type ≡ "login_failure")
    × ((ip : Text) × ((present e.source_ip ≡ some ip)
          × (settings.brute_force_threshold
              ≤ count_if (failures_from ip (window_start e settings.brute_force_window_seconds) e)
                  events)))

-- With a threshold of at least one the rule of brute force raises nothing. It finds something exactly
-- for a failed login with an address from which at least the threshold of stored failures came
-- within the window.
pub brute_force_exact :
    (settings : Settings) (events : List Event) (e : Event)
    → 1 ≤ settings.brute_force_threshold
    → Decides (brute_force settings events e) (IsBruteForce settings events e)
unfolding brute_force recent_login_failures_by_source_ip
brute_force_exact settings events e positive = elim (Bool-cases (e.event_type == "login_failure")) [
  | inl t ↦ rw t (by_ip ((==_iff e.event_type "login_failure").0 t) (present e.source_ip) refl)
  | inr f ↦ rw f (inr (λ h. other f h.0, refl))
]
  where
    other : (e.event_type == "login_failure") ≡ false → e.event_type ≡ "login_failure" → ⊥
    other f h =
        let t : (e.event_type == "login_failure") ≡ true =
          (==_iff e.event_type "login_failure").1 h in
        cc

    by_ip :
        e.event_type ≡ "login_failure"
        → (o : Option Text) → present e.source_ip ≡ o
        → Decides (brute_force_from settings events e o) (IsBruteForce settings events e)
    by_ip type none p = inr (λ h. no_ip (sym p ∙ h.1.1.0), refl)
      where
        no_ip : {ip : Text} → Path (Option Text) none (some ip) → ⊥
        no_ip q = cc
    by_ip type (some ip) p =
        let since = window_start e settings.brute_force_window_seconds in
        elim (Decides-threshold (span e) (λ f fs. (_, refl)) settings.brute_force_threshold
          (count_if (failures_from ip since e) events) _ positive
          (length-sorted (failures_from ip since e) events)) [
            | inl found ↦ inl ((type, (ip, (p, found.0))), found.1)
            | inr quiet ↦ inr (
              λ h. quiet.0 (
                  subst
                    (λ i.
                      settings.brute_force_threshold ≤ count_if (failures_from i since e) events)
                    (same (sym h.1.1.0 ∙ p)) h.1.1.1),
              quiet.1,
            )
          ]
      where
        same : {a b : Text} → Path (Option Text) (some a) (some b) → a ≡ b
        same q = cc

-- With a threshold of at least one the rule of logins after failures raises nothing. It finds
-- something exactly for a successful login that at least the threshold of stored failures with its
-- user name or its address precede within the window.
pub login_after_failures_exact :
    (settings : Settings) (events : List Event) (e : Event)
    → 1 ≤ settings.login_after_failures_threshold
    → Decides (login_after_failures settings events e) (
        (e.event_type ≡ "login_success")
        × (settings.login_after_failures_threshold
            ≤ count_if
                (failures_like (window_start e settings.login_after_failures_window_seconds) e)
                events))
unfolding login_after_failures recent_login_failures_for_identity
login_after_failures_exact settings events e positive =
    elim (Bool-cases (e.event_type == "login_success")) [
      | inr f ↦ rw f (inr (λ h. other f h.0, refl))
      | inl t ↦
          let since = window_start e settings.login_after_failures_window_seconds in
          let type = (==_iff e.event_type "login_success").0 t in
          rw t
            (elim (Decides-threshold (since_first "rule_005_login_after_failures" 86 e)
              (λ f fs. (_, refl)) settings.login_after_failures_threshold
              (count_if (failures_like since e) events) _ positive
              (length-sorted (failures_like since e) events)) [
                | inl found ↦ inl ((type, found.0), found.1)
                | inr quiet ↦ inr (λ h. quiet.0 h.1, quiet.1)
              ])
    ]
  where
    other : (e.event_type == "login_success") ≡ false → e.event_type ≡ "login_success" → ⊥
    other f h =
        let t : (e.event_type == "login_success") ≡ true =
          (==_iff e.event_type "login_success").1 h in
        cc
