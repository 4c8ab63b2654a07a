-- ===== src/Response/Policy/Gate.antt =====
-- What the policy gate guarantees: when an action runs by itself, when it waits, when it is refused.
use ai_soc.Base.{
  ℕ, ◌-◌, ◌/◌, ◌≤◌, ◌<◌, ◌≡◌, refl, ◌≢◌, ◌↔◌, ◌⊎◌, inl, inr, Bool, true, false, [], Option, none,
  some, map, arith, subst, IsIn, contains, contains→IsIn, IsIn→contains, filter-IsIn, filter-none,
  Text-equality, Bool-cases, find,
}
use ai_soc.Base.Text.{strip}
use ai_soc.Base.Ipv4.{in_network, parse_ipv4}
use ai_soc.Base.Text.{Text}
use ai_soc.Response.Actions.{ProposedAction, tier, tier_value}
use ai_soc.Response.Breaker.{CircuitBreaker, hour, is_disruptive, is_tripped}
use ai_soc.Response.Breaker.Window.{everything, count_since}
use ai_soc.Response.Breaker.Caps.{is_tripped_exact}
use ai_soc.Response.Policy.{
  PolicyContext, PolicyDecision, normalize, first_network, default_protected_networks, is_grounded,
  is_protected, protecting_network, invalid_refs, evaluate_tier, evaluate_target, evaluate,
}

abbrev IsOutside : ℕ → Type 0
IsOutside ip = (ip / 16777216 ≢ 127) × (ip / 65536 ≢ 43518)

in_network→IsOutside :
    (ip : ℕ) → find (in_network ip) default_protected_networks ≡ none → IsOutside ip
in_network→IsOutside ip h = (λ e. ground arith, λ e. ground arith)

IsOutside→in_network :
    (ip : ℕ) → IsOutside ip → find (in_network ip) default_protected_networks ≡ none
IsOutside→in_network ip h = ground arith

first_network_iff :
    (o : Option ℕ) → (first_network o ≡ none) ↔ ((ip : ℕ) → o ≡ some ip → IsOutside ip)
first_network_iff none = (λ h ip e. cc, λ h. refl)
first_network_iff (some n) =
    (λ h ip e. in_network→IsOutside ip (ground (arith, h)), λ h. IsOutside→in_network n (h n refl))

module _ (a : ProposedAction) (c : PolicyContext) where
  is_grounded_iff :
      (is_grounded a c ≡ true) ↔ IsIn (normalize a.target) (map normalize c.incident_entities)
  unfolding is_grounded
  is_grounded_iff = (contains→IsIn _ _, IsIn→contains _ _)

  is_protected_iff :
      (is_protected a c ≡ true) ↔ IsIn (normalize a.target) (map normalize c.protected_entities)
  unfolding is_protected
  is_protected_iff = (contains→IsIn _ _, IsIn→contains _ _)

  invalid_refs-empty→cited :
      invalid_refs a c ≡ [] → (r : Text) → IsIn r a.evidence_refs → IsIn r c.valid_evidence_refs
  unfolding invalid_refs
  invalid_refs-empty→cited none_left r cited =
      elim (Bool-cases (contains c.valid_evidence_refs r)) [
        | inl valid ↦ contains→IsIn r _ valid
        | inr invalid ↦
            absurd (subst (IsIn r) none_left (filter-IsIn _ r a.evidence_refs cited (rw invalid)))
      ]

  cited→invalid_refs-empty :
      ((r : Text) → IsIn r a.evidence_refs → IsIn r c.valid_evidence_refs) → invalid_refs a c ≡ []
  unfolding invalid_refs
  cited→invalid_refs-empty all_valid =
      filter-none _ a.evidence_refs λ r m. rw (IsIn→contains r _ (all_valid r m))

  IsOutside-iff :
      (protecting_network a ≡ none)
      ↔ ((ip : ℕ) → parse_ipv4 (strip a.target) ≡ some ip → IsOutside ip)
  unfolding protecting_network
  IsOutside-iff = first_network_iff (parse_ipv4 (strip a.target))

  tier_iff :
      ((evaluate_tier a c).allowed ≡ true) × ((evaluate_tier a c).requires_human_approval ≡ false)
      ↔ (tier_value (tier a) ≡ 0)
        ⊎ ((tier_value (tier a) ≡ 1) × (c.min_auto_confidence ≤ a.confidence))
  unfolding evaluate_tier
  tier_iff = (λ h. ground arith, λ h. ground arith)

-- What it takes for an action to run with nobody asked.
pub record MayAutoExecute (now : ℕ) (b : CircuitBreaker) (a : ProposedAction) (c : PolicyContext)
    : Type 0 where
  pub running : b.kill_switch ≡ false
  pub below_cap : count_since everything (now - hour) b.history < b.max_actions_per_hour
  pub below_disruptive_cap :
      count_since is_disruptive (now - hour) b.history < b.max_disruptive_actions_per_hour
  pub grounded : IsIn (normalize a.target) (map normalize c.incident_entities)
  pub unprotected : ¬ IsIn (normalize a.target) (map normalize c.protected_entities)
  pub outside : (ip : ℕ) → parse_ipv4 (strip a.target) ≡ some ip → IsOutside ip
  pub cited : (r : Text) → IsIn r a.evidence_refs → IsIn r c.valid_evidence_refs
  pub low_tier :
      (tier_value (tier a) ≡ 0)
      ⊎ ((tier_value (tier a) ≡ 1) × (c.min_auto_confidence ≤ a.confidence))

abbrev pub RunsAlone : PolicyDecision → Type 0
RunsAlone d = (d.allowed ≡ true) × (d.requires_human_approval ≡ false)

evaluate_target_iff :
    (a : ProposedAction) (c : PolicyContext)
    → RunsAlone (evaluate_target a c) ↔ (
        (is_grounded a c ≡ true)
        × (is_protected a c ≡ false)
        × (protecting_network a ≡ none)
        × (invalid_refs a c ≡ [])
        × RunsAlone (evaluate_tier a c))
unfolding evaluate_target
evaluate_target_iff a c = (λ h. ground arith, λ h. ground arith)

evaluate_iff :
    (now : ℕ) (b : CircuitBreaker) (a : ProposedAction) (c : PolicyContext)
    → RunsAlone (evaluate now b a c).1
      ↔ (((is_tripped now b).1.0 ≡ false) × RunsAlone (evaluate_target a c))
unfolding evaluate
evaluate_iff now b a c = (λ h. ground arith, λ h. ground arith)

false_iff : {P : Type 0} (x : Bool) → ((x ≡ true) ↔ P) → (x ≡ false) ↔ (¬ P)
false_iff true h = (λ e. cc, λ n. absurd (n (h.0 refl)))
false_iff false h = (λ e p. let t : false ≡ true = h.1 p in cc, λ n. refl)

-- An action runs with nobody asked exactly when the kill switch is off, both hourly counts are
-- below their caps, its target is an entity of the incident and neither a protected entity nor an
-- IPv4 address of a protected network, all the evidence it cites is the incident's, and it is of
-- tier 0, or of tier 1 with at least the confidence that the context asks.
pub auto_execute_exact :
    (now : ℕ) (b : CircuitBreaker) (a : ProposedAction) (c : PolicyContext)
    → RunsAlone (evaluate now b a c).1 ↔ MayAutoExecute now b a c
auto_execute_exact now b a c = (
  λ h.
      let (passed, h') = (evaluate_iff now b a c).0 h in
      let (on, below, below') = (is_tripped_exact now b).0 passed in
      let (g, p, n, r, t) = (evaluate_target_iff a c).0 h' in
      record {
        running = on;
        below_cap = below;
        below_disruptive_cap = below';
        grounded = (is_grounded_iff a c).0 g;
        unprotected = (false_iff _ (is_protected_iff a c)).0 p;
        outside = (IsOutside-iff a c).0 n;
        cited = invalid_refs-empty→cited a c r;
        low_tier = (tier_iff a c).0 t;
      },
  λ m. (evaluate_iff now b a c).1 (
    (is_tripped_exact now b).1 (m.running, m.below_cap, m.below_disruptive_cap),
    (evaluate_target_iff a c).1 (
      (is_grounded_iff a c).1 m.grounded,
      (false_iff _ (is_protected_iff a c)).1 m.unprotected,
      (IsOutside-iff a c).1 m.outside,
      cited→invalid_refs-empty a c m.cited,
      (tier_iff a c).1 m.low_tier,
    ),
  ),
)

-- A decision that asks for a human allows the action; it does so for every action of tier 2 or 3
-- that it allows, and for one of tier 1 exactly when its confidence is too low, and for none of
-- tier 0. The decision is about the action that was proposed.
pub human_gate :
    (now : ℕ) (b : CircuitBreaker) (a : ProposedAction) (c : PolicyContext)
    → let d = (evaluate now b a c).1 in
      (d.action ≡ a)
      × (d.requires_human_approval ≡ true → d.allowed ≡ true)
      × (d.allowed ≡ true
          → (d.requires_human_approval ≡ true) ↔ (
              (2 ≤ tier_value (tier a))
              ⊎ ((tier_value (tier a) ≡ 1) × (a.confidence < c.min_auto_confidence))))
unfolding evaluate evaluate_target evaluate_tier
human_gate now b a c =
    (ground arith, λ h. ground arith, λ h. (λ k. ground arith, λ k. ground arith))
