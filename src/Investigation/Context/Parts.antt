-- ===== src/Investigation/Context/Parts.antt =====
-- backend/app/investigation/context.py: each cut leaves a part of the context, until one thing of each kind
-- is left.
use mathlib.Core.List.{append_assoc, append-nil}
use ai_soc.Base.{
  ◌++◌, suc, ◌-◌, ◌≤◌, ◌≡◌, refl, sym, ap, ◌∙◌, subst, inl, inr, true, false, List, [], ◌∷◌, map,
  Option, none, some, IsIn, length, arith, Bool-cases,
}
use ai_soc.Base.Slices.{
  take, drop, take_last, take-append-drop, length-map, length-drop, IsIn-take, Subset, drop-Subset,
  append-Subset, map-Subset, IsIn-map, map-IsIn,
}
use ai_soc.Base.Text.{Text}
use ai_soc.Investigation.Schemas.{TimelineContext, InvestigationContext}
use ai_soc.Investigation.Context.{
  incident_ref, alert_ref, event_ref, technique_ref, evidence_ref, shorten_alert, shorten_entry,
  refs_of, truncate, has_more, drop_end, leave_out, weight,
}

refs-Subset :
    (c d : InvestigationContext)
    → c.incident.id ≡ d.incident.id
    → c.techniques ≡ d.techniques
    → Subset (map alert_ref c.alerts) (map alert_ref d.alerts)
    → Subset (map event_ref c.events) (map event_ref d.events)
    → Subset (map evidence_ref c.incident_evidence) (map evidence_ref d.incident_evidence)
    → Subset (refs_of c) (refs_of d)
unfolding refs_of
refs-Subset c d same techniques alerts events evidence t (inl e) =
    inl (ap incident_ref (sym same) ∙ e)
refs-Subset c d same techniques alerts events evidence t (inr m) = inr (
    append-Subset (map alert_ref c.alerts) _ (map alert_ref d.alerts) _ alerts
      (append-Subset (map event_ref c.events) _ (map event_ref d.events) _ events (
        append-Subset (map technique_ref c.techniques) _ (map technique_ref d.techniques) _
          (λ a k. subst (λ ts. IsIn a (map technique_ref ts)) techniques k) evidence))
      t m)

keep : {A : Type 0} (xs : List A) → Subset xs xs
keep xs a m = m

drop_end-Subset : {A : Type 0} (xs : List A) → Subset (drop_end xs) xs
drop_end-Subset [] a m = m
drop_end-Subset (x ∷ []) a m = absurd m
drop_end-Subset (x ∷ y ∷ xs) a (inl e) = inl e
drop_end-Subset (x ∷ y ∷ xs) a (inr m) = inr (drop_end-Subset (y ∷ xs) a m)

length-drop_end : {A : Type 0} (xs : List A) → length (drop_end xs) ≡ length xs - 1
length-drop_end [] = refl
length-drop_end (x ∷ []) = refl
length-drop_end (x ∷ y ∷ xs) = omega (arith, length-drop_end (y ∷ xs))

has_more_iff : {A : Type 0} (xs : List A) → has_more xs ≡ true → 2 ≤ length xs
has_more_iff [] e = cc
has_more_iff (x ∷ []) e = cc
has_more_iff (x ∷ y ∷ xs) e = omega arith

few_iff : {A : Type 0} (xs : List A) → has_more xs ≡ false → length xs ≤ 1
few_iff [] e = omega arith
few_iff (x ∷ []) e = omega arith
few_iff (x ∷ y ∷ xs) e = cc

-- An entry that shows another one, with a description that may be cut.
abbrev pub IsCut : TimelineContext → TimelineContext → Type 0
IsCut e x = (e.timestamp ≡ x.timestamp) × ((rest : Text) × (e.description ++ rest ≡ x.description))

-- Each entry shows one of those.
abbrev pub ShowsOnly : List TimelineContext → List TimelineContext → Type 0
ShowsOnly entries xs =
    (e : TimelineContext) → IsIn e entries → (x : TimelineContext) × (IsIn x xs × IsCut e x)

IsCut-trans : (e x y : TimelineContext) → IsCut e x → IsCut x y → IsCut e y
IsCut-trans e x y (t, (r, p)) (t', (r', q)) =
    (t ∙ t', (r ++ r', sym (append_assoc e.description r r') ∙ ap (λ s. s ++ r') p ∙ q))

Subset-ShowsOnly : (entries xs : List TimelineContext) → Subset entries xs → ShowsOnly entries xs
Subset-ShowsOnly entries xs h e m = (e, (h e m, (refl, ([], append-nil e.description))))

-- A part of a context: it cites nothing and shows no entry that the whole one does not.
pub record IsPart (c d : InvestigationContext) : Type 0 where
  pub refs : Subset (refs_of c) (refs_of d)
  pub same_valid : c.valid_evidence_refs ≡ d.valid_evidence_refs
  pub entries : ShowsOnly c.timeline d.timeline
  pub no_longer : length c.timeline ≤ length d.timeline

pub IsPart-refl : (c : InvestigationContext) → IsPart c c
IsPart-refl c = record {
  refs = keep _;
  same_valid = refl;
  entries = Subset-ShowsOnly c.timeline c.timeline (keep _);
  no_longer = omega arith;
}

pub IsPart-trans : {c d e : InvestigationContext} → IsPart c d → IsPart d e → IsPart c e
IsPart-trans h k = record {
  refs = λ a m. k.refs a (h.refs a m);
  same_valid = h.same_valid ∙ k.same_valid;
  entries = λ a m.
      let (x, (n, cut)) = h.entries a m in
      let (y, (l, cut')) = k.entries x n in (y, (l, IsCut-trans a x y cut cut'));
  no_longer = omega (arith, h.no_longer, k.no_longer);
}

pub truncate-IsPart : (c : InvestigationContext) → IsPart (truncate c) c
unfolding truncate
truncate-IsPart c = record {
  refs =
      refs-Subset (truncate c) c refl refl short
        (map-Subset event_ref (take_last 50 c.events) c.events (drop-Subset _ c.events))
        (map-Subset evidence_ref (take 30 c.incident_evidence) c.incident_evidence
          (λ a m. IsIn-take 30 a c.incident_evidence m));
  same_valid = refl;
  entries = λ e m.
      let (x, (k, same)) = IsIn-map shorten_entry e (take_last 50 c.timeline) m in
      (
        x,
        (
          drop-Subset _ c.timeline x k,
          subst (λ y. IsCut y x) same
              (refl, (drop 500 x.description, take-append-drop 500 x.description)),
        ),
      );
  no_longer = omega (
    arith,
    length-map shorten_entry (take_last 50 c.timeline),
    length-drop (length c.timeline - 50) c.timeline,
  );
}
  where
    short :
        Subset (map alert_ref (map shorten_alert (take_last 50 c.alerts))) (map alert_ref c.alerts)
    short t m =
        let (a, (k, e)) = IsIn-map alert_ref t (map shorten_alert (take_last 50 c.alerts)) m in
        let (b, (l, f)) = IsIn-map shorten_alert a (take_last 50 c.alerts) k in
        subst (λ x. IsIn x (map alert_ref c.alerts)) (ap alert_ref f ∙ e)
          (map-IsIn alert_ref b c.alerts (drop-Subset _ c.alerts b l))

-- At most one thing of each kind is left.
pub record IsMinimal (c : InvestigationContext) : Type 0 where
  pub few_entries : length c.timeline ≤ 1
  pub few_events : length c.events ≤ 1
  pub few_alerts : length c.alerts ≤ 1
  pub few_evidence : length c.incident_evidence ≤ 1

abbrev pub LeavesOut : InvestigationContext → Option InvestigationContext → Type 0
LeavesOut c none = IsMinimal c
LeavesOut c (some d) = IsPart d c × (weight c ≡ suc (weight d))

-- What is left when the timeline stays.
same_timeline-IsPart :
    (c d : InvestigationContext)
    → c.timeline ≡ d.timeline
    → c.valid_evidence_refs ≡ d.valid_evidence_refs
    → Subset (refs_of c) (refs_of d)
    → IsPart c d
same_timeline-IsPart c d same valid refs = record {
  refs = refs;
  same_valid = valid;
  entries = Subset-ShowsOnly c.timeline d.timeline (λ a m. subst (IsIn a) same m);
  no_longer = omega (arith, ap length same);
}

pub leave_out-LeavesOut : (c : InvestigationContext) → LeavesOut c (leave_out c)
unfolding leave_out
leave_out-LeavesOut c = elim (Bool-cases (has_more c.timeline)) [
  | inl a ↦ rw a (
    record {
      refs = refs-Subset _ c refl refl (keep _) (keep _) (keep _);
      same_valid = refl;
      entries = Subset-ShowsOnly (drop 1 c.timeline) c.timeline (drop-Subset 1 c.timeline);
      no_longer = omega (arith, length-drop 1 c.timeline);
    },
    omega (arith, has_more_iff c.timeline a, length-drop 1 c.timeline),
  )
  | inr a ↦ rw a (elim (Bool-cases (has_more c.events)) [
    | inl b ↦ rw b (
      same_timeline-IsPart _ c refl refl (
          refs-Subset _ c refl refl (keep _) (map-Subset event_ref _ _ (drop-Subset 1 c.events))
            (keep _)),
      omega (arith, has_more_iff c.events b, length-drop 1 c.events),
    )
    | inr b ↦ rw b (elim (Bool-cases (has_more c.alerts)) [
      | inl d ↦ rw d (
        same_timeline-IsPart _ c refl refl (
            refs-Subset _ c refl refl (map-Subset alert_ref _ _ (drop-Subset 1 c.alerts)) (keep _)
              (keep _)),
        omega (arith, has_more_iff c.alerts d, length-drop 1 c.alerts),
      )
      | inr d ↦ rw d (elim (Bool-cases (has_more c.incident_evidence)) [
        | inl e ↦ rw e (
          same_timeline-IsPart _ c refl refl (
              refs-Subset _ c refl refl (keep _) (keep _)
                (map-Subset evidence_ref _ _ (drop_end-Subset c.incident_evidence))),
          omega (arith, has_more_iff c.incident_evidence e, length-drop_end c.incident_evidence),
        )
        | inr e ↦ rw e (record {
          few_entries = few_iff c.timeline a;
          few_events = few_iff c.events b;
          few_alerts = few_iff c.alerts d;
          few_evidence = few_iff c.incident_evidence e;
        })
      ])
    ])
  ])
]
