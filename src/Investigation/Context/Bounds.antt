-- ===== src/Investigation/Context/Bounds.antt =====
-- backend/app/investigation/context.py: the context stays within its limit, the loop ends, and what may be
-- cited is what is shown.
use ai_soc.Base.{
  map, length, ℕ, zero, suc, ◌≤◌, ◌<◌, ◌≡◌, refl, sym, ◌∙◌, subst, ◌↔◌, inl, inr, Bool, true, false,
  List, [], ◌∷◌, Option, none, some, IsIn, contains, IsIn→contains, leb, leb→le, leb_false→lt,
  arith, Bool-cases, Result, ok, err, Text-equality,
}
use ai_soc.Base.Text.{Text}
use ai_soc.Base.Sort.{IsIn-sort_by, sort_by-IsIn}
use ai_soc.Base.Slices.{Subset, take, length-map, length-take}
use ai_soc.Base.Table.{IsNodup, sort_by-IsNodup, get_row}
use ai_soc.Models.{Incident}
use ai_soc.Correlation.Identity.{text_le}
use ai_soc.Investigation.Schemas.{TimelineContext, InvestigationContext}
use ai_soc.Investigation.Validation.{distinct}
use ai_soc.Investigation.Validation.Grounded.{IsIn-distinct, distinct-IsIn}
use ai_soc.Investigation.Workflow.{WorkflowError, context_too_large}
use ai_soc.Investigation.Context.{
  timeline_context, RowTexts, ContextTables, refs_of, sorted_refs, collect_context, truncate,
  leave_out, weight, shrink, finish, enforce_size, build,
}
use ai_soc.Investigation.Context.Parts.{
  ShowsOnly, IsPart, IsPart-refl, IsPart-trans, truncate-IsPart, IsMinimal, LeavesOut,
  leave_out-LeavesOut,
}

distinct-IsNodup : (ts : List Text) → IsNodup (distinct ts)
distinct-IsNodup [] = tt
distinct-IsNodup (t ∷ ts) = elim (Bool-cases (contains (distinct ts) t)) [
  | inl old ↦ rw old (distinct-IsNodup ts)
  | inr new ↦
      rw new (λ m. true_false (sym (IsIn→contains t (distinct ts) m) ∙ new), distinct-IsNodup ts)
]
  where
    true_false : Path Bool true false → ⊥
    true_false q = cc

sorted_refs_iff :
    (c : InvestigationContext) (t : Text) → IsIn t (sorted_refs c) ↔ IsIn t (refs_of c)
unfolding sorted_refs
sorted_refs_iff c t = (
  λ m. IsIn-distinct t (refs_of c) (IsIn-sort_by text_le t (distinct (refs_of c)) m),
  λ m. sort_by-IsIn text_le t (distinct (refs_of c)) (distinct-IsIn t (refs_of c) m),
)

sorted_refs-IsNodup : (c : InvestigationContext) → IsNodup (sorted_refs c)
unfolding sorted_refs
sorted_refs-IsNodup c =
    sort_by-IsNodup text_le (distinct (refs_of c)) (distinct-IsNodup (refs_of c))

module _ (size : InvestigationContext → ℕ) (max_chars : ℕ) where
  -- What the loop gives: a part that fits, or an error because not even a minimal part does.
  abbrev Shrunk : InvestigationContext → Result WorkflowError InvestigationContext → Type 0
  Shrunk c (ok d) = IsPart d c × (size d ≤ max_chars)
  Shrunk c (err e) =
      (e ≡ context_too_large)
      × ((d : InvestigationContext) × (IsPart d c × (IsMinimal d × (max_chars < size d))))

  Shrunk-part :
      (c d : InvestigationContext) (r : Result WorkflowError InvestigationContext)
      → IsPart d c
      → Shrunk d r
      → Shrunk c r
  Shrunk-part c d (ok b) part (h, fits) = (IsPart-trans h part, fits)
  Shrunk-part c d (err e) part (same, (b, (h, k))) = (same, (b, (IsPart-trans h part, k)))

  shrink-Shrunk :
      (fuel : ℕ) (c : InvestigationContext)
      → weight c < fuel
      → Shrunk c (shrink size max_chars fuel c)
  unfolding shrink
  shrink-Shrunk zero c h = absurd (omega arith)
  shrink-Shrunk (suc fuel) c h = tested (leb (size c) max_chars) refl (shrink-Shrunk fuel)
    where
      cut :
          max_chars < size c
          → (next : Option InvestigationContext) → LeavesOut c next
          → ((d : InvestigationContext) → weight d < fuel → Shrunk d (shrink size max_chars fuel d))
          → Shrunk c
              (elim next [ none ↦ err context_too_large | some d ↦ shrink size max_chars fuel d ])
      cut big none minimal ih = (refl, (c, (IsPart-refl c, (minimal, big))))
      cut big (some d) (part, lighter) ih =
          Shrunk-part c d (shrink size max_chars fuel d) part (ih d (omega arith))

      tested :
          (small : Bool)
          → leb (size c) max_chars ≡ small
          → ((d : InvestigationContext) → weight d < fuel → Shrunk d (shrink size max_chars fuel d))
          → Shrunk c (elim small [
            | true ↦ ok c
            | false ↦ elim (leave_out c) [
              | none ↦ err context_too_large
              | some d ↦ shrink size max_chars fuel d
            ]
          ])
      tested true e ih = (IsPart-refl c, leb→le (size c) max_chars e)
      tested false e ih =
          cut (leb_false→lt (size c) max_chars e) (leave_out c) (leave_out-LeavesOut c) ih

  -- A part of `c` within the limit, that lists as valid just the references of what it shows, and
  -- shows at most fifty of the entries `xs`.
  pub record Fits (xs : List TimelineContext) (c d : InvestigationContext) : Type 0 where
    pub within : size d ≤ max_chars
    pub cited : (t : Text) → IsIn t d.valid_evidence_refs ↔ IsIn t (refs_of d)
    pub collected : Subset (refs_of d) (refs_of c)
    pub shown : ShowsOnly d.timeline xs
    pub at_most_fifty : length d.timeline ≤ 50

  -- What `build` gives for an incident with the context `c` before any cut, of which `xs` is the
  -- timeline.
  abbrev pub Built :
      List TimelineContext
      → InvestigationContext
      → Result WorkflowError InvestigationContext
      → Type 0
  Built xs c (ok d) = Fits xs c d
  Built xs c (err e) =
      (e ≡ context_too_large)
      × ((d : InvestigationContext) × (IsPart d c × (IsMinimal d × (max_chars < size d))))

  -- A text with fewer references is not longer.
  module _
      (fewer_refs : (c : InvestigationContext) (refs : List Text)
        → IsNodup refs
        → Subset refs c.valid_evidence_refs
        → size (record c { valid_evidence_refs = refs }) ≤ size c) where
    finish-Built :
        (c : InvestigationContext)
        → length c.timeline ≤ 50
        → ((t : Text) → IsIn t c.valid_evidence_refs ↔ IsIn t (refs_of c))
        → (r : Result WorkflowError InvestigationContext) → Shrunk c r
        → Built c.timeline c (finish size max_chars r)
    unfolding refs_of
    finish-Built c few cited (err e) h = h
    finish-Built c few cited (ok d) (part, fits) = record {
      within = omega (arith, fewer_refs d (sorted_refs d) (sorted_refs-IsNodup d) subset, fits);
      cited = sorted_refs_iff d;
      collected = part.refs;
      shown = part.entries;
      at_most_fifty = omega (arith, part.no_longer, few);
    }
      where
        subset : Subset (sorted_refs d) d.valid_evidence_refs
        subset t m =
            subst (IsIn t) (sym part.same_valid)
              ((cited t).1 (part.refs t ((sorted_refs_iff d t).0 m)))

    enforce_size-Built :
        (c : InvestigationContext)
        → length c.timeline ≤ 50
        → ((t : Text) → IsIn t c.valid_evidence_refs ↔ IsIn t (refs_of c))
        → Built c.timeline c (enforce_size size max_chars c)
    unfolding enforce_size
    enforce_size-Built c few cited = elim (Bool-cases (leb (size c) max_chars)) [
      | inl small ↦ rw small (record {
        within = leb→le (size c) max_chars small;
        cited = cited;
        collected = (IsPart-refl c).refs;
        shown = (IsPart-refl c).entries;
        at_most_fifty = few;
      })
      | inr large ↦ rw large (
          finish-Built c few cited _ (
            Shrunk-part c (truncate c) _ (truncate-IsPart c)
              (shrink-Shrunk (suc (weight (truncate c))) (truncate c) (omega arith))))
    ]

    -- If no context gets longer by listing fewer references, then for an incident that is there the
    -- builder ends: with a context within the limit that lists as valid just the references of what it
    -- shows, all of them collected, and shows at most fifty entries, each one of the first fifty of the
    -- incident's timeline with its description perhaps cut; or with an error, and then a part of the
    -- context with at most one entry, one event, one alert and one piece of evidence exceeds the limit.
    pub build-Built :
        (texts : RowTexts) (db : ContextTables) (incident : ℕ) (i : Incident)
        → get_row (λ x. x.id) incident db.tables.incidents ≡ some i
        → Built
            (map (timeline_context texts) (take 50 i.timeline))
            (collect_context texts db i)
            (build size max_chars texts db incident)
    unfolding build collect_context refs_of sorted_refs
    build-Built texts db incident i e = rw e (
        enforce_size-Built (collect_context texts db i)
          (omega (
            arith,
            length-map (timeline_context texts) (take 50 i.timeline),
            length-take 50 i.timeline,
          ))
          (λ t. sorted_refs_iff (collect_context texts db i) t))
