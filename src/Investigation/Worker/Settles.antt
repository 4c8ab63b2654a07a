-- ===== src/Investigation/Worker/Settles.antt =====
-- backend/app/workers/investigation.py: what processing an investigation does to the rows, whatever
-- the builder, the provider and the plan do.
use ai_soc.Base.{
  ℕ, ◌≡◌, refl, subst, ◌⊎◌, inl, inr, Bool, true, false, List, map, find, find-IsIn, Option, none,
  some, IsIn, Result, ok, err, ◌==◌, ==_iff, ℕ-equality, Bool-cases,
}
use ai_soc.Base.Table.{IsNodup, put_row, put_row-put_row, get_row-put_row}
use ai_soc.Investigation.Schemas.{InvestigationContext, InvestigationResult}
use ai_soc.Investigation.Workflow.{WorkflowError, Analysis, analyse}
use ai_soc.Investigation.Workflow.Actions.{World}
use ai_soc.Investigation.Workflow.Outcome.{IsSound, analyse-IsSound}
use ai_soc.Investigation.Rows.{
  queued, completed, failed, InvestigationStatus-equality, Investigation, row_id, context_key,
  claimed, is_claimable, claim, checkpoint_context, complete, fail,
}
use ai_soc.Investigation.Worker.{
  Run, failed_with, act, analysed, loaded, process_claimed, process_investigation,
}

-- A stored result is sound for the stored context.
abbrev pub HasSoundResult : Investigation → Type 0
HasSoundResult a =
    (c : InvestigationContext) × ((x : InvestigationResult) × ((a.context_snapshot ≡ some c)
        × ((a.result ≡ some x) × IsSound c x)))

abbrev pub IsFinal : Investigation → Type 0
IsFinal a = (a.status ≡ failed) ⊎ ((a.status ≡ completed) × HasSoundResult a)

-- The columns that no write changes.
abbrev pub SameRow : Investigation → Investigation → Type 0
SameRow r a = (r.id ≡ a.id) × (context_key r ≡ context_key a)

-- The row was replaced by a final one.
abbrev pub Ends : List Investigation → Investigation → List Investigation → Type 0
Ends rows r rows' =
    (a : Investigation) × (SameRow r a × (IsFinal a × (rows' ≡ put_row row_id a rows)))

module _ {D R : Type 0} (run : Run D R) (rows : List Investigation)
    (ids : IsNodup (map row_id rows)) (r : Investigation) (there : IsIn r rows) where
  failed_with-Ends :
      (e : WorkflowError) (w : World R) (b : Investigation)
      → SameRow r b
      → Ends rows r (failed_with run e b.id w (put_row row_id b rows)).0.0
  unfolding fail
  failed_with-Ends e w b same =
      rw (get_row-put_row row_id r b rows ids there same.0)
        (_, (same, (inl refl, put_row-put_row row_id _ b rows refl)))

  act-Ends :
      (context : InvestigationContext) (a : Analysis D) (w : World R) (b : Investigation)
      → SameRow r b
      → IsSound context a.result
      → Ends rows r (act run context a b.id w (put_row row_id b rows)).0.0
  unfolding complete
  act-Ends context a w b same sound = rw (get_row-put_row row_id r b rows ids there same.0) (
    _,
    (
      same,
      (
        inr (refl, (context, (a.result, (refl, (refl, sound))))),
        put_row-put_row row_id _ b rows refl,
      ),
    ),
  )

  analysed-Ends :
      (context : InvestigationContext) (x : Result WorkflowError (Analysis D)) (w : World R)
      (b : Investigation)
      → SameRow r b
      → ((a : Analysis D) → x ≡ ok a → IsSound context a.result)
      → Ends rows r (analysed run context x b.id w (put_row row_id b rows)).0.0
  analysed-Ends context (err e) w b same sound = failed_with-Ends e w b same
  analysed-Ends context (ok a) w b same sound = act-Ends context a w b same (sound a refl)

  loaded-Ends :
      (built : Result WorkflowError InvestigationContext) (w : World R) (b : Investigation)
      → SameRow r b
      → Ends rows r (loaded run built b.id w (some b) (put_row row_id b rows)).0.0
  unfolding checkpoint_context
  loaded-Ends (err e) w b same = failed_with-Ends e w b same
  loaded-Ends (ok context) w b same =
      rw (put_row-put_row row_id (checkpoint_context run.now context b) b rows refl) (
        analysed-Ends context (analyse run.provider context run.cancel_flag) w
          (checkpoint_context run.now context b) same
          (λ a e. (analyse-IsSound run.provider context run.cancel_flag a e).0))

  processed-Ends :
      (w : World R)
      → Ends rows r
          (process_claimed run
            (some (claimed run.now r))
            r.id
            w
            (put_row row_id (claimed run.now r) rows)).0.0
  processed-Ends w =
      rw (get_row-put_row row_id r (claimed run.now r) rows ids there refl)
        (loaded-Ends (run.build r.incident_id) w (claimed run.now r) (refl, refl))

is_claimable_iff :
    (id : ℕ) (r : Investigation) → is_claimable id r ≡ true → (r.id ≡ id) × (r.status ≡ queued)
is_claimable_iff id r t = elim (Bool-cases (r.id == id)) [
  | inl same ↦ ((==_iff r.id id).0 same, (==_iff r.status queued).0 (rw same at t))
  | inr other ↦ absurd (false_true (rw other at t))
]
  where
    false_true : Path Bool false true → ⊥
    false_true q = cc

-- Nothing is changed, or the queued row of the identifier is replaced by a final one.
pub process_investigation-settles :
    {D R : Type 0} (run : Run D R) (id : ℕ) (w : World R) (rows : List Investigation)
    → IsNodup (map row_id rows)
    → (((find (is_claimable id) rows ≡ none) × ((process_investigation run id w rows).0.0 ≡ rows))
        ⊎ ((r : Investigation) × (IsIn r rows
              × ((r.id ≡ id)
                  × ((r.status ≡ queued)
                      × Ends rows r (process_investigation run id w rows).0.0)))))
unfolding process_investigation claim
process_investigation-settles run id w rows ids = by_search (find (is_claimable id) rows) refl
  where
    by_search :
        (found : Option Investigation)
        → find (is_claimable id) rows ≡ found
        → (((find (is_claimable id) rows ≡ none)
              × ((process_investigation run id w rows).0.0 ≡ rows))
            ⊎ ((r : Investigation) × (IsIn r rows
                  × ((r.id ≡ id)
                      × ((r.status ≡ queued)
                          × Ends rows r (process_investigation run id w rows).0.0)))))
    by_search none e = inl (e, rw e refl)
    by_search (some r) e =
        let (there, t) = find-IsIn (is_claimable id) rows r e in
        let (same, waiting) = is_claimable_iff id r t in
        inr (
          r,
          (
            there,
            (
              same,
              (
                waiting,
                rw e (
                    subst
                      (λ k.
                        Ends rows r
                          (process_claimed run (some (claimed run.now r)) k w
                            (put_row row_id (claimed run.now r) rows)).0.0)
                      same (processed-Ends run rows ids r there w)),
              ),
            ),
          ),
        )
