-- ===== src/Investigation/Consistent/Runs.antt =====
-- Any order of requests and rounds of the worker.
use ai_soc.Base.{
  ℕ, ◌≡◌, refl, sym, ◌∙◌, subst, ◌≢◌, inl, inr, Bool, true, false, List, [], ◌∷◌, map, find-none,
  IsIn, ==_iff, ℕ-equality,
}
use ai_soc.Base.Text.{Text}
use ai_soc.Base.Table.{IsNodup, IsIn-put_row, map-put_row_same}
use ai_soc.Models.{Incident}
use ai_soc.Investigation.Workflow.Actions.{World}
use ai_soc.Investigation.Rows.{
  queued, InvestigationStatus-equality, Investigation, row_id, context_key, is_claimable,
}
use ai_soc.Investigation.Service.{LlmSettings, Jobs, request_investigation}
use ai_soc.Investigation.Worker.{Run, work_on, work_one}
use ai_soc.Investigation.Worker.Settles.{process_investigation-settles}
use ai_soc.Investigation.Consistent.{
  IsRowOk, IsConsistent, IsFinal-IsRowOk, request_investigation-IsConsistent,
}

is_claimable-true :
    (id : ℕ) (r : Investigation) → r.id ≡ id → r.status ≡ queued → is_claimable id r ≡ true
is_claimable-true id r e q = rw ((==_iff r.id id).1 e) ((==_iff r.status queued).1 q)

-- The identifier at the head of the queue is no longer waited for.
skip_head :
    (id : ℕ) (queue : List ℕ) (r : Investigation)
    → IsRowOk (id ∷ queue) r
    → (r.status ≡ queued → r.id ≢ id)
    → IsRowOk queue r
skip_head id queue r h other = record {
  waiting = λ q. elim (h.waiting q) [ inl e ↦ absurd (other q (sym e)) | inr m ↦ m ];
  idle = h.idle;
  grounded = h.grounded;
}

module _ {D R : Type 0} (run : Run D R) (w : World R) where
  work_on-IsConsistent :
      (queue : List ℕ) (st : Jobs)
      → st.queue ≡ queue
      → IsConsistent st
      → IsConsistent (work_on run queue st w).0
  work_on-IsConsistent [] st e h = h
  work_on-IsConsistent (id ∷ queue) st e h =
      elim (process_investigation-settles run id w st.rows h.ids) [
        | inl (nothing, same) ↦ record {
          ids = subst (λ rs. IsNodup (map row_id rs)) (sym same) h.ids;
          keys = subst (λ rs. IsNodup (map context_key rs)) (sym same) h.keys;
          each = λ b m.
              let k = subst (IsIn b) same m in
              skip_head id queue b (subst (λ q. IsRowOk q b) e (h.each b k)) (λ q s. true_false (
                sym (is_claimable-true id b s q)
                ∙ find-none (is_claimable id) st.rows b nothing k));
        }
        | inr (r, (there, (found, (waited, (a, (kept, (final, same))))))) ↦ record {
          ids =
              subst (λ rs. IsNodup (map row_id rs)) (sym same)
                (subst IsNodup
                  (sym (map-put_row_same row_id r a st.rows h.ids there kept.0 row_id kept.0))
                  h.ids);
          keys =
              subst (λ rs. IsNodup (map context_key rs)) (sym same)
                (subst IsNodup
                  (sym (map-put_row_same row_id r a st.rows h.ids there kept.0 context_key kept.1))
                  h.keys);
          each = λ b m. elim (IsIn-put_row row_id a b st.rows (subst (IsIn b) same m)) [
            | inl p ↦ subst (IsRowOk queue) p (IsFinal-IsRowOk queue a final)
            | inr (k, other) ↦
                skip_head id queue b (subst (λ q. IsRowOk q b) e (h.each b k))
                  (λ q s. other (s ∙ (sym found ∙ kept.0)))
          ];
        }
      ]
    where
      true_false : Path Bool true false → ⊥
      true_false q = cc

  pub work_one-IsConsistent : (st : Jobs) → IsConsistent st → IsConsistent (work_one run st w).0
  unfolding work_one
  work_one-IsConsistent st h = work_on-IsConsistent st.queue st refl h

-- What may happen: a request for any incident, under an unused identifier; a round of the worker,
-- whatever it gets from outside; any change of the incidents.
pub data Step (D R : Type 0) : Jobs → Jobs → Type 0 where
  request :
      (settings : LlmSettings) (context_hash : Incident → Text) (now fresh : ℕ) (online : Bool)
      (incident : ℕ) (st : Jobs)
      → ¬ IsIn fresh (map row_id st.rows)
      → Step D R st (request_investigation settings context_hash now fresh online incident st).0
  work : (run : Run D R) (w : World R) (st : Jobs) → Step D R st (work_one run st w).0
  observe :
      (incidents : List Incident) (st : Jobs) → Step D R st (record st { incidents = incidents })

pub data Reach (D R : Type 0) (st : Jobs) : Jobs → Type 0 where
  here : Reach D R st st
  next : {t u : Jobs} → Reach D R st t → Step D R t u → Reach D R st u

Step-IsConsistent : {D R : Type 0} {st t : Jobs} → Step D R st t → IsConsistent st → IsConsistent t
Step-IsConsistent (request settings context_hash now fresh online incident st new) h =
    request_investigation-IsConsistent settings context_hash now fresh online st h new incident
Step-IsConsistent (work run w st) h = work_one-IsConsistent run w st h
Step-IsConsistent (observe incidents st) h = record { ids = h.ids; keys = h.keys; each = h.each }

-- From a consistent state on, any order of requests and rounds of the worker keeps identifiers and
-- contexts unique, every queued row in the queue, no row running between two rounds, and every
-- completed row with a stored result that is sound for its stored context.
pub Reach-IsConsistent :
    {D R : Type 0} {st t : Jobs} → IsConsistent st → Reach D R st t → IsConsistent t
Reach-IsConsistent h here = h
Reach-IsConsistent h (next r s) = Step-IsConsistent s (Reach-IsConsistent h r)
