-- ===== src/Investigation/Consistent/Drained.antt =====
-- The worker comes to an end with what is queued, and what it completed is never touched again.
use ai_soc.Base.{
  ℕ, ◌-◌, ◌≤◌, ◌≡◌, refl, sym, ap, ◌∙◌, subst, ◌≢◌, inl, inr, Bool, true, false, List, [], ◌∷◌, map,
  find-IsIn, Option, none, some, IsIn, length, ◌==◌, ==_iff, arith, Bool-cases,
}
use ai_soc.Base.Text.{Text}
use ai_soc.Base.Slices.{append-IsIn_left, map-IsIn}
use ai_soc.Base.Table.{get_row, put_row, put_row-IsIn, row_unique}
use ai_soc.Models.{Incident}
use ai_soc.Investigation.Workflow.Actions.{World}
use ai_soc.Investigation.Rows.{
  InvestigationStatus, queued, running, completed, failed, InvestigationStatus-equality,
  Investigation, row_id, find_for_context, requeue, fail,
}
use ai_soc.Investigation.Service.{
  LlmSettings, RequestError, Jobs, incident_id, settings_error, new_investigation, enqueue,
  restarted, request_for, request_known, request_allowed, request_investigation,
}
use ai_soc.Investigation.Worker.{Run, work_on, work_one, run_worker}
use ai_soc.Investigation.Worker.Settles.{process_investigation-settles}
use ai_soc.Investigation.Consistent.{IsConsistent}
use ai_soc.Investigation.Consistent.Runs.{
  Step, request, work, observe, Reach, here, next, work_one-IsConsistent, Reach-IsConsistent,
}

length-work_on :
    {D R : Type 0} (run : Run D R) (w : World R) (queue : List ℕ) (st : Jobs)
    → st.queue ≡ queue
    → length (work_on run queue st w).0.queue ≡ length queue - 1
length-work_on run w [] st e = ap length e ∙ omega arith
length-work_on run w (id ∷ queue) st e = omega arith

length-work_one :
    {D R : Type 0} (run : Run D R) (w : World R) (st : Jobs)
    → length (work_one run st w).0.queue ≡ length st.queue - 1
unfolding work_one
length-work_one run w st = length-work_on run w st.queue st refl

module _ {D R : Type 0} where
  run_worker-IsConsistent :
      (runs : List (Run D R)) (st : Jobs) (w : World R)
      → IsConsistent st
      → IsConsistent (run_worker runs st w).0
        × (length (run_worker runs st w).0.queue ≡ length st.queue - length runs)
  unfolding run_worker
  run_worker-IsConsistent [] st w h = (h, omega arith)
  run_worker-IsConsistent (run ∷ runs) st w h =
      let st' = (work_one run st w).0 in
      let (k, e) =
        run_worker-IsConsistent runs st' (work_one run st w).1 (work_one-IsConsistent run w st h) in
      (k, omega (arith, e, length-work_one run w st))

  -- Once the worker did as many rounds as the queue was long, no investigation is queued or running,
  -- whatever the builders, the providers and the plans did.
  pub run_worker_settles :
      (runs : List (Run D R)) (st : Jobs) (w : World R)
      → IsConsistent st
      → length st.queue ≤ length runs
      → (r : Investigation) → IsIn r (run_worker runs st w).0.rows
      → (r.status ≢ queued) × (r.status ≢ running)
  run_worker_settles runs st w h enough r m =
      let (k, e) = run_worker-IsConsistent runs st w h in
      (
        λ q. nothing (run_worker runs st w).0.queue (omega (arith, e)) ((k.each r m).waiting q),
        (k.each r m).idle,
      )
    where
      nothing : (queue : List ℕ) → length queue ≡ 0 → IsIn r.id queue → ⊥
      nothing [] e m = m
      nothing (id ∷ queue) e m = omega arith

module _ (c : Investigation) (done : c.status ≡ completed) where
  -- A write under a key whose row is not completed.
  put-keeps :
      (a r : Investigation) (st : Jobs)
      → IsConsistent st
      → IsIn r st.rows
      → r.id ≡ a.id
      → r.status ≢ completed
      → IsIn c st.rows
      → IsIn c (put_row row_id a st.rows)
  put-keeps a r st h there same open_row m = put_row-IsIn row_id a c st.rows m (λ e.
      open_row (ap status_of (row_unique row_id r c st.rows h.ids there m (same ∙ sym e)) ∙ done))
    where
      status_of : Investigation → InvestigationStatus
      status_of x = x.status

  work_one-keeps :
      {D R : Type 0} (run : Run D R) (w : World R) (queue : List ℕ) (st : Jobs)
      → IsConsistent st
      → IsIn c st.rows
      → IsIn c (work_on run queue st w).0.rows
  work_one-keeps run w [] st h m = m
  work_one-keeps run w (id ∷ queue) st h m =
      elim (process_investigation-settles run id w st.rows h.ids) [
        | inl (nothing, same) ↦ subst (IsIn c) (sym same) m
        | inr (r, (there, (found, (waited, (a, (kept, (final, same))))))) ↦
            subst (IsIn c) (sym same)
              (put-keeps a r st h there kept.0 (λ q. queued_completed (sym waited ∙ q)) m)
      ]
    where
      queued_completed : queued ≡ completed → ⊥
      queued_completed q = cc

  enqueue-keeps :
      (now : ℕ) (online : Bool) (r : Investigation) (st : Jobs)
      → c.id ≢ r.id
      → IsIn c st.rows
      → IsIn c (enqueue now online r st).0.rows
  unfolding fail
  enqueue-keeps now true r st other m = m
  enqueue-keeps now false r st other m = put_row-IsIn row_id _ c st.rows m other

  module _ (settings : LlmSettings) (context_hash : Incident → Text) (now fresh : ℕ) (online : Bool)
      (st : Jobs) (h : IsConsistent st) (new : ¬ IsIn fresh (map row_id st.rows))
      (m : IsIn c st.rows) where
    request_for-keeps :
        (i : ℕ) (hash : Text) (found : Option Investigation)
        → find_for_context i hash settings.llm_prompt_version st.rows ≡ found
        → IsIn c (request_for settings now fresh online i hash found st).0.rows
    unfolding find_for_context requeue
    request_for-keeps i hash none e =
        enqueue-keeps now online (new_investigation settings now fresh i hash) _
          (λ q. new (subst (λ k. IsIn k (map row_id st.rows)) q (map-IsIn row_id c st.rows m)))
          (append-IsIn_left c st.rows (new_investigation settings now fresh i hash ∷ []) m)
    request_for-keeps i hash (some r) e = elim (Bool-cases (r.status == failed)) [
      | inl again ↦
          let failed_row = (==_iff r.status failed).0 again in
          let there = (find-IsIn _ st.rows r e).0 in
          let other : c.id ≢ r.id = λ q. completed_failed (
            sym done
            ∙ (ap status_of (row_unique row_id c r st.rows h.ids m there q) ∙ failed_row)) in
          rw again (
            enqueue-keeps now online (restarted settings now r) _ other
              (put_row-IsIn row_id (restarted settings now r) c st.rows m other))
      | inr kept ↦ rw kept m
    ]
      where
        status_of : Investigation → InvestigationStatus
        status_of x = x.status

        completed_failed : completed ≡ failed → ⊥
        completed_failed q = cc

    request_known-keeps :
        (found : Option Incident)
        → IsIn c (request_known settings context_hash now fresh online found st).0.rows
    request_known-keeps none = m
    request_known-keeps (some i) = request_for-keeps i.id (context_hash i) _ refl

    request_allowed-keeps :
        (incident : ℕ) (e : Option RequestError)
        → IsIn c (request_allowed e settings context_hash now fresh online incident st).0.rows
    request_allowed-keeps incident (some e) = m
    request_allowed-keeps incident none =
        request_known-keeps (get_row incident_id incident st.incidents)

  Step-keeps :
      {D R : Type 0} {st t : Jobs}
      → Step D R st t
      → IsConsistent st
      → IsIn c st.rows
      → IsIn c t.rows
  unfolding request_investigation work_one
  Step-keeps (request settings context_hash now fresh online incident st new) h m =
      request_allowed-keeps settings context_hash now fresh online st h new m incident
        (settings_error settings)
  Step-keeps (work run w st) h m = work_one-keeps run w st.queue st h m
  Step-keeps (observe incidents st) h m = m

  -- From a consistent state on, a completed investigation stays as it is in any order of requests and
  -- rounds of the worker.
  pub Reach-keeps_completed :
      {D R : Type 0} {st t : Jobs}
      → IsConsistent st
      → Reach D R st t
      → IsIn c st.rows
      → IsIn c t.rows
  Reach-keeps_completed h here m = m
  Reach-keeps_completed h (next r s) m =
      Step-keeps s (Reach-IsConsistent h r) (Reach-keeps_completed h r m)
