-- ===== src/Investigation/Consistent.antt =====
-- Requests and the worker together: the rows of the investigations and the queue fit each other.
pub mod Runs
pub mod Drained
use ai_soc.Base.{
  true_ne_false, ℕ, ◌≤◌, ◌≡◌, refl, sym, ap, ◌∙◌, subst, ◌≢◌, ◌⊎◌, inl, inr, Bool, true, false,
  List, [], ◌∷◌, ◌++◌, map, map-append, find, find-IsIn, find-none, Option, none, some, IsIn,
  length, ◌==◌, ==_iff, ==_refl, ℕ-equality, Text-equality, arith, Bool-cases, Result, ok, err,
}
use ai_soc.Base.Text.{Text}
use ai_soc.Base.Slices.{IsIn-append, append-IsIn_left, append-IsIn_right, map-IsIn, IsIn-map}
use ai_soc.Base.Table.{
  IsNodup, append-IsNodup, get_row, put_row, row_unique, IsIn-put_row, put_row-IsIn, put_row-at,
  map-put_row_same,
}
use ai_soc.Models.{Incident}
use ai_soc.Investigation.Workflow.Actions.{World}
use ai_soc.Investigation.Rows.{
  InvestigationStatus, queued, running, completed, failed, InvestigationStatus-equality,
  Investigation, row_id, context_key, is_claimable, is_for, find_for_context, requeue, fail,
}
use ai_soc.Investigation.Service.{
  LlmSettings, RequestError, Jobs, incident_id, settings_error, new_investigation, enqueue,
  restarted, request_for, request_known, request_allowed, request_investigation,
}
use ai_soc.Investigation.Worker.{Run, process_investigation, work_on, work_one, run_worker}
use ai_soc.Investigation.Worker.Settles.{
  HasSoundResult, IsFinal, Ends, process_investigation-settles,
}

pub record IsRowOk (queue : List ℕ) (r : Investigation) : Type 0 where
  pub waiting : r.status ≡ queued → IsIn r.id queue
  pub idle : r.status ≢ running
  pub grounded : r.status ≡ completed → HasSoundResult r

-- Identifiers and contexts are unique, a queued row is in the queue, no row is left running, and what
-- is completed is sound for its context.
pub record IsConsistent (st : Jobs) : Type 0 where
  pub ids : IsNodup (map row_id st.rows)
  pub keys : IsNodup (map context_key st.rows)
  pub each : (r : Investigation) → IsIn r st.rows → IsRowOk st.queue r

IsFinal-IsRowOk : (queue : List ℕ) (a : Investigation) → IsFinal a → IsRowOk queue a
IsFinal-IsRowOk queue a (inl e) = record {
  waiting = λ q. absurd (failed_queued (sym e ∙ q));
  idle = λ q. failed_running (sym e ∙ q);
  grounded = λ q. absurd (failed_completed (sym e ∙ q));
}
  where
    failed_queued : failed ≡ queued → ⊥
    failed_queued q = cc

    failed_running : failed ≡ running → ⊥
    failed_running q = cc

    failed_completed : failed ≡ completed → ⊥
    failed_completed q = cc
IsFinal-IsRowOk queue a (inr (e, sound)) = record {
  waiting = λ q. absurd (completed_queued (sym e ∙ q));
  idle = λ q. completed_running (sym e ∙ q);
  grounded = λ q. sound;
}
  where
    completed_queued : completed ≡ queued → ⊥
    completed_queued q = cc

    completed_running : completed ≡ running → ⊥
    completed_running q = cc

more_queue : (queue more : List ℕ) (r : Investigation) → IsRowOk queue r → IsRowOk (queue ++ more) r
more_queue queue more r h = record {
  waiting = λ q. append-IsIn_left r.id queue more (h.waiting q);
  idle = h.idle;
  grounded = h.grounded;
}

-- A row that is to be queued, among rows that are in order.
record IsPending (r : Investigation) (st : Jobs) : Type 0 where
  ids : IsNodup (map row_id st.rows)
  keys : IsNodup (map context_key st.rows)
  there : IsIn r st.rows
  now_queued : r.status ≡ queued
  others : (b : Investigation) → IsIn b st.rows → b.id ≢ r.id → IsRowOk st.queue b

module _ (now : ℕ) (r : Investigation) (st : Jobs) (h : IsPending r st) where
  pending_row : (b : Investigation) → IsIn b st.rows → IsRowOk (st.queue ++ r.id ∷ []) b
  pending_row b m = elim (Bool-cases (b.id == r.id)) [
    | inl same ↦
        let e = row_unique row_id b r st.rows h.ids m h.there ((==_iff b.id r.id).0 same) in
        subst (IsRowOk (st.queue ++ r.id ∷ [])) (sym e) (record {
          waiting = λ q. append-IsIn_right r.id st.queue (r.id ∷ []) (inl refl);
          idle = λ q. queued_running (sym h.now_queued ∙ q);
          grounded = λ q. absurd (queued_completed (sym h.now_queued ∙ q));
        })
    | inr other ↦
        more_queue st.queue (r.id ∷ []) b
          (h.others b m (λ e. true_ne_false (sym ((==_iff b.id r.id).1 e) ∙ other)))
  ]
    where
      queued_running : queued ≡ running → ⊥
      queued_running q = cc

      queued_completed : queued ≡ completed → ⊥
      queued_completed q = cc

  replaced-IsConsistent :
      (a : Investigation)
      → r.id ≡ a.id
      → context_key r ≡ context_key a
      → IsFinal a
      → IsConsistent (record st { rows = put_row row_id a st.rows })
  replaced-IsConsistent a same key final = record {
    ids =
        subst IsNodup (sym (map-put_row_same row_id r a st.rows h.ids h.there same row_id same))
          h.ids;
    keys =
        subst IsNodup (sym (map-put_row_same row_id r a st.rows h.ids h.there same context_key key))
          h.keys;
    each = λ b m. elim (IsIn-put_row row_id a b st.rows m) [
      | inl e ↦ subst (IsRowOk st.queue) e (IsFinal-IsRowOk st.queue a final)
      | inr (k, other) ↦ h.others b k (λ e. other (e ∙ same))
    ];
  }

  enqueue-IsConsistent : (online : Bool) → IsConsistent (enqueue now online r st).0
  unfolding fail
  enqueue-IsConsistent true = record { ids = h.ids; keys = h.keys; each = pending_row }
  enqueue-IsConsistent false = replaced-IsConsistent _ refl refl (inl refl)

is_for-key :
    (i : ℕ) (hash version : Text) (r : Investigation)
    → context_key r ≡ (i, (hash, version))
    → is_for i hash version r ≡ true
is_for-key i hash version r e =
    rw (fst e) (rw (snd e) (rw (trd e) (rw (==_refl i) (rw (==_refl hash) (==_refl version)))))
  where
    fst : {i j : ℕ} {h k v u : Text} → Path (ℕ × (Text × Text)) (i, (h, v)) (j, (k, u)) → i ≡ j
    fst q = cc

    snd : {i j : ℕ} {h k v u : Text} → Path (ℕ × (Text × Text)) (i, (h, v)) (j, (k, u)) → h ≡ k
    snd q = cc

    trd : {i j : ℕ} {h k v u : Text} → Path (ℕ × (Text × Text)) (i, (h, v)) (j, (k, u)) → v ≡ u
    trd q = cc

module _ (settings : LlmSettings) (context_hash : Incident → Text) (now fresh : ℕ) (online : Bool)
    (st : Jobs) (h : IsConsistent st) (new : ¬ IsIn fresh (map row_id st.rows)) where
  -- A new row, under a key that no row has.
  created-IsPending :
      (i : ℕ) (hash : Text)
      → find_for_context i hash settings.llm_prompt_version st.rows ≡ none
      → IsPending
          (new_investigation settings now fresh i hash)
          (record st { rows = st.rows ++ new_investigation settings now fresh i hash ∷ [] })
  unfolding find_for_context
  created-IsPending i hash e = record {
    ids =
        subst IsNodup (sym (map-append row_id st.rows (r ∷ [])))
          (append-IsNodup fresh (map row_id st.rows) h.ids new);
    keys =
        subst IsNodup (sym (map-append context_key st.rows (r ∷ [])))
          (append-IsNodup (context_key r) (map context_key st.rows) h.keys unknown);
    there = append-IsIn_right r st.rows (r ∷ []) (inl refl);
    now_queued = refl;
    others = λ b m other. elim (IsIn-append b st.rows (r ∷ []) m) [
      | inl k ↦ h.each b k
      | inr k ↦ elim k [ inl q ↦ absurd (other (ap row_id (sym q))) | inr n ↦ absurd n ]
    ];
  }
    where
      r : Investigation
      r = new_investigation settings now fresh i hash

      unknown : ¬ IsIn (context_key r) (map context_key st.rows)
      unknown m =
          let (b, (k, same)) = IsIn-map context_key (context_key r) st.rows m in
          true_ne_false
            (sym (is_for-key i hash settings.llm_prompt_version b same) ∙ find-none _ st.rows b e k)

  restarted-IsPending :
      (r : Investigation)
      → IsIn r st.rows
      → IsPending
          (restarted settings now r)
          (record st { rows = put_row row_id (restarted settings now r) st.rows })
  unfolding requeue
  restarted-IsPending r m = record {
    ids = subst IsNodup (sym (map-put_row_same row_id r a st.rows h.ids m refl row_id refl)) h.ids;
    keys =
        subst IsNodup (sym (map-put_row_same row_id r a st.rows h.ids m refl context_key refl))
          h.keys;
    there = put_row-at row_id a r st.rows m refl;
    now_queued = refl;
    others = λ b k other. elim (IsIn-put_row row_id a b st.rows k) [
      | inl e ↦ absurd (other (ap row_id (sym e)))
      | inr (old, n) ↦ h.each b old
    ];
  }
    where
      a : Investigation
      a = restarted settings now r

  request_for-IsConsistent :
      (i : ℕ) (hash : Text) (found : Option Investigation)
      → find_for_context i hash settings.llm_prompt_version st.rows ≡ found
      → IsConsistent (request_for settings now fresh online i hash found st).0
  unfolding find_for_context
  request_for-IsConsistent i hash none e =
      enqueue-IsConsistent now (new_investigation settings now fresh i hash) _
        (created-IsPending i hash e) online
  request_for-IsConsistent i hash (some r) e = elim (Bool-cases (r.status == failed)) [
    | inl again ↦ rw again (
        enqueue-IsConsistent now (restarted settings now r) _
          (restarted-IsPending r (find-IsIn _ st.rows r e).0) online)
    | inr kept ↦ rw kept h
  ]

  request_known-IsConsistent :
      (found : Option Incident)
      → IsConsistent (request_known settings context_hash now fresh online found st).0
  request_known-IsConsistent none = h
  request_known-IsConsistent (some i) = request_for-IsConsistent i.id (context_hash i) _ refl

  request_allowed-IsConsistent :
      (incident : ℕ) (e : Option RequestError)
      → IsConsistent (request_allowed e settings context_hash now fresh online incident st).0
  request_allowed-IsConsistent incident (some e) = h
  request_allowed-IsConsistent incident none =
      request_known-IsConsistent (get_row incident_id incident st.incidents)

  pub request_investigation-IsConsistent :
      (incident : ℕ)
      → IsConsistent (request_investigation settings context_hash now fresh online incident st).0
  unfolding request_investigation
  request_investigation-IsConsistent incident =
      request_allowed-IsConsistent incident (settings_error settings)
