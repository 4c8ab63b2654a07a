-- ===== src/Response/Breaker/Redis/Added.antt =====
-- backend/app/response/circuit_breaker.py: what the pipeline of `record_execution` adds to the sorted sets.
use ai_soc.Base.{
  ℕ, ◌+◌, ◌≤◌, ◌<◌, ◌≡◌, ◌≢◌, refl, ap, ◌∙◌, ◌⊎◌, inl, inr, Bool, true, false, ◌&&◌, List, [], IsIn,
  contains, leb, ltb, contains→IsIn, ℕ-equality, if◌then◌else◌, arith, Bool-cases,
}
use ai_soc.Base.Sort.{count_if, count_if-insert_by, IsIn-insert_by}
use ai_soc.Response.Breaker.{CircuitBreaker, Entry, hour, kind_of}
use ai_soc.Response.Breaker.Redis.{
  Key, all_actions, disruptive_actions, Client, add_execution, record_execution,
}
use ai_soc.Response.Breaker.Redis.Laws.{IsRedis, add}
use ai_soc.Response.Breaker.Redis.Simulates.{
  count_if-none, is_chosen, is_fresh, fresh_count, Simulates,
}

abbrev pub entry : ℕ → Bool → Entry
entry now disruptive = record { at = now; kind = kind_of disruptive }

-- A new time joins the set.
count_if-add :
    (p : ℕ → Bool) (s : ℕ) (xs : List ℕ)
    → ¬ IsIn s xs
    → count_if p (add s xs) ≡ count_if p xs + (if p s then 1 else 0)
count_if-add p s xs new = elim (Bool-cases (contains xs s)) [
  | inl there ↦ absurd (new (contains→IsIn s xs there))
  | inr away ↦ rw (away, count_if-insert_by p leb s xs) (ground arith)
]

module _ {R : Type 0} (c : Client R) (redis : IsRedis c) where
  -- What a sorted set holds after the pipeline.
  abbrev pub added : ℕ → ℕ → Key → R → List ℕ
  added now m k r = if ltb m (now + hour) then add now (redis.members now k r) else []

  add_execution-added :
      (now m : ℕ) (k : Key) (r : R)
      → now ≤ m
      → redis.members m k (add_execution c now k r) ≡ added now m k r
  add_execution-added now m k r le =
      redis.members-expire now m k _ _ le
      ∙ ap (λ xs. if ltb m (now + hour) then xs else []) (redis.members-zadd now k now r)

  add_execution-other :
      (now m : ℕ) (k other : Key) (r : R)
      → k ≢ other
      → redis.members m other (add_execution c now k r) ≡ redis.members m other r
  add_execution-other now m k other r apart =
      redis.members-expire_other now m k other _ _ apart
      ∙ redis.members-zadd_other now m k other now r apart

  -- An execution joins the sets that keep it.
  pub record_execution-members :
      (now m : ℕ) (disruptive : Bool) (k : Key) (r : R)
      → now ≤ m
      → ((is_chosen k (entry now disruptive) ≡ false)
          × (redis.members m k (record_execution c now disruptive r) ≡ redis.members m k r))
        ⊎ ((is_chosen k (entry now disruptive) ≡ true)
            × (redis.members m k (record_execution c now disruptive r) ≡ added now m k r))
  unfolding record_execution
  record_execution-members now m false all_actions r le =
      inr (refl, add_execution-added now m all_actions r le)
  record_execution-members now m false disruptive_actions r le =
      inl (refl, add_execution-other now m all_actions disruptive_actions r (λ q. cc))
  record_execution-members now m true all_actions r le = inr (
    refl,
    add_execution-other now m disruptive_actions all_actions _ (λ q. cc)
        ∙ add_execution-added now m all_actions r le,
  )
  record_execution-members now m true disruptive_actions r le = inr (
    refl,
    add_execution-added now m disruptive_actions _ le
        ∙ ap (λ xs. if ltb m (now + hour) then add now xs else [])
            (add_execution-other now now all_actions disruptive_actions r (λ q. cc)),
  )

  -- At a time that is later than all before, the pipeline adds one.
  pub count_if-added :
      (log : List ℕ) (last now m t : ℕ) (k : Key) (b : CircuitBreaker) (r : R)
      → last < now
      → now ≤ m
      → m ≤ t
      → Simulates c redis log last b r
      → count_if (is_fresh t) (added now m k r)
        ≡ fresh_count k t b.history + (if is_fresh t now then 1 else 0)
  count_if-added log last now m t k b r later le le' h = elim (Bool-cases (ltb m (now + hour))) [
    | inl alive ↦ rw alive (
        count_if-add (is_fresh t) now (redis.members now k r) new
        ∙ ap (λ n. n + (if is_fresh t now then 1 else 0))
            (h.counts k now t (omega (arith, later)) (omega (arith, le, le'))))
    | inr gone ↦
        let stale : is_fresh t now ≡ false = ground (arith, gone, le') in
        rw
          (
            gone,
            count_if-none (λ (e : Entry). is_chosen k e && is_fresh t e.at) b.history
                (λ e n. old e n gone),
            stale,
          )
          refl
  ]
    where
      new : ¬ IsIn now (redis.members now k r)
      new n = absurd (omega (arith, later, h.old k now now (omega (arith, later)) n))

      old :
          (e : Entry)
          → IsIn e b.history
          → ltb m (now + hour) ≡ false
          → (is_chosen k e && is_fresh t e.at) ≡ false
      old e n gone =
          let stale : is_fresh t e.at ≡ false = ground (arith, h.past e n, later, gone, le') in
          rw stale (elim (Bool-cases (is_chosen k e)) [ inl q ↦ rw q refl | inr q ↦ rw q refl ])

  pub added-old :
      (log : List ℕ) (last now m s : ℕ) (k : Key) (b : CircuitBreaker) (r : R)
      → last < now
      → Simulates c redis log last b r
      → IsIn s (added now m k r)
      → s ≤ now
  added-old log last now m s k b r later h n = elim (Bool-cases (ltb m (now + hour))) [
    | inl alive ↦ from_add (rw alive at n)
    | inr gone ↦ absurd (rw gone at n)
  ]
    where
      before : IsIn s (redis.members now k r) → s ≤ now
      before l = omega (arith, h.old k now s (omega (arith, later)) l, later)

      from_add : IsIn s (add now (redis.members now k r)) → s ≤ now
      from_add l = elim (Bool-cases (contains (redis.members now k r) now)) [
        | inl there ↦ before (rw there at l)
        | inr away ↦ elim (IsIn-insert_by leb s now (redis.members now k r) (rw away at l)) [
          | inl q ↦ omega (arith, q)
          | inr rest ↦ before rest
        ]
      ]
