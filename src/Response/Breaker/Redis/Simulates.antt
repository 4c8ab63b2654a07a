-- ===== src/Response/Breaker/Redis/Simulates.antt =====
-- backend/app/response/circuit_breaker.py: what Redis and the memory have in common, and the counts of Redis.
use ai_soc.Base.{
  ℕ, ◌+◌, ◌-◌, ◌≤◌, ◌≡◌, ◌≢◌, refl, ap, ◌∙◌, subst, ◌⊎◌, inl, inr, Bool, true, false, ◌&&◌, List,
  [], ◌∷◌, IsIn, IsIn-filter, filter, length, leb, ltb, ℕ-equality, arith, Bool-cases, ok,
}
use ai_soc.Base.Sort.{count_if, length-filter_count}
use ai_soc.Response.Breaker.{CircuitBreaker, Entry, hour, is_disruptive}
use ai_soc.Response.Breaker.Redis.{
  Key, all_actions, disruptive_actions, Client, is_halted, redis_count,
}
use ai_soc.Response.Breaker.Redis.Laws.{IsRedis, is_outside}

module _ {A : Type 0} where
  pub count_if-same :
      (p q : A → Bool) (xs : List A)
      → ((x : A) → IsIn x xs → p x ≡ q x)
      → count_if p xs ≡ count_if q xs
  count_if-same p q [] same = refl
  count_if-same p q (x ∷ xs) same =
      let rest = count_if-same p q xs (λ y m. same y (inr m)) in rw (same x (inl refl), rest) refl

  pub count_if-filter :
      (p q : A → Bool) (xs : List A)
      → ((x : A) → p x ≡ true → q x ≡ true)
      → count_if p (filter q xs) ≡ count_if p xs
  count_if-filter p q [] weaker = refl
  count_if-filter p q (x ∷ xs) weaker = ground (arith, count_if-filter p q xs weaker, weaker x)

  pub count_if-none :
      (p : A → Bool) (xs : List A) → ((x : A) → IsIn x xs → p x ≡ false) → count_if p xs ≡ 0
  count_if-none p [] none = refl
  count_if-none p (x ∷ xs) none =
      rw (none x (inl refl)) (count_if-none p xs (λ y m. none y (inr m)))

  pub count_if-and :
      (p q : A → Bool) (xs : List A) → count_if p (filter q xs) ≡ count_if (λ x. p x && q x) xs
  count_if-and p q [] = refl
  count_if-and p q (x ∷ xs) = ground (arith, count_if-and p q xs)

  pub count_if-all :
      (p : A → Bool) (xs : List A) → ((x : A) → p x ≡ true) → length xs ≡ count_if p xs
  count_if-all p [] all = refl
  count_if-all p (x ∷ xs) all = ground (arith, count_if-all p xs all, all x)

pub Key-cases : (a b : Key) → (a ≡ b) ⊎ (a ≢ b)
Key-cases all_actions all_actions = inl refl
Key-cases all_actions disruptive_actions = inr (λ q. cc)
Key-cases disruptive_actions all_actions = inr (λ q. cc)
Key-cases disruptive_actions disruptive_actions = inl refl

-- The executions that a set keeps.
abbrev pub is_chosen : Key → Entry → Bool
is_chosen all_actions e = true
is_chosen disruptive_actions e = is_disruptive e.kind

-- Less than an hour before `t`.
abbrev pub is_fresh : ℕ → ℕ → Bool
is_fresh t s = ltb t (s + hour)

abbrev pub fresh_count : Key → ℕ → List Entry → ℕ
fresh_count k t history = count_if (λ e. is_chosen k e && is_fresh t e.at) history

pub outside-fresh : (now s : ℕ) → hour ≤ now → is_outside 0 (now - hour) s ≡ is_fresh now s
outside-fresh now s late = ground (arith, late)

fresh-outside :
    (now t s : ℕ) → hour ≤ now → now ≤ t → is_fresh t s ≡ true → is_outside 0 (now - hour) s ≡ true
fresh-outside now t s late later h = ground (arith, late, later, h)

-- Without an entry of exactly one hour ago, what memory keeps is what is fresh.
pub fresh-recent : (now s : ℕ) → s ≤ now → s + hour ≢ now → leb (now - hour) s ≡ is_fresh now s
fresh-recent now s past apart = ground (arith, past, apart)

module _ {R : Type 0} (c : Client R) (redis : IsRedis c) where
  -- After a time `last`, Redis and memory count the same, and no execution is later or missing in the log.
  pub record Simulates (log : List ℕ) (last : ℕ) (b : CircuitBreaker) (r : R) : Type 0 where
    pub switch : is_halted (c.get r) ≡ ok b.kill_switch
    pub counts :
        (k : Key) (now t : ℕ)
        → last ≤ now
        → now ≤ t
        → count_if (is_fresh t) (redis.members now k r) ≡ fresh_count k t b.history
    pub old : (k : Key) (now s : ℕ) → last ≤ now → IsIn s (redis.members now k r) → s ≤ last
    pub past : (e : Entry) → IsIn e b.history → e.at ≤ last
    pub logged : (e : Entry) → IsIn e b.history → IsIn e.at log

  members-pruned :
      (now t : ℕ) (k other : Key) (r : R)
      → now ≤ t
      → (redis.members t other (c.zremrangebyscore now k 0 (now - hour) r)
          ≡ redis.members t other r)
        ⊎ (redis.members t other (c.zremrangebyscore now k 0 (now - hour) r)
            ≡ filter (is_outside 0 (now - hour)) (redis.members t other r))
  members-pruned now t k other r later = elim (Key-cases k other) [
    | inl same ↦ inr (
        subst
          (λ x.
            redis.members t x (c.zremrangebyscore now k 0 (now - hour) r)
            ≡ filter (is_outside 0 (now - hour)) (redis.members t x r))
          same (redis.members-zremrangebyscore now t k 0 (now - hour) r later))
    | inr apart ↦ inl (redis.members-zremrangebyscore_other now t k other 0 (now - hour) r apart)
  ]

  pub later-Simulates :
      (log : List ℕ) (last now : ℕ) (b : CircuitBreaker) (r : R)
      → last ≤ now
      → Simulates log last b r
      → Simulates log now b r
  later-Simulates log last now b r later h = record {
    switch = h.switch;
    counts = λ k m t le. h.counts k m t (omega (arith, later, le));
    old = λ k m s le n. omega (arith, h.old k m s (omega (arith, later, le)) n, later);
    past = λ e m. omega (arith, h.past e m, later);
    logged = h.logged;
  }

  pruned-Simulates :
      (log : List ℕ) (now : ℕ) (k : Key) (b : CircuitBreaker) (r : R)
      → hour ≤ now
      → Simulates log now b r
      → Simulates log now b (c.zremrangebyscore now k 0 (now - hour) r)
  pruned-Simulates log now k b r late h = record {
    switch = ap is_halted (redis.get-zremrangebyscore now k 0 (now - hour) r) ∙ h.switch;
    counts = λ other m t le le'. counted other m t le le' (members-pruned now m k other r le);
    old = λ other m s le n. elim (members-pruned now m k other r le) [
      | inl same ↦ h.old other m s le (subst (IsIn s) same n)
      | inr cut ↦
          h.old other m s le
            (IsIn-filter (is_outside 0 (now - hour)) s (redis.members m other r)
              (subst (IsIn s) cut n)).0
    ];
    past = h.past;
    logged = h.logged;
  }
    where
      counted :
          (other : Key) (m t : ℕ)
          → now ≤ m
          → m ≤ t
          → (redis.members m other (c.zremrangebyscore now k 0 (now - hour) r)
              ≡ redis.members m other r)
            ⊎ (redis.members m other (c.zremrangebyscore now k 0 (now - hour) r)
                ≡ filter (is_outside 0 (now - hour)) (redis.members m other r))
          → count_if
              (is_fresh t)
              (redis.members m other (c.zremrangebyscore now k 0 (now - hour) r))
            ≡ fresh_count other t b.history
      counted other m t le le' (inl same) =
          ap (count_if (is_fresh t)) same ∙ h.counts other m t le le'
      counted other m t le le' (inr cut) =
          ap (count_if (is_fresh t)) cut
          ∙ count_if-filter (is_fresh t) (is_outside 0 (now - hour)) (redis.members m other r)
              (λ s. fresh-outside now t s late (omega (arith, le, le')))
          ∙ h.counts other m t le le'

  -- `_redis_count` counts what is fresh, and keeps what it counts.
  pub redis_count-Simulates :
      (log : List ℕ) (now : ℕ) (k : Key) (b : CircuitBreaker) (r : R)
      → Simulates log now b r
      → Simulates log now b (redis_count c now k r).0
        × ((redis_count c now k r).1 ≡ fresh_count k now b.history)
  unfolding redis_count
  redis_count-Simulates log now k b r h = elim (Bool-cases (leb hour now)) [
    | inl late ↦ rw late (
      pruned-Simulates log now k b r (ground (arith, late)) h,
      redis.zcard-members now k (c.zremrangebyscore now k 0 (now - hour) r)
          ∙ ap length (redis.members-zremrangebyscore now now k 0 (now - hour) r (omega arith))
          ∙ length-filter_count (is_outside 0 (now - hour)) (redis.members now k r)
          ∙ count_if-same (is_outside 0 (now - hour)) (is_fresh now) (redis.members now k r)
              (λ s m. outside-fresh now s (ground (arith, late)))
          ∙ h.counts k now now (omega arith) (omega arith),
    )
    | inr early ↦ rw early (
      h,
      redis.zcard-members now k r
          ∙ count_if-all (is_fresh now) (redis.members now k r) (λ s. ground (arith, early))
          ∙ h.counts k now now (omega arith) (omega arith),
    )
  ]
