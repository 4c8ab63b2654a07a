-- ===== src/Response/Breaker/Redis/Asked.antt =====
-- backend/app/response/circuit_breaker.py: `is_tripped` answers with Redis as in memory.
use ai_soc.Base.{
  ℕ, ◌+◌, ◌-◌, ◌≡◌, ◌≢◌, refl, sym, ap, ◌∙◌, subst, inl, inr, Bool, true, false, ◌&&◌, List, IsIn,
  IsIn-filter, leb, ℕ-equality, if◌then◌else◌, arith, Bool-cases, ok,
}
use ai_soc.Base.Sort.{count_if, length-filter_count}
use ai_soc.Response.Breaker.{
  CircuitBreaker, Entry, Kind, TripReason, hour, is_disruptive, recent, kind_of, disruptive_count,
  check_caps,
}
use ai_soc.Response.Breaker as Breaker
use ai_soc.Response.Breaker.Redis.{
  Key, all_actions, disruptive_actions, Client, redis_count, after_total, unless_halted, is_tripped,
}
use ai_soc.Response.Breaker.Redis.Laws.{IsRedis}
use ai_soc.Response.Breaker.Redis.Simulates.{
  count_if-and, count_if-all, is_chosen, is_fresh, fresh_count, fresh-recent, count_if-same,
  count_if-filter, Simulates, redis_count-Simulates,
}

abbrev pub Answer : Type 0
Answer = Bool × TripReason

if-true : {A : Type 0} {k : Bool} (x y : A) → k ≡ true → (if k then x else y) ≡ x
if-true x y h = rw h refl

if-false : {A : Type 0} {k : Bool} (x y : A) → k ≡ false → (if k then x else y) ≡ y
if-false x y h = rw h refl

-- The limits are those of `b`.
abbrev pub HasLimits : CircuitBreaker → CircuitBreaker → Type 0
HasLimits limits b =
    (limits.max_actions_per_hour ≡ b.max_actions_per_hour)
    × (limits.max_disruptive_actions_per_hour ≡ b.max_disruptive_actions_per_hour)

-- The caps on counts `total` and `disruptions`.
abbrev answer_at : (limits : CircuitBreaker) → ℕ → ℕ → Answer
answer_at limits total disruptions =
    if leb limits.max_actions_per_hour total
    then (true, TripReason.total_cap total limits.max_actions_per_hour)
    else if leb limits.max_disruptive_actions_per_hour disruptions
    then (true, TripReason.disruptive_cap disruptions limits.max_disruptive_actions_per_hour)
    else (false, TripReason.ok)

module _ {R : Type 0} (c : Client R) (redis : IsRedis c) where
  -- Memory forgets what is not fresh.
  recent-Simulates :
      (log : List ℕ) (now : ℕ) (b : CircuitBreaker) (r : R) (history : List Entry)
      → history ≡ recent now b.history
      → Simulates c redis log now b r
      → Simulates c redis log now (record b { history = history }) r
  unfolding recent
  recent-Simulates log now b r history cut h = record {
    switch = h.switch;
    counts = λ k m t le le'.
        h.counts k m t le le'
        ∙ sym (
            count_if-filter (λ (e : Entry). is_chosen k e && is_fresh t e.at)
              (λ e. leb (now - hour) e.at) b.history (λ e q. ground (arith, le, le', q)))
        ∙ ap (fresh_count k t) (sym cut);
    old = h.old;
    past = λ e m. h.past e (kept e m);
    logged = λ e m. h.logged e (kept e m);
  }
    where
      kept : (e : Entry) → IsIn e history → IsIn e b.history
      kept e m =
          (IsIn-filter (λ (x : Entry). leb (now - hour) x.at) e b.history (subst (IsIn e) cut m)).0

  -- What memory counts is what is fresh.
  chosen-recent :
      (log : List ℕ) (now : ℕ) (b : CircuitBreaker) (r : R)
      → Simulates c redis log now b r
      → ((s : ℕ) → IsIn s log → s + hour ≢ now)
      → (k : Key) → count_if (is_chosen k) (recent now b.history) ≡ fresh_count k now b.history
  unfolding recent
  chosen-recent log now b r h apart k =
      count_if-and (is_chosen k) (λ (e : Entry). leb (now - hour) e.at) b.history
      ∙ count_if-same (λ (e : Entry). is_chosen k e && leb (now - hour) e.at)
          (λ e. is_chosen k e && is_fresh now e.at) b.history
          (λ e m.
            ap (λ x. is_chosen k e && x)
              (fresh-recent now e.at (h.past e m) (apart e.at (h.logged e m))))

  after_total-Simulates :
      (log : List ℕ) (now : ℕ) (limits b : CircuitBreaker) (r : R) (total : ℕ)
      → Simulates c redis log now b r
      → total ≡ fresh_count all_actions now b.history
      → (x : R) × ((after_total c now limits (r, total) ≡ (
        x,
        answer_at limits
            (fresh_count all_actions now b.history)
            (fresh_count disruptive_actions now b.history),
      ))
          × Simulates c redis log now b x)
  after_total-Simulates log now limits b r total h same =
      subst Goal (sym same) (elim (Bool-cases (leb limits.max_actions_per_hour all)) [
        | inl capped ↦ rw capped (r, (refl, h))
        | inr free ↦
            rw free (elim (Bool-cases (leb limits.max_disruptive_actions_per_hour disruptions)) [
              | inl capped ↦ rw counted (rw capped (_, (refl, kept)))
              | inr below ↦ rw counted (rw below (_, (refl, kept)))
            ])
      ])
    where
      all : ℕ
      all = fresh_count all_actions now b.history

      disruptions : ℕ
      disruptions = fresh_count disruptive_actions now b.history

      kept : Simulates c redis log now b (redis_count c now disruptive_actions r).0
      kept = (redis_count-Simulates c redis log now disruptive_actions b r h).0

      counted : (redis_count c now disruptive_actions r).1 ≡ disruptions
      counted = (redis_count-Simulates c redis log now disruptive_actions b r h).1

      Goal : ℕ → Type 0
      Goal n =
          (x : R) × ((after_total c now limits (r, n) ≡ (
            x,
            answer_at limits (fresh_count all_actions now b.history)
                (fresh_count disruptive_actions now b.history),
          ))
            × Simulates c redis log now b x)

  check_caps-answer_at :
      (log : List ℕ) (now : ℕ) (limits b : CircuitBreaker) (r : R)
      → HasLimits limits b
      → Simulates c redis log now b r
      → ((s : ℕ) → IsIn s log → s + hour ≢ now)
      → check_caps (record b { history = recent now b.history })
        ≡ answer_at limits
            (fresh_count all_actions now b.history)
            (fresh_count disruptive_actions now b.history)
  unfolding check_caps disruptive_count
  check_caps-answer_at log now limits b r (p, q) h apart =
      rw
        (
          p,
          q,
          count_if-all (is_chosen all_actions) (recent now b.history) (λ e. refl),
          length-filter_count (is_chosen disruptive_actions) (recent now b.history),
          chosen-recent log now b r h apart all_actions,
          chosen-recent log now b r h apart disruptive_actions,
        )
        refl

  pub is_tripped-Simulates :
      (log : List ℕ) (now : ℕ) (limits b : CircuitBreaker) (r : R)
      → HasLimits limits b
      → Simulates c redis log now b r
      → ((s : ℕ) → IsIn s log → s + hour ≢ now)
      → (x : R) × ((is_tripped c now limits r ≡ ok (x, (Breaker.is_tripped now b).1))
          × (Simulates c redis log now (Breaker.is_tripped now b).0 x
              × HasLimits limits (Breaker.is_tripped now b).0))
  unfolding is_tripped Breaker.is_tripped
  is_tripped-Simulates log now limits b r same h apart = elim (Bool-cases b.kill_switch) [
    | inl halted ↦
        subst Goal (sym (if-true _ _ halted))
          (r, (ap (unless_halted c now limits r) (h.switch ∙ ap ok halted), (h, same)))
    | inr running ↦
        let (x, (answered, kept)) =
          after_total-Simulates log now limits b (redis_count c now all_actions r).0
            (redis_count c now all_actions r).1
            (redis_count-Simulates c redis log now all_actions b r h).0
            (redis_count-Simulates c redis log now all_actions b r h).1 in
        subst Goal (sym (if-false _ _ running)) (
          x,
          (
            ap (unless_halted c now limits r) (h.switch ∙ ap ok running)
                ∙ ap ok answered
                ∙ ap (λ a. ok (x, a)) (sym (check_caps-answer_at log now limits b r same h apart)),
            (recent-Simulates log now b x _ refl kept, same),
          ),
        )
  ]
    where
      Goal : CircuitBreaker × Answer → Type 0
      Goal p =
          (x : R) × ((is_tripped c now limits r ≡ ok (x, p.1))
            × (Simulates c redis log now p.0 x × HasLimits limits p.0))
