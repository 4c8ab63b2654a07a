-- ===== src/Response/Breaker/Redis/Recorded.antt =====
-- backend/app/response/circuit_breaker.py: `record_execution` and `set_kill_switch` do with Redis what they do in memory.
use ai_soc.Base.{
  ℕ, ◌+◌, ◌≤◌, ◌<◌, ◌≡◌, refl, sym, ap, ◌∙◌, subst, ◌⊎◌, inl, inr, Bool, true, false, ◌&&◌, List,
  [], ◌∷◌, ◌++◌, some, IsIn, text_eq, ℕ-equality, if◌then◌else◌, arith, ok,
}
use ai_soc.Base.Slices.{IsIn-append}
use ai_soc.Base.Sort.{count_if, count_if-append}
use ai_soc.Base.Text.{codes}
use ai_soc.Response.Breaker.{
  CircuitBreaker, Entry, Kind, TripReason, hour, is_disruptive, recent, kind_of, disruptive_count,
  check_caps,
}
use ai_soc.Response.Breaker as Breaker
use ai_soc.Response.Breaker.Redis.{
  Key, all_actions, disruptive_actions, Reply, Client, is_halted, add_execution, record_execution,
  set_kill_switch,
}
use ai_soc.Response.Breaker.Redis.Laws.{IsRedis}
use ai_soc.Response.Breaker.Redis.Simulates.{is_chosen, is_fresh, fresh_count, Simulates}
use ai_soc.Response.Breaker.Redis.Added.{
  entry, added, record_execution-members, count_if-added, added-old,
}

module _ {R : Type 0} (c : Client R) (redis : IsRedis c) where
  pub set_kill_switch-Simulates :
      (log : List ℕ) (last : ℕ) (enabled : Bool) (b : CircuitBreaker) (r : R)
      → Simulates c redis log last b r
      → Simulates c redis log last (Breaker.set_kill_switch enabled b) (set_kill_switch c enabled r)
  unfolding set_kill_switch Breaker.set_kill_switch text_eq
  set_kill_switch-Simulates log last enabled b r h = record {
    switch = ap is_halted (redis.get-set (codes (if enabled then "1" else "0")) r) ∙ read enabled;
    counts = λ k now t le le'.
        ap (count_if (is_fresh t)) (redis.members-set now k _ r) ∙ h.counts k now t le le';
    old = λ k now s le m. h.old k now s le (subst (IsIn s) (redis.members-set now k _ r) m);
    past = h.past;
    logged = h.logged;
  }
    where
      read : (e : Bool) → is_halted (some (Reply.bytes (codes (if e then "1" else "0")))) ≡ ok e
      read true = refl
      read false = refl

  fresh_count-append :
      (k : Key) (t : ℕ) (history : List Entry) (e : Entry)
      → fresh_count k t (history ++ e ∷ [])
        ≡ fresh_count k t history + (if is_chosen k e && is_fresh t e.at then 1 else 0)
  fresh_count-append k t history e =
      count_if-append (λ (x : Entry). is_chosen k x && is_fresh t x.at) history (e ∷ [])

  get-add_execution : (now : ℕ) (k : Key) (r : R) → c.get (add_execution c now k r) ≡ c.get r
  get-add_execution now k r = redis.get-expire now k _ _ ∙ redis.get-zadd now k now r

  get-record_execution :
      (now : ℕ) (disruptive : Bool) (r : R) → c.get (record_execution c now disruptive r) ≡ c.get r
  unfolding record_execution
  get-record_execution now true r =
      get-add_execution now disruptive_actions _ ∙ get-add_execution now all_actions r
  get-record_execution now false r = get-add_execution now all_actions r

  pub record_execution-Simulates :
      (log : List ℕ) (last now : ℕ) (disruptive : Bool) (b : CircuitBreaker) (r : R)
      → last < now
      → Simulates c redis log last b r
      → Simulates c redis
          (now ∷ log)
          now
          (Breaker.record_execution now disruptive b)
          (record_execution c now disruptive r)
  unfolding Breaker.record_execution
  record_execution-Simulates log last now disruptive b r later h = record {
    switch = ap is_halted (get-record_execution now disruptive r) ∙ h.switch;
    counts = λ k m t le le'.
        counted k m t le le' (record_execution-members c redis now m disruptive k r le);
    old = λ k m s le n. elim (record_execution-members c redis now m disruptive k r le) [
      | inl (unchosen, same) ↦
          omega (arith, h.old k m s (omega (arith, later, le)) (subst (IsIn s) same n), later)
      | inr (chosen, joined) ↦
          added-old c redis log last now m s k b r later h (subst (IsIn s) joined n)
    ];
    past = λ e n. elim (IsIn-append e b.history (entry now disruptive ∷ []) n) [
      | inl m ↦ omega (arith, h.past e m, later)
      | inr m ↦ elim m [ inl q ↦ omega (arith, ap (λ (x : Entry). x.at) q) | inr z ↦ absurd z ]
    ];
    logged = λ e n. elim (IsIn-append e b.history (entry now disruptive ∷ []) n) [
      | inl m ↦ inr (h.logged e m)
      | inr m ↦ elim m [ inl q ↦ inl (ap (λ (x : Entry). x.at) q) | inr z ↦ absurd z ]
    ];
  }
    where
      counted :
          (k : Key) (m t : ℕ)
          → now ≤ m
          → m ≤ t
          → ((is_chosen k (entry now disruptive) ≡ false)
              × (redis.members m k (record_execution c now disruptive r) ≡ redis.members m k r))
            ⊎ ((is_chosen k (entry now disruptive) ≡ true)
                × (redis.members m k (record_execution c now disruptive r)
                    ≡ added c redis now m k r))
          → count_if (is_fresh t) (redis.members m k (record_execution c now disruptive r))
            ≡ fresh_count k t (b.history ++ entry now disruptive ∷ [])
      counted k m t le le' (inl (unchosen, same)) =
          ap (count_if (is_fresh t)) same
          ∙ h.counts k m t (omega (arith, later, le)) le'
          ∙ sym
              (fresh_count-append k t b.history (entry now disruptive) ∙ rw unchosen (omega arith))
      counted k m t le le' (inr (chosen, joined)) =
          ap (count_if (is_fresh t)) joined
          ∙ count_if-added c redis log last now m t k b r later le le' h
          ∙ sym (fresh_count-append k t b.history (entry now disruptive) ∙ rw chosen refl)
