-- ===== src/Response/Breaker/Redis/Refines.antt =====
-- backend/app/response/circuit_breaker.py: the breaker with Redis answers as the one in memory.
use ai_soc.Base.{
  ℕ, ◌+◌, ◌≤◌, ◌<◌, ◌≡◌, ◌≢◌, refl, ap, subst, Bool, false, List, [], ◌∷◌, none, IsIn, ℕ-equality,
  Result, ok, ◌>>=◌,
}
use ai_soc.Base.Sort.{count_if}
use ai_soc.Response.Breaker.{
  CircuitBreaker, Entry, Kind, TripReason, hour, is_disruptive, recent, kind_of, disruptive_count,
  check_caps,
}
use ai_soc.Response.Breaker as Breaker
use ai_soc.Response.Breaker.Redis.{
  Key, Client, RedisError, is_halted, is_tripped, record_execution, set_kill_switch,
}
use ai_soc.Response.Breaker.Redis.Laws.{IsRedis}
use ai_soc.Response.Breaker.Redis.Simulates.{is_fresh, Simulates, later-Simulates}
use ai_soc.Response.Breaker.Redis.Asked.{Answer, HasLimits, is_tripped-Simulates}
use ai_soc.Response.Breaker.Redis.Recorded.{record_execution-Simulates, set_kill_switch-Simulates}

-- What is asked of a breaker, with the time.
pub data Command : Type 0 where
  ask : ℕ → Command
  execute : ℕ → Bool → Command
  switch : Bool → Command

-- The answers of the breaker in memory.
unfoldable pub run_memory : List Command → CircuitBreaker → List Answer
run_memory [] b = []
run_memory (ask now ∷ commands) b =
    let (b', answer) = Breaker.is_tripped now b in answer ∷ run_memory commands b'
run_memory (execute now disruptive ∷ commands) b =
    run_memory commands (Breaker.record_execution now disruptive b)
run_memory (switch enabled ∷ commands) b = run_memory commands (Breaker.set_kill_switch enabled b)

-- The clock goes on, each execution has a time of its own, and no question comes exactly one hour
-- after an execution.
abbrev pub IsTimed : List ℕ → ℕ → List Command → Type 0
IsTimed log last [] = Unit {0}
IsTimed log last (ask now ∷ commands) =
    (last ≤ now) × (((s : ℕ) → IsIn s log → s + hour ≢ now) × IsTimed log now commands)
IsTimed log last (execute now disruptive ∷ commands) =
    (last < now) × IsTimed (now ∷ log) now commands
IsTimed log last (switch enabled ∷ commands) = IsTimed log last commands

module _ {R : Type 0} (c : Client R) where
  -- The answers of the breaker with Redis, whose limits are those of `b`.
  unfoldable pub run_redis : CircuitBreaker → List Command → R → Result RedisError (List Answer)
  run_redis b [] r = ok []
  run_redis b (ask now ∷ commands) r = is_tripped c now b r >>= λ (r', answer).
      run_redis b commands r' >>= λ answers. ok (answer ∷ answers)
  run_redis b (execute now disruptive ∷ commands) r =
      run_redis b commands (record_execution c now disruptive r)
  run_redis b (switch enabled ∷ commands) r = run_redis b commands (set_kill_switch c enabled r)

module _ {R : Type 0} (c : Client R) (redis : IsRedis c) where
  run-refines :
      (commands : List Command) (log : List ℕ) (last : ℕ) (limits b : CircuitBreaker) (r : R)
      → HasLimits limits b
      → Simulates c redis log last b r
      → IsTimed log last commands
      → run_redis c limits commands r ≡ ok (run_memory commands b)
  unfolding run_redis run_memory Breaker.record_execution Breaker.set_kill_switch
  run-refines [] log last limits b r same h timed = refl
  run-refines (ask now ∷ commands) log last limits b r same h (later, (apart, timed)) =
      let (x, (answered, (kept, same'))) =
        is_tripped-Simulates c redis log now limits b r same
          (later-Simulates c redis log last now b r later h) apart in
      rw
        (
          answered,
          run-refines commands log now limits (Breaker.is_tripped now b).0 x same' kept timed,
        )
        refl
  run-refines (execute now disruptive ∷ commands) log last limits b r same h (later, timed) =
      run-refines commands (now ∷ log) now limits (Breaker.record_execution now disruptive b)
        (record_execution c now disruptive r) same
        (record_execution-Simulates c redis log last now disruptive b r later h) timed
  run-refines (switch enabled ∷ commands) log last limits b r same h timed =
      run-refines commands log last limits (Breaker.set_kill_switch enabled b)
        (set_kill_switch c enabled r) same
        (set_kill_switch-Simulates c redis log last enabled b r h) timed

-- With a client that does not decode its responses, from an empty Redis on, the breaker answers each
-- question as the one in memory does, and raises nothing: for any commands in the order of the clock of which each
-- execution has a time of its own and no question comes exactly one hour after an execution.
pub run_redis-refines :
    {R : Type 0} (c : Client R) (redis : IsRedis c) (b : CircuitBreaker) (r : R)
    (commands : List Command)
    → c.get r ≡ none
    → ((t : ℕ) (k : Key) → redis.members t k r ≡ [])
    → IsTimed [] 0 commands
    → run_redis c b commands r
      ≡ ok (run_memory commands (record b { kill_switch = false; history = [] }))
run_redis-refines {R} c redis b r commands unset empty timed =
    run-refines c redis commands [] 0 b (record b { kill_switch = false; history = [] }) r
      (refl, refl)
      (record {
        switch = ap is_halted unset;
        counts = λ k now t le le'. ap (count_if (is_fresh t)) (empty now k);
        old = λ k now s le m. absurd (subst (IsIn s) (empty now k) m);
        past = λ e m. absurd m;
        logged = λ e m. absurd m;
      })
      timed
