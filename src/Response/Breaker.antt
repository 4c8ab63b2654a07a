-- ===== src/Response/Breaker.antt =====
-- backend/app/response/circuit_breaker.py without Redis: the kill switch and the hourly caps over
-- the in-memory history. Times are in microseconds; the clock is an argument.
pub mod Window
pub mod Log
pub mod Caps
pub mod Redis
use ai_soc.Base.{
  ℕ, ◌+◌, ◌-◌, ◌*◌, ◌≡◌, Bool, true, false, List, [], ◌∷◌, ◌++◌, leb, length, filter, if◌then◌else◌,
}

pub data Kind : Type 0 where
  disruptive normal : Kind

abbrev pub is_disruptive : Kind → Bool
is_disruptive disruptive = true
is_disruptive normal = false

-- A pair of `_local_history`.
pub record Entry : Type 0 where
  pub at : ℕ
  pub kind : Kind

pub record CircuitBreaker : Type 0 where
  pub max_actions_per_hour : ℕ
  pub max_disruptive_actions_per_hour : ℕ
  pub kill_switch : Bool
  pub history : List Entry

-- The reason that `is_tripped` returns, with the numbers of its message.
pub data TripReason : Type 0 where
  ok kill_switch_active : TripReason
  total_cap disruptive_cap : ℕ → ℕ → TripReason

abbrev pub hour : ℕ
hour = 3600 * 1000000

-- `CircuitBreaker()` with its default limits.
abbrev pub new_breaker : CircuitBreaker
new_breaker = record {
  max_actions_per_hour = 10;
  max_disruptive_actions_per_hour = 3;
  kill_switch = false;
  history = [];
}

-- The history of the last hour.
unfoldable pub recent : ℕ → List Entry → List Entry
recent now history = filter (λ e. leb (now - hour) e.at) history

unfoldable pub disruptive_count : List Entry → ℕ
disruptive_count history = length (filter (λ e. is_disruptive e.kind) history)

-- The two caps, on a history that holds the last hour alone.
unfoldable pub check_caps : CircuitBreaker → Bool × TripReason
check_caps b =
    let total = length b.history in
    let disruptions = disruptive_count b.history in
    if leb b.max_actions_per_hour total
    then (true, total_cap total b.max_actions_per_hour)
    else if leb b.max_disruptive_actions_per_hour disruptions
    then (true, disruptive_cap disruptions b.max_disruptive_actions_per_hour)
    else (false, ok)

unfoldable pub is_tripped : ℕ → CircuitBreaker → CircuitBreaker × (Bool × TripReason)
is_tripped now b =
    let pruned = record b { history = recent now b.history } in
    if b.kill_switch then (b, (true, kill_switch_active)) else (pruned, check_caps pruned)

abbrev pub kind_of : Bool → Kind
kind_of is_disruptive = if is_disruptive then disruptive else normal

unfoldable pub record_execution : ℕ → Bool → CircuitBreaker → CircuitBreaker
record_execution now is_disruptive b = record b {
  history = b.history ++ record { at = now; kind = kind_of is_disruptive } ∷ [];
}

unfoldable pub set_kill_switch : Bool → CircuitBreaker → CircuitBreaker
set_kill_switch enabled b = record b { kill_switch = enabled }
