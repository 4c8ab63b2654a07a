-- ===== src/Response/Breaker/Redis.antt =====
-- backend/app/response/circuit_breaker.py with Redis: the kill switch is a key, and the executions of the last
-- hour are two sorted sets of times, one for all and one for the disruptive ones.
pub mod Laws
pub mod Simulates
pub mod Asked
pub mod Added
pub mod Recorded
pub mod Refines
mod Tests
use ai_soc.Base.{
  ℕ, ◌-◌, ◌*◌, Bool, true, false, List, [], ◌∷◌, Option, none, some, leb, ◌==◌, Text-equality,
  if◌then◌else◌, Result, ok, err,
}
use ai_soc.Base.Text.{Text, codes}
use ai_soc.Models.{second}
use ai_soc.Response.Breaker.{CircuitBreaker, TripReason, hour}

pub data Key : Type 0 where
  all_actions disruptive_actions : Key

-- What a client returns for a string: bytes, or a text if it decodes responses.
pub data Reply : Type 0 where
  bytes decoded : Text → Reply

-- The calls of the client. The clock of the server is that of the program, and a question is asked at
-- one time. Those on sorted sets have the time of the server, for the keys that expire;
-- a member is the text of its score.
pub record Client (R : Type 0) : Type 0 where
  pub get : R → Option Reply
  pub set : Text → R → R
  pub zadd : ℕ → Key → ℕ → R → R
  pub expire : ℕ → Key → ℕ → R → R
  pub zremrangebyscore : ℕ → Key → ℕ → ℕ → R → R
  pub zcard : ℕ → Key → R → ℕ

pub data RedisError : Type 0 where
  attribute_error : RedisError

-- `halted and halted.decode() == "1"`
abbrev pub is_halted : Option Reply → Result RedisError Bool
is_halted none = ok false
is_halted (some (bytes s)) = ok (s == codes "1")
is_halted (some (decoded [])) = ok false
is_halted (some (decoded (c ∷ s))) = err attribute_error

module _ {R : Type 0} (c : Client R) where
  -- `_redis_count`. An upper bound below zero, in the first hour of the epoch, removes nothing.
  unfoldable pub redis_count : ℕ → Key → R → R × ℕ
  redis_count now key r =
      let r' = if leb hour now then c.zremrangebyscore now key 0 (now - hour) r else r in
      (r', c.zcard now key r')

  abbrev pub after_disruptive : CircuitBreaker → R × ℕ → R × (Bool × TripReason)
  after_disruptive b (r, disruptions) =
      if leb b.max_disruptive_actions_per_hour disruptions
      then (r, (true, TripReason.disruptive_cap disruptions b.max_disruptive_actions_per_hour))
      else (r, (false, TripReason.ok))

  abbrev pub after_total : ℕ → CircuitBreaker → R × ℕ → R × (Bool × TripReason)
  after_total now b (r, total) =
      if leb b.max_actions_per_hour total
      then (r, (true, TripReason.total_cap total b.max_actions_per_hour))
      else after_disruptive b (redis_count now disruptive_actions r)

  abbrev pub unless_halted :
      ℕ → CircuitBreaker → R → Result RedisError Bool → Result RedisError (R × (Bool × TripReason))
  unless_halted now b r (err e) = err e
  unless_halted now b r (ok true) = ok (r, (true, TripReason.kill_switch_active))
  unless_halted now b r (ok false) = ok (after_total now b (redis_count now all_actions r))

  unfoldable pub is_tripped : ℕ → CircuitBreaker → R → Result RedisError (R × (Bool × TripReason))
  is_tripped now b r = unless_halted now b r (is_halted (c.get r))

  -- One key of the pipeline.
  abbrev pub add_execution : ℕ → Key → R → R
  add_execution now key r = c.expire now key (3600 * second) (c.zadd now key now r)

  unfoldable pub record_execution : ℕ → Bool → R → R
  record_execution now is_disruptive r =
      let r' = add_execution now all_actions r in
      if is_disruptive then add_execution now disruptive_actions r' else r'

  unfoldable pub set_kill_switch : Bool → R → R
  set_kill_switch enabled r = c.set (codes (if enabled then "1" else "0")) r
