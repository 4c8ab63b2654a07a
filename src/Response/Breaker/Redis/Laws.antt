-- ===== src/Response/Breaker/Redis/Laws.antt =====
-- What the circuit breaker relies on of Redis, and what it makes of it.
use ai_soc.Base.{
  ℕ, ◌+◌, ◌≤◌, ◌≡◌, ◌≢◌, Bool, not, ◌&&◌, List, [], some, contains, filter, length, leb, ltb,
  ℕ-equality, if◌then◌else◌,
}
use ai_soc.Base.Text.{Text}
use ai_soc.Base.Sort.{insert_by}
use ai_soc.Response.Breaker.Redis.{Key, Reply, Client}

-- A score joins a sorted set unless it is there.
abbrev pub add : ℕ → List ℕ → List ℕ
add s scores = if contains scores s then scores else insert_by leb s scores

abbrev pub is_outside : ℕ → ℕ → ℕ → Bool
is_outside lo hi s = not (leb lo s && leb s hi)

-- A client that does not decode, with the scores that a sorted set has at a time. A key that
-- expires is empty from then on.
pub record IsRedis {R : Type 0} (c : Client R) : Type 0 where
  pub members : ℕ → Key → R → List ℕ
  pub get-set : (s : Text) (r : R) → c.get (c.set s r) ≡ some (Reply.bytes s)
  pub get-zadd : (now : ℕ) (k : Key) (s : ℕ) (r : R) → c.get (c.zadd now k s r) ≡ c.get r
  pub get-expire : (now : ℕ) (k : Key) (s : ℕ) (r : R) → c.get (c.expire now k s r) ≡ c.get r
  pub get-zremrangebyscore :
      (now : ℕ) (k : Key) (lo hi : ℕ) (r : R) → c.get (c.zremrangebyscore now k lo hi r) ≡ c.get r
  pub members-set : (t : ℕ) (k : Key) (s : Text) (r : R) → members t k (c.set s r) ≡ members t k r
  pub members-zadd :
      (now : ℕ) (k : Key) (s : ℕ) (r : R)
      → members now k (c.zadd now k s r) ≡ add s (members now k r)
  pub members-zadd_other :
      (now t : ℕ) (k other : Key) (s : ℕ) (r : R)
      → k ≢ other
      → members t other (c.zadd now k s r) ≡ members t other r
  pub members-expire :
      (now t : ℕ) (k : Key) (seconds : ℕ) (r : R)
      → now ≤ t
      → members t k (c.expire now k seconds r)
        ≡ (if ltb t (now + seconds) then members now k r else [])
  pub members-expire_other :
      (now t : ℕ) (k other : Key) (seconds : ℕ) (r : R)
      → k ≢ other
      → members t other (c.expire now k seconds r) ≡ members t other r
  pub members-zremrangebyscore :
      (now t : ℕ) (k : Key) (lo hi : ℕ) (r : R)
      → now ≤ t
      → members t k (c.zremrangebyscore now k lo hi r) ≡ filter (is_outside lo hi) (members t k r)
  pub members-zremrangebyscore_other :
      (now t : ℕ) (k other : Key) (lo hi : ℕ) (r : R)
      → k ≢ other
      → members t other (c.zremrangebyscore now k lo hi r) ≡ members t other r
  pub zcard-members : (now : ℕ) (k : Key) (r : R) → c.zcard now k r ≡ length (members now k r)
