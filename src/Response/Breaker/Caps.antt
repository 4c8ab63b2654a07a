-- ===== src/Response/Breaker/Caps.antt =====
-- The caps of the circuit breaker: when it trips, and what it guarantees over any run of actions.
use ai_soc.Base.{
  ℕ, ◌-◌, ◌≤◌, ◌<◌, ◌≡◌, refl, ◌↔◌, Bool, true, false, List, [], ◌∷◌, ◌++◌, arith, if◌then◌else◌,
  Bool-cases, inl, inr, ap,
}
use ai_soc.Response.Breaker.{
  Entry, CircuitBreaker, hour, is_disruptive, recent, check_caps, is_tripped, record_execution,
  set_kill_switch,
}
use ai_soc.Response.Breaker.Window.{
  everything, count_since, count_hour, length-recent, disruptive_count-recent, count_since-recent,
  one_entry,
}
use ai_soc.Response.Breaker.Log.{Tracks, Tracks-recent, Tracks-record, Tracks-later}

-- The breaker lets an action through exactly when the kill switch is off and both counts of the
-- last hour are below their caps.
pub is_tripped_exact :
    (now : ℕ) (b : CircuitBreaker)
    → ((is_tripped now b).1.0 ≡ false) ↔ (
        (b.kill_switch ≡ false)
        × (count_since everything (now - hour) b.history < b.max_actions_per_hour)
        × (count_since is_disruptive (now - hour) b.history < b.max_disruptive_actions_per_hour))
unfolding is_tripped check_caps
is_tripped_exact now b = (
  λ h. ground (arith, length-recent now b.history, disruptive_count-recent now b.history),
  λ h. ground (arith, length-recent now b.history, disruptive_count-recent now b.history),
)

-- A caller that follows the protocol: it asks, and records what it then executes.
abbrev pub attempt : ℕ → Bool → CircuitBreaker → CircuitBreaker × Bool
attempt now disruptive b =
    let (b', (tripped, _)) = is_tripped now b in
    if tripped then (b', false) else (record_execution now disruptive b', true)

pub record Request : Type 0 where
  pub at : ℕ
  pub disruptive : Bool

abbrev pub executed_entry : Request → List Entry
executed_entry r = one_entry r.at r.disruptive

-- All requests in turn: the breaker, and the log of what was executed.
unfoldable pub serve : List Request → CircuitBreaker → List Entry → CircuitBreaker × List Entry
serve [] b log = (b, log)
serve (r ∷ rs) b log =
    let (b', done) = attempt r.at r.disruptive b in
    serve rs b' (if done then log ++ executed_entry r else log)

-- The requests come in the order of the clock, from `now` on.
abbrev pub IsOrdered : ℕ → List Request → Type 0
IsOrdered now [] = Unit
IsOrdered now (r ∷ rs) = (now ≤ r.at) × IsOrdered r.at rs

record Within (b : CircuitBreaker) (now : ℕ) (log : List Entry) : Type 0 where
  total : Tracks everything b.max_actions_per_hour now b.history log
  disruptions : Tracks is_disruptive b.max_disruptive_actions_per_hour now b.history log

abbrev new_log : Bool → List Entry → Request → List Entry
new_log done log r = if done then log ++ executed_entry r else log

attempt-passed :
    (b : CircuitBreaker) (t : ℕ) (d : Bool)
    → b.kill_switch ≡ false
    → (is_tripped t b).1.0 ≡ false
    → attempt t d b ≡ (record_execution t d (record b { history = recent t b.history }), true)
unfolding is_tripped
attempt-passed b t d off passed = ground arith

attempt-refused :
    (b : CircuitBreaker) (t : ℕ) (d : Bool)
    → (is_tripped t b).1.0 ≡ true
    → attempt t d b ≡ ((is_tripped t b).0, false)
attempt-refused b t d refused = rw refused

is_tripped-Within :
    (b : CircuitBreaker) (now t : ℕ) (log : List Entry)
    → now ≤ t
    → Within b now log
    → Within (is_tripped t b).0 t log
unfolding is_tripped
is_tripped-Within b now t log h w = elim (Bool-cases b.kill_switch) [
  | inl on ↦ rw on (record {
    total = Tracks-later everything _ now t b.history log h w.total;
    disruptions = Tracks-later is_disruptive _ now t b.history log h w.disruptions;
  })
  | inr off ↦ rw off (record {
    total = Tracks-recent everything _ now t b.history log h w.total;
    disruptions = Tracks-recent is_disruptive _ now t b.history log h w.disruptions;
  })
]

record_execution-Within :
    (b : CircuitBreaker) (now t : ℕ) (d : Bool) (log : List Entry)
    → now ≤ t
    → Within b now log
    → count_since everything (t - hour) b.history < b.max_actions_per_hour
    → count_since is_disruptive (t - hour) b.history < b.max_disruptive_actions_per_hour
    → Within
        (record_execution t d (record b { history = recent t b.history }))
        t
        (log ++ one_entry t d)
unfolding record_execution
record_execution-Within b now t d log h w below below' = record {
  total =
      Tracks-record everything _ t d (recent t b.history) log
        (rw (count_since-recent everything t (t - hour) b.history (omega arith)) below)
        (Tracks-recent everything _ now t b.history log h w.total);
  disruptions =
      Tracks-record is_disruptive _ t d (recent t b.history) log
        (rw (count_since-recent is_disruptive t (t - hour) b.history (omega arith)) below')
        (Tracks-recent is_disruptive _ now t b.history log h w.disruptions);
}

attempt-Within :
    (b : CircuitBreaker) (now : ℕ) (r : Request) (log : List Entry)
    → now ≤ r.at
    → Within b now log
    → Within (attempt r.at r.disruptive b).0 r.at (new_log (attempt r.at r.disruptive b).1 log r)
attempt-Within b now r log h w = elim (Bool-cases (is_tripped r.at b).1.0) [
  | inl refused ↦
      rw (attempt-refused b r.at r.disruptive refused) (is_tripped-Within b now r.at log h w)
  | inr passed ↦
      let (off, below, below') = (is_tripped_exact r.at b).0 passed in
      rw (attempt-passed b r.at r.disruptive off passed)
        (record_execution-Within b now r.at r.disruptive log h w below below')
]

is_tripped-keeps_limits :
    (t : ℕ) (b : CircuitBreaker)
    → ((is_tripped t b).0.max_actions_per_hour ≡ b.max_actions_per_hour)
      × ((is_tripped t b).0.max_disruptive_actions_per_hour ≡ b.max_disruptive_actions_per_hour)
      × ((is_tripped t b).0.kill_switch ≡ b.kill_switch)
unfolding is_tripped
is_tripped-keeps_limits t b = ground arith

attempt-keeps_limits :
    (t : ℕ) (d : Bool) (b : CircuitBreaker)
    → ((attempt t d b).0.max_actions_per_hour ≡ b.max_actions_per_hour)
      × ((attempt t d b).0.max_disruptive_actions_per_hour ≡ b.max_disruptive_actions_per_hour)
      × ((attempt t d b).0.kill_switch ≡ b.kill_switch)
unfolding record_execution
attempt-keeps_limits t d b = ground (arith, is_tripped-keeps_limits t b)

serve-Within :
    (rs : List Request) (b : CircuitBreaker) (now : ℕ) (log : List Entry)
    → IsOrdered now rs
    → Within b now log
    → (from : ℕ)
    → (count_hour everything from (serve rs b log).1 ≤ b.max_actions_per_hour)
      × (count_hour is_disruptive from (serve rs b log).1 ≤ b.max_disruptive_actions_per_hour)
unfolding serve
serve-Within [] b now log o w from = (w.total.capped from, w.disruptions.capped from)
serve-Within (r ∷ rs) b now log o w from =
    let step = attempt r.at r.disruptive b in
    let (same, same', _) = attempt-keeps_limits r.at r.disruptive b in
    let later =
      serve-Within rs step.0 r.at (new_log step.1 log r) o.1 (attempt-Within b now r log o.0 w)
        from in
    (omega (arith, same, later.0), omega (arith, same', later.1))

-- Whatever is attempted in the order of the clock, from an empty history, no hour of the log of
-- executed actions holds more actions than the hourly cap, nor more disruptive ones than theirs.
pub serve_within_caps :
    (b : CircuitBreaker) (rs : List Request)
    → b.history ≡ []
    → IsOrdered 0 rs
    → (from : ℕ)
    → (count_hour everything from (serve rs b []).1 ≤ b.max_actions_per_hour)
      × (count_hour is_disruptive from (serve rs b []).1 ≤ b.max_disruptive_actions_per_hour)
unfolding count_hour
serve_within_caps b rs empty o from =
    serve-Within rs b 0 [] o
      (record {
        total = record {
          known = λ since le. ap (count_since everything since) empty;
          capped = λ f. omega arith;
        };
        disruptions = record {
          known = λ since le. ap (count_since is_disruptive since) empty;
          capped = λ f. omega arith;
        };
      })
      from

-- With the kill switch on, nothing is executed and the breaker does not change.
pub serve_halted :
    (b : CircuitBreaker) (rs : List Request) (log : List Entry)
    → serve rs (set_kill_switch true b) log ≡ (set_kill_switch true b, log)
unfolding serve set_kill_switch is_tripped
serve_halted b [] log = refl
serve_halted b (r ∷ rs) log = serve_halted b rs log
