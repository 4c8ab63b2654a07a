-- ===== src/Response/Breaker/Redis/Tests.antt =====
-- A Redis of two sorted sets and one key, and runs of the breaker with it.
use ai_soc.Base.{
  text_eq, ℕ, ◌+◌, ◌≡◌, ◌≢◌, refl, ap, ◌∙◌, Bool, true, false, List, [], ◌∷◌, Option, none, some,
  filter, length, ltb, if◌then◌else◌, arith, Bool-cases, inl, inr, ok, err,
}
use ai_soc.Base.Text.{Text, codes}
use ai_soc.Response.Breaker.{TripReason, new_breaker, hour, check_caps, recent, disruptive_count}
use ai_soc.Response.Breaker as Breaker
use ai_soc.Response.Breaker.Redis.{
  Key, all_actions, disruptive_actions, Reply, Client, RedisError, redis_count, record_execution,
  is_tripped,
}
use ai_soc.Response.Breaker.Redis.Laws.{IsRedis, add, is_outside}
use ai_soc.Response.Breaker.Redis.Refines.{
  Command, IsTimed, run_memory, run_redis, run_redis-refines,
}

-- The scores, and the time at which the key expires.
record ZSet : Type 0 where
  scores : List ℕ
  expires : Option ℕ

record Store : Type 0 where
  switch : Option Text
  all : ZSet
  disruptive : ZSet

abbrev live_until : ℕ → List ℕ → Option ℕ → List ℕ
live_until t scores none = scores
live_until t scores (some at) = if ltb t at then scores else []

abbrev live : ℕ → ZSet → List ℕ
live t z = live_until t z.scores z.expires

-- A key that expired is a new key, without a time to live.
abbrev kept_expiry : ℕ → Option ℕ → Option ℕ
kept_expiry now none = none
kept_expiry now (some at) = if ltb now at then some at else none

abbrev z_of : Key → Store → ZSet
z_of all_actions r = r.all
z_of disruptive_actions r = r.disruptive

abbrev put : Key → ZSet → Store → Store
put all_actions z r = record r { all = z }
put disruptive_actions z r = record r { disruptive = z }

abbrev reply : Option Text → Option Reply
reply none = none
reply (some s) = some (Reply.bytes s)

abbrev client : Client Store
client = record {
  get = λ r. reply r.switch;
  set = λ s r. record r { switch = some s };
  zadd = λ now k s r.
      put k
        (record {
          scores = add s (live now (z_of k r));
          expires = kept_expiry now (z_of k r).expires;
        })
        r;
  expire = λ now k seconds r.
      put k (record { scores = live now (z_of k r); expires = some (now + seconds) }) r;
  zremrangebyscore = λ now k lo hi r.
      put k (record (z_of k r) { scores = filter (is_outside lo hi) (z_of k r).scores }) r;
  zcard = λ now k r. length (live now (z_of k r));
}

switch-put : (k : Key) (z : ZSet) (r : Store) → reply (put k z r).switch ≡ reply r.switch
switch-put all_actions z r = refl
switch-put disruptive_actions z r = refl

z_of-put : (k : Key) (z : ZSet) (r : Store) → z_of k (put k z r) ≡ z
z_of-put all_actions z r = refl
z_of-put disruptive_actions z r = refl

z_of-put_other :
    (k other : Key) (z : ZSet) (r : Store) → k ≢ other → z_of other (put k z r) ≡ z_of other r
z_of-put_other all_actions all_actions z r apart = absurd (apart refl)
z_of-put_other all_actions disruptive_actions z r apart = refl
z_of-put_other disruptive_actions all_actions z r apart = refl
z_of-put_other disruptive_actions disruptive_actions z r apart = absurd (apart refl)

live-add :
    (now s : ℕ) (scores : List ℕ) (o : Option ℕ)
    → live_until now (add s (live_until now scores o)) (kept_expiry now o)
      ≡ add s (live_until now scores o)
live-add now s scores none = refl
live-add now s scores (some at) = elim (Bool-cases (ltb now at)) [
  | inl alive ↦ rw (alive, alive) refl
  | inr gone ↦ rw gone refl
]

live-filter :
    (p : ℕ → Bool) (t : ℕ) (scores : List ℕ) (o : Option ℕ)
    → live_until t (filter p scores) o ≡ filter p (live_until t scores o)
live-filter p t scores none = refl
live-filter p t scores (some at) = elim (Bool-cases (ltb t at)) [
  | inl alive ↦ rw alive refl
  | inr gone ↦ rw gone refl
]

client-IsRedis : IsRedis client
client-IsRedis = record {
  members = λ t k r. live t (z_of k r);
  get-set = λ s r. refl;
  get-zadd = λ now k s r. switch-put k _ r;
  get-expire = λ now k s r. switch-put k _ r;
  get-zremrangebyscore = λ now k lo hi r. switch-put k _ r;
  members-set = λ t k s r. ap (live t) (z_of-set k s r);
  members-zadd = λ now k s r.
      ap (live now) (z_of-put k _ r) ∙ live-add now s (z_of k r).scores (z_of k r).expires;
  members-zadd_other = λ now t k other s r apart. ap (live t) (z_of-put_other k other _ r apart);
  members-expire = λ now t k seconds r le. ap (live t) (z_of-put k _ r);
  members-expire_other =
      λ now t k other seconds r apart. ap (live t) (z_of-put_other k other _ r apart);
  members-zremrangebyscore = λ now t k lo hi r le.
      ap (live t) (z_of-put k _ r)
      ∙ live-filter (is_outside lo hi) t (z_of k r).scores (z_of k r).expires;
  members-zremrangebyscore_other =
      λ now t k other lo hi r apart. ap (live t) (z_of-put_other k other _ r apart);
  zcard-members = λ now k r. refl;
}
  where
    z_of-set : (k : Key) (s : Text) (r : Store) → z_of k (record r { switch = some s }) ≡ z_of k r
    z_of-set all_actions s r = refl
    z_of-set disruptive_actions s r = refl

abbrev start : Store
start = record {
  switch = none;
  all = record { scores = []; expires = none };
  disruptive = record { scores = []; expires = none };
}

-- Three disruptive actions trip the cap of three, until the first is older than an hour; then the
-- switch stops everything.
abbrev commands : List Command
commands =
    Command.execute 1 true
    ∷ Command.execute 2 true
    ∷ Command.ask 3
    ∷ Command.execute 4 true
    ∷ Command.ask 5
    ∷ Command.ask (hour + 3)
    ∷ []

commands-IsTimed : IsTimed [] 0 commands
commands-IsTimed = (
  omega arith,
  (
    omega arith,
    (
      omega arith,
      (
        λ s m q. ground (arith, m, q),
        (
          omega arith,
          (
            omega arith,
            (λ s m q. ground (arith, m, q), (omega arith, (λ s m q. ground (arith, m, q), tt))),
          ),
        ),
      ),
    ),
  ),
)

empty : (t : ℕ) (k : Key) → live t (z_of k start) ≡ []
empty t all_actions = refl
empty t disruptive_actions = refl

run_redis-refines_example :
    run_redis client new_breaker commands start ≡ ok (run_memory commands new_breaker)
unfolding client-IsRedis
run_redis-refines_example =
    run_redis-refines client client-IsRedis new_breaker start commands refl empty commands-IsTimed

memory_run :
    run_memory commands new_breaker
    ≡ (false, TripReason.ok) ∷ (true, TripReason.disruptive_cap 3 3) ∷ (false, TripReason.ok) ∷ []
unfolding run_memory Breaker.is_tripped Breaker.record_execution check_caps recent disruptive_count
memory_run = refl

-- A client that decodes its responses makes the kill switch raise.
abbrev decoding : Client Store
decoding = record client { get = λ r. decoded_reply r.switch }
  where
    decoded_reply : Option Text → Option Reply
    decoded_reply none = none
    decoded_reply (some s) = some (Reply.decoded s)

decoding_run :
    is_tripped decoding 0 new_breaker (record start { switch = some (codes "1") })
    ≡ err RedisError.attribute_error
unfolding is_tripped
decoding_run = refl

-- Executions at one time are one member of the set, so the cap does not count the others.
same_time_run :
    run_redis client new_breaker
      (Command.execute 1 true
        ∷ Command.execute 1 true
        ∷ Command.execute 1 true
        ∷ Command.ask 2
        ∷ [])
      start
    ≡ ok ((false, TripReason.ok) ∷ [])
unfolding run_redis is_tripped redis_count record_execution text_eq
same_time_run = refl
