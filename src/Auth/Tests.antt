-- ===== src/Auth/Tests.antt =====
-- Two failures within the time of the count; and a failure after a lock has run out.
use hc_framework_go.Prelude.{arith, ◌≡◌, ◌↔◌, refl, true, false, none, [], ◌∷◌, List, ℕ}
use hc_framework_go.Auth.{LockConfig, Call, fails, asks_lock, failed, until}
use hc_framework_go.Auth.Memory
use hc_framework_go.Auth.Redis
use hc_framework_go.Auth.Calls.{memory_call, redis_call, memory_answers, redis_answers}
use hc_framework_go.Auth.Agreement.{in_step, memory_answers-redis_answers}

abbrev cfg : LockConfig
cfg = record { max_failures = 2; count_ttl = 900; lock_ttl = 600 }

abbrev late : List (ℕ × Call)
late = (0, fails) ∷ (10, fails) ∷ (700, asks_lock) ∷ (701, fails) ∷ []

memory_answers-redis_answers_example :
    (memory_answers cfg late none ≡ redis_answers cfg late none)
    ↔ (in_step cfg late none none ≡ true)
memory_answers-redis_answers_example =
    memory_answers-redis_answers cfg late
      (omega arith, (omega arith, (omega arith, (omega arith, tt))))

-- The lock is over, and a single failure locks the account again, in one store only.
late_memory :
    memory_answers cfg late none ≡ failed 1 false ∷ failed 2 true ∷ until none ∷ failed 3 true ∷ []
unfolding memory_answers memory_call Memory.record_failure Memory.get_lock_until
late_memory = refl

late_redis :
    redis_answers cfg late none ≡ failed 1 false ∷ failed 2 true ∷ until none ∷ failed 1 false ∷ []
unfolding redis_answers redis_call Redis.record_failure Redis.get_lock_until
late_redis = refl
