-- ===== src/Auth/Calls.antt =====
-- Runs of calls on either store, behind the interface `AccountLockStore` of
-- internal/cache/accountlock.go.
use hc_framework_go.Prelude.{ℕ, Option, none, List, [], ◌∷◌}
use hc_framework_go.Auth.{
  LoginFailEntry, LockKey, LockConfig, Answer, until, counted, cleared, swept, Call, fails,
  asks_lock, asks_count, clears, sweeps,
}
use hc_framework_go.Auth.Memory
use hc_framework_go.Auth.Redis

unfoldable pub memory_call :
    LockConfig → ℕ → Call → Option LoginFailEntry → Option LoginFailEntry × Answer
unfolding Memory.record_failure Memory.get_lock_until Memory.get_failure_count Memory.cleanup
memory_call cfg now fails e = Memory.record_failure cfg now e
memory_call cfg now asks_lock e = (e, until (Memory.get_lock_until now e))
memory_call cfg now asks_count e = (e, counted (Memory.get_failure_count e))
memory_call cfg now clears e = (none, cleared)
memory_call cfg now sweeps e = (Memory.cleanup now e, swept)

unfoldable pub redis_call : LockConfig → ℕ → Call → Option LockKey → Option LockKey × Answer
unfolding Redis.record_failure Redis.get_lock_until Redis.get_failure_count
redis_call cfg now fails k = Redis.record_failure cfg now k
redis_call cfg now asks_lock k = (k, until (Redis.get_lock_until now k))
redis_call cfg now asks_count k = (k, counted (Redis.get_failure_count now k))
redis_call cfg now clears k = (none, cleared)
redis_call cfg now sweeps k = (k, swept)

-- The answers of a run of calls for an account, each at its time.
unfoldable pub memory_answers : LockConfig → List (ℕ × Call) → Option LoginFailEntry → List Answer
unfolding memory_call
memory_answers cfg [] e = []
memory_answers cfg ((now, c) ∷ cs) e =
    let (e', answer) = memory_call cfg now c e in answer ∷ memory_answers cfg cs e'

unfoldable pub redis_answers : LockConfig → List (ℕ × Call) → Option LockKey → List Answer
unfolding redis_call
redis_answers cfg [] k = []
redis_answers cfg ((now, c) ∷ cs) k =
    let (k', answer) = redis_call cfg now c k in answer ∷ redis_answers cfg cs k'
