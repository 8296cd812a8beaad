-- ===== src/Auth.antt =====
-- Failed logins and the lock of an account: internal/service/auth/account_lock.go, where one process
-- keeps them in a map, and `recordFailureScript`, `RecordFailure`, `GetLockUntil`, `GetFailureCount`
-- and `Clear` of internal/cache/manager.go, where all processes share a Redis key.
-- Emails are numbers, and times are seconds.
pub mod Memory
pub mod Redis
pub mod Calls
pub mod Agreement
mod Tests
use hc_framework_go.Prelude.{
  ℕ, suc, ◌+◌, ◌-◌, Bool, true, false, ◌&&◌, ◌||◌, not, Option, none, some, List, [], ◌∷◌, ltb, leb,
  ◌==◌, if◌then◌else◌, update,
}

pub record LoginFailEntry : Type 0 where
  pub count : ℕ
  pub locked_until : Option ℕ  -- `none` is the zero time
  pub last_seen : ℕ

-- The hash of an account, with the time at which the key expires.
pub record LockKey : Type 0 where
  pub count : ℕ
  pub lock : Option ℕ
  pub expires_at : ℕ

pub record LockConfig : Type 0 where
  pub max_failures : ℕ
  pub count_ttl : ℕ
  pub lock_ttl : ℕ

-- What a call of `AccountLockStore` answers.
pub data Answer : Type 0 where
  failed : ℕ → Bool → Answer
  until : Option ℕ → Answer
  counted : ℕ → Answer
  cleared : Answer
  swept : Answer

abbrev pub reaches : LockConfig → ℕ → Bool
reaches cfg count = ltb 0 cfg.max_failures && leb cfg.max_failures count

-- A call for one account, or a round of the cleaner that the store in memory has. `Clear` removes the
-- entry and the key.
pub data Call : Type 0 where
  fails asks_lock asks_count clears sweeps : Call
