-- ===== src/Auth/Redis.antt =====
-- The store that all processes share: the script and the methods of internal/cache/manager.go on the
-- Redis key of one account. A call that Redis refuses is left out.
use hc_framework_go.Prelude.{ℕ, suc, ◌+◌, Option, none, some, ltb, if◌then◌else◌}
use hc_framework_go.Auth.{LockKey, LockConfig, Answer, failed, reaches}

-- The key as Redis sees it: gone from the moment it expires.
abbrev pub live : ℕ → Option LockKey → Option LockKey
live now none = none
live now (some k) = if ltb now k.expires_at then some k else none

-- HINCRBY of a key that is there keeps its lifetime.
abbrev pub counted_up : LockConfig → ℕ → Option LockKey → LockKey
counted_up cfg now none = record { count = 1; lock = none; expires_at = now + cfg.count_ttl }
counted_up cfg now (some k) = record k { count = suc k.count }

abbrev pub locked_up : LockConfig → ℕ → LockKey → LockKey
locked_up cfg now k =
    if reaches cfg k.count
    then record k { lock = some (now + cfg.lock_ttl); expires_at = now + cfg.lock_ttl }
    else k

unfoldable pub record_failure : LockConfig → ℕ → Option LockKey → Option LockKey × Answer
record_failure cfg now key =
    let k = counted_up cfg now (live now key) in
    (some (locked_up cfg now k), failed k.count (reaches cfg k.count))

abbrev pub lock_in : ℕ → Option LockKey → Option ℕ
lock_in now none = none
lock_in now (some k) = elim k.lock [ none ↦ none | some t ↦ if ltb t now then none else some t ]

unfoldable pub get_lock_until : ℕ → Option LockKey → Option ℕ
get_lock_until now key = lock_in now (live now key)

abbrev pub count_in : Option LockKey → ℕ
count_in none = 0
count_in (some k) = k.count

unfoldable pub get_failure_count : ℕ → Option LockKey → ℕ
get_failure_count now key = count_in (live now key)
