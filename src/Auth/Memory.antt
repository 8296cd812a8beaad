-- ===== src/Auth/Memory.antt =====
-- The store of one process: internal/service/auth/account_lock.go, for one account.
use hc_framework_go.Prelude.{
  ℕ, suc, ◌+◌, ◌-◌, Bool, true, ◌&&◌, Option, none, some, ltb, if◌then◌else◌,
}
use hc_framework_go.Auth.{LoginFailEntry, LockConfig, Answer, failed, reaches}

abbrev pub count_of : Option LoginFailEntry → ℕ
count_of none = 0
count_of (some e) = e.count

abbrev pub lock_of : Option LoginFailEntry → Option ℕ
lock_of none = none
lock_of (some e) = e.locked_until

unfoldable pub record_failure :
    LockConfig → ℕ → Option LoginFailEntry → Option LoginFailEntry × Answer
record_failure cfg now entry =
    let count = suc (count_of entry) in
    (
      some (record {
        count = count;
        locked_until = if reaches cfg count then some (now + cfg.lock_ttl) else lock_of entry;
        last_seen = now;
      }),
      failed count (reaches cfg count),
    )

abbrev pub ahead : ℕ → Option ℕ → Option ℕ
ahead now none = none
ahead now (some t) = if ltb now t then some t else none

unfoldable pub get_lock_until : ℕ → Option LoginFailEntry → Option ℕ
get_lock_until now entry = ahead now (lock_of entry)

unfoldable pub get_failure_count : Option LoginFailEntry → ℕ
get_failure_count entry = count_of entry

abbrev pub is_over : ℕ → Option ℕ → Bool
is_over now none = true
is_over now (some t) = ltb t now

-- One entry in a round of the cleaner: it goes where it is not locked and an hour old.
unfoldable pub cleanup : ℕ → Option LoginFailEntry → Option LoginFailEntry
cleanup now none = none
cleanup now (some e) =
    if is_over now e.locked_until && ltb 3600 (now - e.last_seen) then none else some e
