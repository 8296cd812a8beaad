-- ===== src/Idle/Daily.antt =====
-- The limit on the points of a day: `tryAcquireDailyPointsScript`, `TryAcquireDailyPoints` and
-- `ReleaseDailyPoints` of internal/cache/manager.go, and their callers `AcquireDailyPoints`,
-- `GetDailyPoints`, `getDailyPointsDB` and `ReleaseDailyPoints` of internal/repository/idle_repo.go.
-- The sums of the script are whole numbers here; Lua computes them as doubles.
use hc_framework_go.Prelude.{
  ℕ, Bool, true, false, ◌&&◌, ◌||◌, not, Option, none, some, List, ◌==◌, if◌then◌else◌, ltb, ℤ, pos,
  ◌+ℤ◌, ◌-ℤ◌, ltb_ℤ, find?,
}
use hc_framework_go.Shop.Counter.{CacheMode, has_l2}
use hc_framework_go.Idle.Session.{IdleDailyPoints, Counter}

-- GET key or '0'
abbrev pub value_of : Option Counter → ℤ
value_of none = pos 0
value_of (some c) = c.value

-- INCRBY and EXPIRE where the key has no time to live: what is granted is added to the counter.
unfoldable pub try_acquire_script : ℤ → ℤ → Option Counter → Option Counter × ℤ
try_acquire_script want limit key =
    if ltb_ℤ (pos 0) granted
    then (some (record { value = value_of key +ℤ granted; expires = true }), granted)
    else (key, pos 0)
  where
    granted : ℤ
    granted = if ltb_ℤ limit (value_of key +ℤ want) then limit -ℤ value_of key else want

-- DECRBY makes a missing key, with no time to live.
abbrev pub decr_by : ℤ → Option Counter → Counter
decr_by n none = record { value = pos 0 -ℤ n; expires = false }
decr_by n (some c) = record c { value = c.value -ℤ n }

-- What fails in a use of the counter, and what the replica says of the summary row.
pub record CounterEnv : Type 0 where
  pub get_fails : Bool
  pub set_fails : Bool
  pub script_fails : Bool
  pub release_fails : Bool
  pub summary_fails : Bool
  pub replica_daily : List IdleDailyPoints

abbrev total_or_zero : Option IdleDailyPoints → ℤ
total_or_zero none = pos 0
total_or_zero (some r) = r.total

-- A row that is missing or cannot be read counts as 0.
unfoldable pub get_daily_points_db : CounterEnv → ℕ → ℕ → ℤ
get_daily_points_db env user day =
    if env.summary_fails
    then pos 0
    else total_or_zero (find? (λ r. (r.user_id == user) && (r.day == day)) env.replica_daily)

abbrev warm : CounterEnv → ℤ → Option Counter → ℤ × Option Counter
warm env total key =
    (total, if env.set_fails then key else some (record { value = total; expires = true }))

-- With Redis: the counter, or else the summary row, which is put into the counter.
unfoldable pub get_daily_points : CounterEnv → ℕ → ℕ → Option Counter → ℤ × Option Counter
unfolding get_daily_points_db
get_daily_points env user day none = warm env (get_daily_points_db env user day) none
get_daily_points env user day (some c) =
    if env.get_fails
    then warm env (get_daily_points_db env user day) (some c)
    else (c.value, some c)

-- The number granted, `none` for an error of the script, and the counter.
unfoldable pub try_acquire_daily_points : Bool → ℤ → ℕ → Option Counter → Option ℤ × Option Counter
unfolding try_acquire_script
try_acquire_daily_points fails want limit key = if fails then (none, key) else (
  some (try_acquire_script want (pos limit) key).1,
  (try_acquire_script want (pos limit) key).0,
)

abbrev pub is_limited : CacheMode → ℕ → Bool
is_limited mode limit = has_l2 mode && ltb 0 limit

-- The counter is read, set where it was missing, and then the script runs: three calls, here with no
-- other run in between.
unfoldable pub acquire_daily_points :
    CacheMode → CounterEnv → ℕ → ℕ → ℤ → ℕ → Option Counter → Option ℤ × Option Counter
unfolding get_daily_points try_acquire_daily_points
acquire_daily_points mode env user day want limit key =
    if is_limited mode limit
    then try_acquire_daily_points env.script_fails want limit (get_daily_points env user day key).1
    else (some want, key)

unfoldable pub release_daily_points : CacheMode → CounterEnv → ℤ → Option Counter → Option Counter
release_daily_points mode env granted key =
    if not (has_l2 mode) || not (ltb_ℤ (pos 0) granted)
    then key
    else if env.release_fails
    then key
    else some (decr_by granted key)
