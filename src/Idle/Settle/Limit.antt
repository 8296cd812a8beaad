-- ===== src/Idle/Settle/Limit.antt =====
-- The daily limit under settlements that interleave: `AcquireDailyPoints`, `ReleaseDailyPoints` and
-- `settleSession` of internal/service/idle/idle_service.go and internal/repository/idle_repo.go, with
-- the script of internal/cache/manager.go.
use hc_framework_go.Prelude.{
  ℕ, ◌+◌, ◌≤◌, ◌≡◌, ◌≢◌, refl, Bool, true, false, Option, none, some, arith, ltb, ℤ, pos, ltb_ℤ,
  ◌≤ℤ◌, ◌+ℤ◌, ◌-ℤ◌, pos_part,
}
use hc_framework_go.Shop.Counter.{has_l2}
use hc_framework_go.Idle.Session.{Counter}
use hc_framework_go.Idle.Daily.{
  value_of, try_acquire_script, CounterEnv, get_daily_points_db, get_daily_points,
  acquire_daily_points, release_daily_points, try_acquire_daily_points,
}
use hc_framework_go.Idle.Settle.{IdleService, SettleEnv, unknown}

-- What the counter allows for: reads of it are answered, no commit is unclear, no midnight falls into
-- a run, and the summary is not negative.
pub record IsCalm (env : SettleEnv) : Type 0 where
  pub same_day : env.later_day ≡ env.day
  pub clear : env.commit ≢ unknown
  pub read : env.counter.get_fails ≡ false
  pub summary : (user day : ℕ) → ltb_ℤ (get_daily_points_db env.counter user day) (pos 0) ≡ false

-- No commit is unclear, and no midnight falls into a run.
pub record IsClear (env : SettleEnv) : Type 0 where
  pub same_day : env.later_day ≡ env.day
  pub clear : env.commit ≢ unknown

-- `n` points are counted and within the limit.
pub record Fits (limit n : ℕ) (key : Option Counter) : Type 0 where
  pub covered : pos n ≤ℤ value_of key
  pub bounded : n ≤ limit

-- The points that a reservation got, if it got any.
abbrev pub points_in : Option ℤ → ℕ
points_in none = 0
points_in (some p) = pos_part p

module _ (svc : IdleService) (redis : has_l2 svc.cache ≡ true)
    (limited : ltb 0 svc.daily_points_limit ≡ true) where
  script-Fits :
      (limit n : ℕ) (want : ℤ) (key : Option Counter)
      → Fits limit n key
      → Fits limit
          (n + pos_part (try_acquire_script want (pos limit) key).1)
          (try_acquire_script want (pos limit) key).0
  unfolding try_acquire_script ◌+ℤ◌ ◌-ℤ◌
  script-Fits limit n want key f = record {
    covered = ground (arith, f.covered, f.bounded);
    bounded = ground (arith, f.covered, f.bounded);
  }

  pub acquire_is :
      (env : CounterEnv) (limit user day : ℕ) (want : ℤ) (key : Option Counter)
      → ltb 0 limit ≡ true
      → acquire_daily_points svc.cache env user day want limit key
        ≡ try_acquire_daily_points env.script_fails want limit (get_daily_points env user day key).1
  unfolding acquire_daily_points
  acquire_is env limit user day want key h = rw (redis, h) refl

  pub try_acquire-Fits :
      (fails : Bool) (want : ℤ) (limit n : ℕ) (key : Option Counter)
      → Fits limit n key
      → Fits limit
          (n + points_in (try_acquire_daily_points fails want limit key).0)
          (try_acquire_daily_points fails want limit key).1
  unfolding try_acquire_daily_points
  try_acquire-Fits true want limit n key f = record {
    covered = omega (arith, f.covered);
    bounded = omega (arith, f.bounded);
  }
  try_acquire-Fits false want limit n key f = script-Fits limit n want key f

  pub release-Fits :
      (env : CounterEnv) (limit n : ℕ) (granted : ℤ) (key : Option Counter)
      → Fits limit (n + pos_part granted) key
      → Fits limit n (release_daily_points svc.cache env granted key)
  unfolding release_daily_points ◌-ℤ◌
  release-Fits env limit n granted none f = record {
    covered = ground (arith, f.covered);
    bounded = omega (arith, f.bounded);
  }
  release-Fits env limit n granted (some c) f = record {
    covered = ground (arith, f.covered);
    bounded = omega (arith, f.bounded);
  }
