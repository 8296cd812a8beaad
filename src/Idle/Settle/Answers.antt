-- ===== src/Idle/Settle/Answers.antt =====
-- What a run of `settleSession` of internal/service/idle/idle_service.go leaves, by its answer.
use hc_framework_go.Prelude.{ℕ, ◌≡◌, Bool, true, false, Option, none, some, arith, ltb, ℤ, pos}
use hc_framework_go.Shop.Counter.{has_l2}
use hc_framework_go.Idle.Session.{IdleRecord, Counter, Store}
use hc_framework_go.Idle.Daily.{value_of, try_acquire_script}
use hc_framework_go.Idle.Settle.{
  IdleService, SettleEnv, acquire, points_for, set_counter, close_for_nothing, is_zero,
  settle_granted, settle_session,
}
use hc_framework_go.Idle.Settle.Grows.{SameTables}
use hc_framework_go.Idle.Settle.Limit.{IsCalm}

-- The two stores agree but for the lifetimes of counters.
pub record Unchanged (s u : Store) : Type 0 where
  pub tables : SameTables s u
  pub summary : u.daily ≡ s.daily
  pub heartbeats_are : u.heartbeats ≡ s.heartbeats
  pub members_are : u.members ≡ s.members
  pub cache_is : u.cached ≡ s.cached
  pub counted : (day user : ℕ) → value_of (u.counters day user) ≡ value_of (s.counters day user)

module _ (svc : IdleService) (env : SettleEnv) (r : IdleRecord) (is_completed : Bool) (s : Store)
    (c : Counter) (redis : has_l2 svc.cache ≡ true) (limited : ltb 0 svc.daily_points_limit ≡ true)
    (calm : IsCalm env) (kept : env.counter.release_fails ≡ false)
    (present : s.counters env.day r.user_id ≡ some c) where
  abbrev want : ℤ
  want = points_for svc env.now r

  abbrev limit : ℤ
  limit = pos svc.daily_points_limit

  abbrev reserved_key : Option Counter
  reserved_key = (try_acquire_script want limit (some c)).0

  abbrev granted : ℤ
  granted = (try_acquire_script want limit (some c)).1

  abbrev s1 : Store
  s1 = set_counter env.day r.user_id reserved_key s

  abbrev got : Bool → Option ℤ × Store
  got true = (none, set_counter env.day r.user_id (some c) s)
  got false = (some granted, s1)

-- The copy that the caller keeps, and the part of Redis and the cache that is left, where no points
-- are granted.
pub closed_for_nothing :
    (svc : IdleService) (env : SettleEnv) (r : IdleRecord) (is_completed : Bool) (s : Store)
    (points : ℤ)
    → (acquire svc env r s).0 ≡ some points
    → is_zero points ≡ true
    → (let out = settle_session svc env r is_completed s in
        (out.store.heartbeats ≡ s.heartbeats)
        × (out.store.members ≡ s.members)
        × (out.store.cached ≡ s.cached))
unfolding settle_session settle_granted close_for_nothing acquire set_counter
closed_for_nothing svc env r is_completed s points a z =
    (ground (arith, a, z), ground (arith, a, z), ground (arith, a, z))
