-- ===== src/Idle/Stale.antt =====
-- What is left in the cache by a settlement that grants nothing: `StopDevice`, `Start` and
-- `Heartbeat` of internal/service/idle/idle_service.go.
use hc_framework_go.Prelude.{ok, ℕ, ◌≡◌, refl, Bool, true, Option, some, arith, ℤ}
use hc_framework_go.Shop.Counter.{has_l2}
use hc_framework_go.Idle.Session.{IdleRecord, Store}
use hc_framework_go.Idle.Settle.{IdleService, SettleEnv, Settled, acquire, is_zero, settle_session}
use hc_framework_go.Idle.Settle.Answers.{closed_for_nothing}
use hc_framework_go.Idle.Devices.{Lookup, find_active_by_device, StartEnv, start}
use hc_framework_go.Idle.Calls.{stop_device, copy_answer}

found_in_cache :
    (svc : IdleService) (look : Lookup) (user device : ℕ) (s : Store) (v : Option IdleRecord)
    → has_l2 svc.cache ≡ true
    → s.cached user device ≡ some v
    → find_active_by_device svc look user device s ≡ (some v, s)
unfolding find_active_by_device
found_in_cache svc look user device s v redis c = ground (arith, redis, c)

copy_answer-store : (out : Settled) → (copy_answer out).1 ≡ out.store
copy_answer-store out = ground arith

stop-store :
    (svc : IdleService) (env : SettleEnv) (look : Lookup) (user device : ℕ) (s : Store)
    (r : IdleRecord)
    → has_l2 svc.cache ≡ true
    → s.cached user device ≡ some (some r)
    → (stop_device svc env look user device s).1 ≡ (settle_session svc env r true s).store
unfolding stop_device
stop-store svc env look user device s r redis c =
    rw (found_in_cache svc look user device s (some r) redis c)
      (copy_answer-store (settle_session svc env r true s))

-- With Redis, where the cache holds the session of a device and a stop of the device grants no
-- points, as when the daily limit is used up: a start that follows answers that same session and
-- changes nothing, whatever the tables then say of it.
pub start-stopped :
    (svc : IdleService) (persist : Bool) (env : SettleEnv) (later : StartEnv) (look : Lookup)
    (user device : ℕ) (s : Store) (r : IdleRecord) (points : ℤ)
    → has_l2 svc.cache ≡ true
    → s.cached user device ≡ some (some r)
    → (acquire svc env r s).0 ≡ some points
    → is_zero points ≡ true
    → (let s' = (stop_device svc env look user device s).1 in
        start svc persist later user device s' ≡ (ok r, s'))
unfolding start
start-stopped svc persist env later look user device s r points redis c a z =
    let s' = (stop_device svc env look user device s).1 in
    let same = closed_for_nothing svc env r true s points a z in
    let e = stop-store svc env look user device s r redis c in
    let still : s'.cached user device ≡ some (some r) = rw (e, same.2) c in
    rw (found_in_cache svc later.first user device s' (some r) redis still) refl
