-- ===== src/Idle/Devices.antt =====
-- The calls of a user's devices: `Start`, `evictOldestIfFull`, `Heartbeat`, `Stop` and `StopDevice`
-- of internal/service/idle/idle_service.go, over `FindActiveByDevice`, `FindActiveAll`, `Create`,
-- `TouchHeartbeat` and `AddActiveSession` of internal/repository/idle_repo.go. Tracing, logs and the
-- in-memory list of heartbeats to flush are left out.
use hc_framework_go.Prelude.{
  ok, err, Except, ℕ, Bool, true, ◌&&◌, not, Option, none, some, List, [], ◌∷◌, ltb, leb, ◌==◌,
  if◌then◌else◌, length, select,
}
use hc_framework_go.Shop.Counter.{has_l2, no_manager}
use hc_framework_go.Idle.Session.{
  is_active, IdleRecord, Store, update_two, is_session_of, find_one_by, insert_record, new_session,
}
use hc_framework_go.Idle.Settle.{
  IdleService, SettleEnv, SettleError, Settled, settle_session, invalidate,
}

-- A read of the session of a device: whether the load fails, whether what is loaded reaches the
-- cache, and what the replica holds.
pub record Lookup : Type 0 where
  pub fails : Bool
  pub fills : Bool
  pub replica : List IdleRecord

-- The load behind the cache, `none` for an error.
unfoldable pub load_active : Lookup → ℕ → ℕ → Option (Option IdleRecord)
unfolding find_one_by
load_active look user device =
    if look.fails then none else some (find_one_by user device look.replica)

abbrev fill : Bool → ℕ → ℕ → Option (Option IdleRecord) → Store → Store
fill fills user device none s = s
fill fills user device (some v) s =
    if fills then record s { cached = update_two s.cached user device (some v) } else s

unfoldable pub find_active_by_device :
    IdleService → Lookup → ℕ → ℕ → Store → Option (Option IdleRecord) × Store
unfolding load_active
find_active_by_device svc look user device s = elim svc.cache [
  | no_manager ↦ (load_active look user device, s)
  | _ ↦ elim (s.cached user device) [
    | some v ↦ (some v, s)
    | none ↦
        (load_active look user device, fill look.fills user device (load_active look user device) s)
  ]
]

-- ORDER BY start_time ASC
unfoldable pub place : IdleRecord → List IdleRecord → List IdleRecord
place r [] = r ∷ []
place r (x ∷ xs) =
    let rest = place r xs in if leb r.start_time x.start_time then r ∷ x ∷ xs else x ∷ rest

unfoldable pub by_start : List IdleRecord → List IdleRecord
unfolding place
by_start [] = []
by_start (x ∷ xs) = place x (by_start xs)

abbrev pub is_active_of : ℕ → IdleRecord → Bool
is_active_of user r = (r.user_id == user) && is_active r.status

unfoldable pub find_active_all : ℕ → List IdleRecord → List IdleRecord
unfolding by_start
find_active_all user rows = by_start (select (is_active_of user) rows)

pub data IdleError : Type 0 where
  not_idle check_failed find_failed create_failed touch_failed : IdleError
  settle_failed : SettleError → IdleError

unfoldable pub max_devices : IdleService → ℕ
max_devices svc = if leb svc.max_devices 0 then 1 else svc.max_devices

-- The active sessions of a user as read, `none` for an error, and the environment of the settlement.
pub record EvictEnv : Type 0 where
  pub sessions : Option (List IdleRecord)
  pub settle : SettleEnv

abbrev pub settled_or : Settled → Except IdleError (Unit {0}) × Store
settled_or out = elim out.result [
  | err e ↦ (err (settle_failed e), out.store)
  | ok applied ↦ (ok tt, out.store)
]

abbrev pub evict_first :
    IdleService → SettleEnv → List IdleRecord → Store → Except IdleError (Unit {0}) × Store
evict_first svc env [] s = (ok tt, s)
evict_first svc env (r ∷ rs) s = settled_or (settle_session svc env r true s)

unfoldable pub evict_oldest_if_full :
    IdleService → EvictEnv → Store → Except IdleError (Unit {0}) × Store
unfolding settle_session max_devices
evict_oldest_if_full svc env s = elim env.sessions [
  | none ↦ (err find_failed, s)
  | some rows ↦
      if ltb (length rows) (max_devices svc) then (ok tt, s) else evict_first svc env.settle rows s
]

pub record StartEnv : Type 0 where
  pub now : ℕ
  pub first : Lookup
  pub evict : EvictEnv
  pub create_fails : Bool
  pub invalidate_fails : Bool
  pub again : Lookup
  pub touch_fails : Bool
  pub add_fails : Bool

-- The insert, which fails, meets an active session of the device (the key stays 0), or adds a row.
unfoldable pub create : IdleService → StartEnv → IdleRecord → Store → Option ℕ × Store
unfolding insert_record invalidate
create svc env r s = if env.create_fails then (none, s) else (
  some (insert_record r s).1,
  invalidate svc env.invalidate_fails r.user_id r.device_id (insert_record r s).0,
)

-- SETEX of the heartbeat. With no Redis a database field is set instead, which `last_heartbeat`
-- stands for.
unfoldable pub last_heartbeat : ℕ → ℕ → ℕ → List IdleRecord → List IdleRecord
last_heartbeat now user device [] = []
last_heartbeat now user device (r ∷ rs) =
    (if is_session_of user device r then record r { last_heartbeat_at = some now } else r)
    ∷ last_heartbeat now user device rs

-- `persist` says that heartbeats are flushed in the background.
unfoldable pub touch_heartbeat : IdleService → Bool → Bool → ℕ → ℕ → ℕ → Store → Store
unfolding last_heartbeat
touch_heartbeat svc persist fails now user device s =
    if fails
    then s
    else if has_l2 svc.cache
    then record s { heartbeats = update_two s.heartbeats user device true }
    else if persist
    then s
    else record s { records = last_heartbeat now user device s.records }

unfoldable pub add_active_session : IdleService → Bool → ℕ → ℕ → Store → Store
add_active_session svc fails user device s =
    if has_l2 svc.cache && not fails
    then record s { members = update_two s.members user device true }
    else s

-- The first heartbeat and the place in the active set.
unfoldable pub register : IdleService → Bool → StartEnv → ℕ → ℕ → Store → Store
unfolding touch_heartbeat add_active_session
register svc persist env user device s =
    add_active_session svc env.add_fails user device
      (touch_heartbeat svc persist env.touch_fails env.now user device s)

abbrev key_or_zero : Option ℕ → ℕ
key_or_zero none = 0
key_or_zero (some id) = id

abbrev refound : Option (Option IdleRecord) → Except IdleError IdleRecord
refound (some (some r)) = ok r
refound _ = err create_failed

-- The session that is answered behind the insert: the new row, or else the one that is there.
unfoldable pub created :
    IdleService → StartEnv → IdleRecord → Option ℕ × Store → Except IdleError IdleRecord × Store
unfolding find_active_by_device
created svc env r (key, s) =
    if ltb 0 (key_or_zero key)
    then (ok (record r { id = key_or_zero key }), s)
    else (let (found, s') = find_active_by_device svc env.again r.user_id r.device_id s in
        (refound found, s'))

abbrev pub registered :
    IdleService → Bool → StartEnv → ℕ → ℕ → Except IdleError IdleRecord → Store → Store
registered svc persist env user device (err e) s = s
registered svc persist env user device (ok r) s = register svc persist env user device s

unfoldable pub open_session :
    IdleService → Bool → StartEnv → ℕ → ℕ → Store → Except IdleError IdleRecord × Store
unfolding new_session create created register
open_session svc persist env user device s =
    let (answer, s') =
      created svc env (new_session user device env.now)
        (create svc env (new_session user device env.now) s) in
    (answer, registered svc persist env user device answer s')

abbrev pub opened_behind :
    IdleService
    → Bool
    → StartEnv
    → ℕ
    → ℕ
    → Except IdleError (Unit {0}) × Store
    → Except IdleError IdleRecord × Store
opened_behind svc persist env user device (err e, s) = (err e, s)
opened_behind svc persist env user device (ok u, s) = open_session svc persist env user device s

abbrev pub started :
    IdleService
    → Bool
    → StartEnv
    → ℕ
    → ℕ
    → Option (Option IdleRecord) × Store
    → Except IdleError IdleRecord × Store
started svc persist env user device (none, s) = (err check_failed, s)
started svc persist env user device (some (some r), s) = (ok r, s)
started svc persist env user device (some none, s) =
    opened_behind svc persist env user device (evict_oldest_if_full svc env.evict s)

unfoldable pub start :
    IdleService → Bool → StartEnv → ℕ → ℕ → Store → Except IdleError IdleRecord × Store
unfolding find_active_by_device evict_oldest_if_full open_session
start svc persist env user device s =
    started svc persist env user device (find_active_by_device svc env.first user device s)
