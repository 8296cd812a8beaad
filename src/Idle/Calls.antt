-- ===== src/Idle/Calls.antt =====
-- Heartbeats and the calls that end sessions: `Heartbeat`, `Stop` and `StopDevice` of
-- internal/service/idle/idle_service.go.
use hc_framework_go.Prelude.{
  ok, err, Except, ℕ, Bool, true, false, ◌&&◌, not, Option, none, some, List, [], ◌∷◌,
  if◌then◌else◌,
}
use hc_framework_go.Shop.Counter.{has_l2}
use hc_framework_go.Idle.Session.{IdleRecord, Store}
use hc_framework_go.Idle.Settle.{IdleService, SettleEnv, Settled, settle_session}
use hc_framework_go.Idle.Devices.{
  Lookup, find_active_by_device, IdleError, not_idle, find_failed, touch_failed, settle_failed,
  touch_heartbeat,
}

pub record HeartbeatEnv : Type 0 where
  pub now : ℕ
  pub exists_fails : Bool
  pub look : Lookup
  pub touch_fails : Bool

abbrev pub touched :
    IdleService → Bool → HeartbeatEnv → ℕ → ℕ → Store → Except IdleError (Unit {0}) × Store
touched svc persist env user device s =
    if env.touch_fails
    then (err touch_failed, s)
    else (ok tt, touch_heartbeat svc persist false env.now user device s)

abbrev pub touched_if_found :
    IdleService
    → Bool
    → HeartbeatEnv
    → ℕ
    → ℕ
    → Option (Option IdleRecord) × Store
    → Except IdleError (Unit {0}) × Store
touched_if_found svc persist env user device (none, s) = (err find_failed, s)
touched_if_found svc persist env user device (some none, s) = (err not_idle, s)
touched_if_found svc persist env user device (some (some r), s) =
    touched svc persist env user device s

-- A heartbeat that is there is renewed with no look at the session.
unfoldable pub heartbeat :
    IdleService → Bool → HeartbeatEnv → ℕ → ℕ → Store → Except IdleError (Unit {0}) × Store
unfolding touch_heartbeat find_active_by_device
heartbeat svc persist env user device s =
    if has_l2 svc.cache && (s.heartbeats user device && not env.exists_fails)
    then touched svc persist env user device s
    else touched_if_found svc persist env user device
        (find_active_by_device svc env.look user device s)

-- `Stop` settles the sessions in turn and returns at the first error; the last copy is its answer.
unfoldable pub settle_each :
    IdleService
    → (ℕ → SettleEnv)
    → Except IdleError IdleRecord
    → List IdleRecord
    → Store
    → Except IdleError IdleRecord × Store
unfolding settle_session
settle_each svc envs answer [] s = (answer, s)
settle_each svc envs answer (r ∷ rs) s =
    let out = settle_session svc (envs r.id) r true s in
    let rest = settle_each svc envs (ok out.copy) rs out.store in
    elim out.result [ err e ↦ (err (settle_failed e), out.store) | ok applied ↦ rest ]

-- `sessions` is what `FindActiveAll` reads, `none` for an error.
unfoldable pub stop_all :
    IdleService
    → (ℕ → SettleEnv)
    → Option (List IdleRecord)
    → Store
    → Except IdleError IdleRecord × Store
unfolding settle_each
stop_all svc envs none s = (err find_failed, s)
stop_all svc envs (some rows) s = settle_each svc envs (err not_idle) rows s

abbrev pub copy_answer : Settled → Except IdleError IdleRecord × Store
copy_answer out = elim out.result [
  | err e ↦ (err (settle_failed e), out.store)
  | ok applied ↦ (ok out.copy, out.store)
]

abbrev pub stopped :
    IdleService
    → SettleEnv
    → Option (Option IdleRecord) × Store
    → Except IdleError IdleRecord × Store
stopped svc env (none, s) = (err find_failed, s)
stopped svc env (some none, s) = (err not_idle, s)
stopped svc env (some (some r), s) = copy_answer (settle_session svc env r true s)

unfoldable pub stop_device :
    IdleService → SettleEnv → Lookup → ℕ → ℕ → Store → Except IdleError IdleRecord × Store
unfolding find_active_by_device settle_session
stop_device svc env look user device s =
    stopped svc env (find_active_by_device svc look user device s)
