-- ===== src/Idle/Expiry.antt =====
-- Settlement on the expiry of a heartbeat: `handleHBExpired` and `BackfillActiveSessions` of
-- internal/service/idle/idle_service.go, with `DeleteHeartbeat` of internal/repository/idle_repo.go.
-- The key of the event is taken as parsed.
use hc_framework_go.Prelude.{
  ℕ, Bool, false, ◌&&◌, ◌||◌, not, Option, none, some, List, [], ◌∷◌, if◌then◌else◌, select,
}
use hc_framework_go.Shop.Counter.{has_l2}
use hc_framework_go.Idle.Session.{is_active, IdleRecord, Store, update_two}
use hc_framework_go.Idle.Settle.{IdleService, SettleEnv, settle_session}
use hc_framework_go.Idle.Devices.{
  Lookup, find_active_by_device, by_start, touch_heartbeat, add_active_session,
}
use hc_framework_go.Idle.Scan.{in_grace, remove_active_session}

unfoldable pub delete_heartbeat : IdleService → Bool → ℕ → ℕ → Store → Store
delete_heartbeat svc fails user device s =
    if has_l2 svc.cache && not fails
    then record s { heartbeats = update_two s.heartbeats user device false }
    else s

pub record ExpiryEnv : Type 0 where
  pub owns : Bool  -- `ownsSessionByShard`
  pub lock_fails : Bool
  pub lock_held : Bool
  pub look : Lookup
  pub now : ℕ
  pub settle : SettleEnv
  pub delete_fails : Bool
  pub remove_fails : Bool
  pub touch_fails : Bool

unfoldable pub expired_found :
    IdleService → Bool → ExpiryEnv → ℕ → ℕ → Option (Option IdleRecord) × Store → Store
unfolding delete_heartbeat remove_active_session touch_heartbeat settle_session
expired_found svc persist env user device (some (some r), s) =
    if in_grace svc env.now r
    then touch_heartbeat svc persist env.touch_fails env.now user device s
    else (settle_session svc env.settle r false s).store
expired_found svc persist env user device (_, s) =
    remove_active_session svc env.remove_fails user device
      (delete_heartbeat svc env.delete_fails user device s)

-- Without Redis the lock is always had.
unfoldable pub handle_hb_expired : IdleService → Bool → ExpiryEnv → Option (ℕ × ℕ) → Store → Store
unfolding find_active_by_device expired_found
handle_hb_expired svc persist env none s = s
handle_hb_expired svc persist env (some (user, device)) s =
    if not env.owns || (has_l2 svc.cache && (env.lock_fails || env.lock_held))
    then s
    else expired_found svc persist env user device
        (find_active_by_device svc env.look user device s)

abbrev add_each : IdleService → (ℕ → Bool) → List IdleRecord → Store → Store
add_each svc fails [] s = s
add_each svc fails (r ∷ rs) s =
    add_each svc fails rs (add_active_session svc (fails r.id) r.user_id r.device_id s)

-- `replica` is what the query reads, `none` for an error; an insert may fail by the session's key.
unfoldable pub backfill_active_sessions :
    IdleService → (ℕ → Bool) → Option (List IdleRecord) → Store → Store
unfolding add_active_session by_start
backfill_active_sessions svc fails none s = s
backfill_active_sessions svc fails (some replica) s =
    if has_l2 svc.cache
    then add_each svc fails (by_start (select (λ r. is_active r.status) replica)) s
    else s
