-- ===== src/Idle/Flusher.antt =====
-- Heartbeats that are kept in memory and written in batches: internal/service/idle/heartbeat_flusher.go
-- and `BatchUpdateHeartbeat` of internal/repository/idle_repo.go.
use hc_framework_go.Prelude.{
  ℕ, suc, ◌≡◌, Bool, true, ◌&&◌, Option, none, some, List, [], ◌∷◌, arith, ◌==◌, if◌then◌else◌,
  ==_refl,
}
use hc_framework_go.Idle.Session.{is_active, IdleRecord}

pub record HeartbeatPersistItem : Type 0 where
  pub user_id : ℕ
  pub device_id : ℕ
  pub ts : ℕ

abbrev is_item_of : ℕ → ℕ → HeartbeatPersistItem → Bool
is_item_of user device it = (it.user_id == user) && (it.device_id == device)

-- `f.pending[key] = item`
abbrev put : HeartbeatPersistItem → List HeartbeatPersistItem → List HeartbeatPersistItem
put item [] = item ∷ []
put item (x ∷ xs) =
    let rest = put item xs in
    if is_item_of item.user_id item.device_id x then item ∷ xs else x ∷ rest

-- `named` says that the user is not empty; a heartbeat with no user is left out.
unfoldable pub record_heartbeat :
    Bool → ℕ → ℕ → ℕ → List HeartbeatPersistItem → List HeartbeatPersistItem
record_heartbeat named user device ts pending =
    if named then put (record { user_id = user; device_id = device; ts = ts }) pending else pending

-- CASE WHEN ... THEN ts ELSE last_heartbeat_at END: the first item of the row's user and device.
unfoldable pub ts_of : List HeartbeatPersistItem → IdleRecord → Option ℕ
ts_of [] r = none
ts_of (it ∷ its) r =
    let rest = ts_of its r in if is_item_of r.user_id r.device_id it then some it.ts else rest

-- The rows behind the UPDATE, with the number of those that it changed.
unfoldable pub batch_update_heartbeat :
    List HeartbeatPersistItem → List IdleRecord → List IdleRecord × ℕ
unfolding ts_of
batch_update_heartbeat items [] = ([], 0)
batch_update_heartbeat items (r ∷ rs) =
    let (rest, n) = batch_update_heartbeat items rs in
    elim (ts_of items r) [
      | none ↦ (r ∷ rest, n)
      | some ts ↦
          if is_active r.status
          then (record r { last_heartbeat_at = some ts } ∷ rest, suc n)
          else (r ∷ rest, n)
    ]

-- The items are taken out before the write: where that fails they are gone.
unfoldable pub flush :
    Bool
    → List HeartbeatPersistItem
    → List IdleRecord
    → List HeartbeatPersistItem × List IdleRecord × Option ℕ
unfolding batch_update_heartbeat
flush fails [] rows = ([], rows, some 0)
flush fails (it ∷ its) rows =
    if fails
    then ([], rows, none)
    else (let (rows', n) = batch_update_heartbeat (it ∷ its) rows in ([], rows', some n))

matching : (user device : ℕ) → ((user == user) && (device == device)) ≡ true
matching user device = ground (arith, ==_refl user, ==_refl device)

-- The heartbeat that was recorded last is the one that the next batch writes to the session.
pub ts_of-record_heartbeat :
    (ts : ℕ) (pending : List HeartbeatPersistItem) (r : IdleRecord)
    → ts_of (record_heartbeat true r.user_id r.device_id ts pending) r ≡ some ts
unfolding record_heartbeat ts_of
ts_of-record_heartbeat ts [] r = ground (arith, matching r.user_id r.device_id)
ts_of-record_heartbeat ts (x ∷ xs) r =
    ground (arith, matching r.user_id r.device_id, ts_of-record_heartbeat ts xs r)
