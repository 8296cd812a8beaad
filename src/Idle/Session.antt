-- ===== src/Idle/Session.antt =====
-- The rows of idle sessions, what Redis and the cache keep of them, and the statements on them:
-- internal/model/idle.go and internal/repository/idle_repo.go.
-- User and device ids are numbers, since they are only compared, and times are seconds.
use hc_framework_go.Prelude.{
  ℕ, suc, ltb, Bool, true, false, ◌&&◌, Option, none, some, List, [], ◌∷◌, ◌==◌, if◌then◌else◌, ℤ,
  ◌+ℤ◌, ltb_ℤ, pos, find?, update,
}
use hc_framework_go.Shop.Model.{PointsTransaction, PointsOutbox}

pub data SessionStatus : Type 0 where
  active completed timed_out : SessionStatus

abbrev pub is_active : SessionStatus → Bool
is_active active = true
is_active _ = false

pub record IdleRecord : Type 0 where
  pub id : ℕ
  pub user_id : ℕ
  pub device_id : ℕ
  pub start_time : ℕ
  pub end_time : Option ℕ
  pub last_heartbeat_at : Option ℕ
  pub duration_seconds : ℤ
  pub points_earned : ℤ
  pub status : SessionStatus

-- The points of a user on a day, counted from some day on.
pub record IdleDailyPoints : Type 0 where
  pub user_id : ℕ
  pub day : ℕ
  pub total : ℤ

-- The Redis counter of a user's points of a day; `expires` says that it has a time to live.
pub record Counter : Type 0 where
  pub value : ℤ
  pub expires : Bool

-- The tables with the next key of the sessions, the counters by day and user, and what Redis and the
-- cache hold by user and device: the heartbeat, the place in the active set and the cached session.
pub record Store : Type 0 where
  pub records : List IdleRecord
  pub next_record : ℕ
  pub daily : List IdleDailyPoints
  pub transactions : List PointsTransaction
  pub outbox : List PointsOutbox
  pub counters : ℕ → ℕ → Option Counter
  pub heartbeats : ℕ → ℕ → Bool
  pub members : ℕ → ℕ → Bool
  pub cached : ℕ → ℕ → Option (Option IdleRecord)

-- A table by two keys, changed at one pair.
abbrev pub update_two {ℓ} : {A : Type ℓ} → (ℕ → ℕ → A) → ℕ → ℕ → A → ℕ → ℕ → A
update_two f i j v = update f i (update (f i) j v)

-- UPDATE idle_records SET ... WHERE id = ? AND status = 'active', with the number of rows changed.
unfoldable pub set_settled : ℕ → SessionStatus → ℕ → ℤ → ℤ → List IdleRecord → List IdleRecord × ℕ
set_settled id status end_time duration points [] = ([], 0)
set_settled id status end_time duration points (r ∷ rs) =
    let (rest, n) = set_settled id status end_time duration points rs in
    if (r.id == id) && is_active r.status
    then (
      record r {
        end_time = some end_time;
        duration_seconds = duration;
        points_earned = points;
        status = status;
      }
          ∷ rest,
      suc n,
    )
    else (r ∷ rest, n)

unfoldable pub mark_settled :
    ℕ → SessionStatus → ℕ → ℤ → ℤ → List IdleRecord → List IdleRecord × Bool
unfolding set_settled
mark_settled id status end_time duration points rows =
    let (rows', n) = set_settled id status end_time duration points rows in (rows', ltb 0 n)

abbrev pub is_session_of : ℕ → ℕ → IdleRecord → Bool
is_session_of user device r = (r.user_id == user) && ((r.device_id == device) && is_active r.status)

-- WHERE user_id = ? AND device_id = ? AND status = 'active', the first by key.
unfoldable pub find_one_by : ℕ → ℕ → List IdleRecord → Option IdleRecord
find_one_by user device = find? (is_session_of user device)

-- INSERT ... ON CONFLICT DO NOTHING under the unique index on the active sessions of a device; the
-- number is the new key, 0 where there was a conflict.
unfoldable pub insert_record : IdleRecord → Store → Store × ℕ
unfolding find_one_by
insert_record r s = elim (find_one_by r.user_id r.device_id s.records) [
  | some other ↦ (s, 0)
  | none ↦ (
    record s {
      records = record r { id = s.next_record } ∷ s.records;
      next_record = suc s.next_record;
    },
    s.next_record,
  )
]

-- INSERT ... ON CONFLICT (user_id, day) DO UPDATE SET total = total + ?
unfoldable pub add_daily : ℕ → ℕ → ℤ → List IdleDailyPoints → List IdleDailyPoints
add_daily user day delta [] = record { user_id = user; day = day; total = delta } ∷ []
add_daily user day delta (r ∷ rs) =
    let rest = add_daily user day delta rs in
    if (r.user_id == user) && (r.day == day)
    then record r { total = r.total +ℤ delta } ∷ rs
    else r ∷ rest

unfoldable pub upsert_daily_points : ℕ → ℕ → ℤ → List IdleDailyPoints → List IdleDailyPoints
unfolding add_daily
upsert_daily_points user day delta rows =
    if ltb_ℤ (pos 0) delta then add_daily user day delta rows else rows

-- The session that `Start` inserts, with the time of the first heartbeat.
unfoldable pub new_session : ℕ → ℕ → ℕ → IdleRecord
new_session user device now = record {
  id = 0;
  user_id = user;
  device_id = device;
  start_time = now;
  end_time = none;
  last_heartbeat_at = some now;
  duration_seconds = pos 0;
  points_earned = pos 0;
  status = active;
}
