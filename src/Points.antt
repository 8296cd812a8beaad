-- ===== src/Points.antt =====
-- The points outbox: internal/service/common/points_outbox.go,
-- internal/repository/points_outbox_repo.go and `UpdatePoints` of internal/repository/user_repo.go.
-- Every call on a database is one step of a worker, so that any number of workers may interleave.
pub mod Claims
pub mod Once
pub mod Balance
pub mod Stuck
pub mod Apply
pub mod Relay
pub mod Runs
mod Tests
use hc_framework_go.Prelude.{
  ℕ, suc, ◌+◌, ◌-◌, Bool, true, false, ◌&&◌, not, Option, none, some, List, [], ◌∷◌, ◌++◌, ltb, leb,
  ◌==◌, if◌then◌else◌, ◌≡◌, ℤ, pos, negsuc, update, take, select,
}
use hc_framework_go.Shop.Model.{
  PointsOutbox, EventId, pts_redeem, pts_flash, pts_idle, pts_task, OutboxStatus, pending,
  processing, done,
}

-- Equality of the event ids, which are strings in the tables.
abbrev pub same_event : EventId → EventId → Bool
same_event (pts_redeem a) (pts_redeem b) = a == b
same_event (pts_flash a) (pts_flash b) = a == b
same_event (pts_idle a) (pts_idle b) = a == b
same_event (pts_task a b c) (pts_task d e f) = (a == d) && ((b == e) && (c == f))
same_event _ _ = false

abbrev pub is_pending : OutboxStatus → Bool
is_pending pending = true
is_pending _ = false

abbrev pub is_processing : OutboxStatus → Bool
is_processing processing = true
is_processing _ = false

-- UPDATE points_outbox SET status = to WHERE event_id = ? AND status = from, with the number of rows
-- it changed.
unfoldable pub set_status :
    (OutboxStatus → Bool) → OutboxStatus → EventId → List PointsOutbox → List PointsOutbox × ℕ
set_status from to event [] = ([], 0)
set_status from to event (r ∷ rs) =
    let (rest, n) = set_status from to event rs in
    if same_event r.event_id event && from r.status
    then (record r { status = to } ∷ rest, suc n)
    else (r ∷ rest, n)

unfoldable pub claim : EventId → List PointsOutbox → List PointsOutbox × Bool
unfolding set_status
claim event rows = let (rows', n) = set_status is_pending processing event rows in (rows', n == 1)

unfoldable pub mark_done : EventId → List PointsOutbox → List PointsOutbox
unfolding set_status
mark_done event rows = (set_status is_processing done event rows).0

unfoldable pub requeue : EventId → List PointsOutbox → List PointsOutbox
unfolding set_status
requeue event rows = (set_status is_processing pending event rows).0

-- The balance of a user, `none` where there is no such user.
abbrev pub Users : Type 0
Users = ℕ → Option ℕ

-- `points_balance >= -amount`, then `points_balance + amount`.
abbrev pub add_amount : ℤ → ℕ → Option ℕ
add_amount (pos a) balance = some (balance + a)
add_amount (negsuc a) balance = if leb (suc a) balance then some (balance - suc a) else none

abbrev pub set_balance : Users → ℕ → Option ℕ → Option Users
set_balance users user none = none
set_balance users user (some b) = some (update users user (some b))

-- `none` where no row was changed: no such user, or a balance that does not cover the amount.
unfoldable pub update_points : ℕ → ℤ → Users → Option Users
update_points user amount users = elim (users user) [
  | none ↦ none
  | some balance ↦ set_balance users user (add_amount amount balance)
]

-- Where a worker stands in `tryApply`: the call it makes next.
pub data Stage : Type 0 where
  claiming updating requeueing marking : Stage

pub record Worker : Type 0 where
  pub event : EventId
  pub user : ℕ
  pub delta : ℤ
  pub stage : Stage

-- How a call ends: answered; with an error and no effect; with an error although it took effect, as
-- when the answer is lost; or the process dies in front of it.
pub data Reply : Type 0 where
  answered refused lost died : Reply

-- The databases, and the adjustments made so far, which no table keeps.
pub record Tables : Type 0 where
  pub outbox : List PointsOutbox
  pub users : Users
  pub applied : List Worker

abbrev pub finish : Tables → Tables × Option Worker
finish t = (t, none)

abbrev pub go_on : Tables → Worker → Stage → Tables × Option Worker
go_on t w next = (t, some (record w { stage = next }))

-- UpdatePoints has answered or its answer was lost: `next` follows a change, requeueing none.
unfoldable pub after_update : Tables → Worker → Stage → Option Users → Tables × Option Worker
after_update t w next none = go_on t w requeueing
after_update t w next (some users') =
    go_on (record t { users = users'; applied = w ∷ t.applied }) w next

-- One call of `tryApply`; `none` when the worker has returned.
unfoldable pub act : Stage → Reply → Tables → Worker → Tables × Option Worker
unfolding claim mark_done requeue update_points after_update
act stage died t w = finish t
act claiming answered t w =
    let (rows, claimed) = claim w.event t.outbox in
    let t' = record t { outbox = rows } in if claimed then go_on t' w updating else finish t'
act claiming lost t w = finish (record t { outbox = (claim w.event t.outbox).0 })
act claiming refused t w = finish t
act updating answered t w = after_update t w marking (update_points w.user w.delta t.users)
act updating lost t w = after_update t w requeueing (update_points w.user w.delta t.users)
act updating refused t w = go_on t w requeueing
act requeueing refused t w = finish t
act requeueing _ t w = finish (record t { outbox = requeue w.event t.outbox })
act marking refused t w = finish t
act marking _ t w = finish (record t { outbox = mark_done w.event t.outbox })

pub record World : Type 0 where
  pub tables : Tables
  pub workers : List Worker

abbrev pub to_list {ℓ} : {A : Type ℓ} → Option A → List A
to_list none = []
to_list (some a) = a ∷ []

abbrev pub new_row : EventId → ℕ → ℤ → ℕ → PointsOutbox
new_row event user delta now = record {
  user_id = user;
  delta = delta;
  event_id = event;
  status = pending;
  created_at = now;
}

unfoldable pub rows_of : EventId → List PointsOutbox → List PointsOutbox
rows_of event = select (λ r. same_event r.event_id event)

-- A step of the system: a business transaction appends a row, which the unique index on the event id
-- allows once; `ApplyAsync`, a consumer or the relay starts a worker; or a worker makes its next
-- call, which ends in a way that `can_be` allows.
pub data Step (can_be : Stage → Reply → Bool) : World → World → Type 0 where
  appended :
      (t : Tables) (ws : List Worker) (event : EventId) (user : ℕ) (delta : ℤ) (now : ℕ)
      → rows_of event t.outbox ≡ []
      → Step can_be
          (record { tables = t; workers = ws })
          (record {
            tables = record t { outbox = new_row event user delta now ∷ t.outbox };
            workers = ws;
          })
  started :
      (t : Tables) (ws : List Worker) (event : EventId) (user : ℕ) (delta : ℤ)
      → Step can_be
          (record { tables = t; workers = ws })
          (record {
            tables = t;
            workers = record { event = event; user = user; delta = delta; stage = claiming } ∷ ws;
          })
  moved :
      (t : Tables) (before after : List Worker) (w : Worker) (reply : Reply)
      → can_be w.stage reply ≡ true
      → Step can_be
          (record { tables = t; workers = before ++ w ∷ after })
          (record {
            tables = (act w.stage reply t w).0;
            workers = before ++ (to_list (act w.stage reply t w).1 ++ after);
          })

pub data Steps (can_be : Stage → Reply → Bool) : World → World → Type 0 where
  stop : (s : World) → Steps can_be s s
  step : {s u v : World} → Step can_be s u → Steps can_be u v → Steps can_be s v
