-- ===== src/Idle/Settle.antt =====
-- The settlement of an idle session: `settleSession` and `finalizeSettlement` of
-- internal/service/idle/idle_service.go. It is cut at its calls on the counter and the databases, so
-- that the runs of several processes may interleave there; `settle_session` is a run with nobody in
-- between. What follows the answer in the background (the first try of the outbox, the event) is left
-- out: the outbox has its own module.
pub mod Steps
pub mod Ledger
pub mod Grows
pub mod History
pub mod Limit
pub mod Budget
pub mod Effective
pub mod Answers
pub mod Tests
use hc_framework_go.Prelude.{
  ok, err, Except, ◌>>=◌, ◌>>◌, refuse, ℕ, ◌+◌, ◌-◌, ◌*◌, ◌/◌, max, Bool, true, false, ◌&&◌, ◌||◌,
  not, Option, none, some, List, [], ◌∷◌, ltb, if◌then◌else◌, ℤ, pos, negsuc, ◌-ℤ◌, ltb_ℤ, to_int64,
}
use hc_framework_go.Shop.Model.{
  PointsTransaction, PointsOutbox, idle_reward, idle_ref, pts_idle, pending,
}
use hc_framework_go.Shop.Counter.{CacheMode, has_l2, no_manager, no_l2, with_l2}
use hc_framework_go.Idle.Session.{
  SessionStatus, active, completed, timed_out, IdleRecord, Counter, Store, update_two, mark_settled,
  upsert_daily_points,
}
use hc_framework_go.Idle.Daily.{
  CounterEnv, acquire_daily_points, release_daily_points, try_acquire_daily_points, is_limited,
}

-- The configuration, where a limit of 0 or below is 0, and what the service was made with.
pub record IdleService : Type 0 where
  pub points_per_minute : ℕ
  pub daily_points_limit : ℕ
  pub max_devices : ℕ
  pub grace : ℕ  -- twice the heartbeat interval
  pub scan_max_settle_per_cycle : ℕ
  pub cache : CacheMode
  pub points_on : Bool  -- `s.points != nil`

-- How a commit ends; `unknown` is an error although it took effect, as when the answer is lost.
pub data Commit : Type 0 where
  commits rolls_back unknown : Commit

pub record SettleEnv : Type 0 where
  pub now : ℕ
  pub day : ℕ  -- the local day when the points are acquired
  pub later_day : ℕ  -- the local day behind the transaction
  pub counter : CounterEnv
  pub mark_fails : Bool
  pub ledger_fails : Bool
  pub append_fails : Bool
  pub commit : Commit
  pub upsert_fails : Bool
  pub invalidate_fails : Bool
  pub delete_fails : Bool
  pub remove_fails : Bool

pub data SettleError : Type 0 where
  acquire_failed mark_failed ledger_failed append_failed commit_failed : SettleError

-- Whole minutes, one at least; a clock that has gone back counts as one.
abbrev pub minutes_of : ℤ → ℕ
minutes_of (pos n) = max (n / 60) 1
minutes_of (negsuc n) = 1

unfoldable pub elapsed : ℕ → IdleRecord → ℤ
elapsed now r = pos now -ℤ pos r.start_time

-- int64 product.
unfoldable pub points_for : IdleService → ℕ → IdleRecord → ℤ
unfolding elapsed
points_for svc now r = to_int64 (minutes_of (elapsed now r) * svc.points_per_minute)

abbrev pub status_of : Bool → SessionStatus
status_of true = completed
status_of false = timed_out

unfoldable pub set_counter : ℕ → ℕ → Option Counter → Store → Store
set_counter day user c s = record s { counters = update_two s.counters day user c }

-- The reservation by the script alone, the last of its calls, which the runs of other settlements may
-- part from those before.
unfoldable pub reserve : IdleService → SettleEnv → IdleRecord → Store → Option ℤ × Store
unfolding try_acquire_daily_points points_for set_counter
reserve svc env r s =
    let (granted, c) =
      try_acquire_daily_points env.counter.script_fails (points_for svc env.now r)
        svc.daily_points_limit (s.counters env.day r.user_id) in
    if is_limited svc.cache svc.daily_points_limit
    then (granted, set_counter env.day r.user_id c s)
    else (some (points_for svc env.now r), s)

-- The reservation with nobody in between: the points granted, `none` for an error.
unfoldable pub acquire : IdleService → SettleEnv → IdleRecord → Store → Option ℤ × Store
unfolding acquire_daily_points points_for set_counter
acquire svc env r s =
    let (granted, c) =
      acquire_daily_points svc.cache env.counter r.user_id env.day (points_for svc env.now r)
        svc.daily_points_limit (s.counters env.day r.user_id) in
    (granted, set_counter env.day r.user_id c s)

unfoldable pub mark : SettleEnv → IdleRecord → Bool → ℤ → List IdleRecord → List IdleRecord × Bool
unfolding mark_settled elapsed
mark env r is_completed points rows =
    mark_settled r.id (status_of is_completed) env.now (elapsed env.now r) points rows

-- `balance_after` is left at its zero value.
unfoldable pub reward_row : IdleRecord → ℤ → PointsTransaction
reward_row r points = record {
  user_id = r.user_id;
  change_amount = points;
  balance_after = pos 0;
  change_type = idle_reward;
  reference_id = idle_ref r.id;
}

unfoldable pub reward_event : SettleEnv → IdleRecord → ℤ → PointsOutbox
reward_event env r points = record {
  user_id = r.user_id;
  delta = points;
  event_id = pts_idle r.id;
  status = pending;
  created_at = env.now;
}

unfoldable pub add_reward :
    IdleService → SettleEnv → IdleRecord → ℤ → List IdleRecord → Store → Store
unfolding reward_row reward_event
add_reward svc env r points rows s = record s {
  records = rows;
  transactions = reward_row r points ∷ s.transactions;
  outbox = if svc.points_on then reward_event env r points ∷ s.outbox else s.outbox;
}

-- The statements of the transaction, with whether the session was still active.
unfoldable pub settle_statements :
    IdleService → SettleEnv → IdleRecord → Bool → ℤ → Store → Except SettleError (Store × Bool)
unfolding mark add_reward
settle_statements svc env r is_completed points s = do
  refuse env.mark_fails mark_failed
  if (mark env r is_completed points s.records).1 then rewarded else ok (s, false)
  where
    rewarded : Except SettleError (Store × Bool)
    rewarded = do
      refuse env.ledger_fails ledger_failed
      refuse (svc.points_on && env.append_fails) append_failed
      ok (add_reward svc env r points (mark env r is_completed points s.records).0 s, true)

-- What the tables are after the commit and what the caller is told.
abbrev pub commit_of :
    Commit → Store → Except SettleError (Store × Bool) → Store × Except SettleError Bool
commit_of c s (err e) = (s, err e)
commit_of commits s (ok (s', applied)) = (s', ok applied)
commit_of rolls_back s (ok (s', applied)) = (s, err commit_failed)
commit_of unknown s (ok (s', applied)) = (s', err commit_failed)

unfoldable pub settle_tx :
    IdleService → SettleEnv → IdleRecord → Bool → ℤ → Store → Store × Except SettleError Bool
unfolding settle_statements
settle_tx svc env r is_completed points s =
    commit_of env.commit s (settle_statements svc env r is_completed points s)

unfoldable pub release : IdleService → SettleEnv → IdleRecord → ℤ → Store → Store
unfolding release_daily_points set_counter
release svc env r points s =
    set_counter env.later_day r.user_id
      (release_daily_points svc.cache env.counter points (s.counters env.later_day r.user_id)) s

-- The device's key of the cache; nothing happens with no manager, nor where the call fails.
unfoldable pub invalidate : IdleService → Bool → ℕ → ℕ → Store → Store
invalidate svc fails user device s = elim svc.cache [
  | no_manager ↦ s
  | _ ↦ if fails then s else record s { cached = update_two s.cached user device none }
]

-- What `finalizeSettlement` does to Redis and to the cache.
unfoldable pub finalize : IdleService → SettleEnv → IdleRecord → Store → Store
unfolding invalidate
finalize svc env r s =
    let s' = invalidate svc env.invalidate_fails r.user_id r.device_id s in
    record s' {
      heartbeats =
          if has_l2 svc.cache && not env.delete_fails
          then update_two s'.heartbeats r.user_id r.device_id false
          else s'.heartbeats;
      members =
          if has_l2 svc.cache && not env.remove_fails
          then update_two s'.members r.user_id r.device_id false
          else s'.members;
    }

unfoldable pub add_to_summary : SettleEnv → IdleRecord → ℤ → Store → Store
unfolding upsert_daily_points
add_to_summary env r points s =
    if env.upsert_fails
    then s
    else record s { daily = upsert_daily_points r.user_id env.later_day points s.daily }

-- What follows the transaction.
unfoldable pub after_tx :
    IdleService → SettleEnv → IdleRecord → ℤ → Except SettleError Bool → Store → Store
unfolding release finalize add_to_summary
after_tx svc env r points (err e) s = release svc env r points s
after_tx svc env r points (ok false) s = release svc env r points s
after_tx svc env r points (ok true) s = finalize svc env r (add_to_summary env r points s)

-- The fields that the caller's copy of the session gets.
unfoldable pub settled_copy : SettleEnv → Bool → ℤ → IdleRecord → IdleRecord
unfolding elapsed
settled_copy env is_completed points r = record r {
  status = status_of is_completed;
  end_time = some env.now;
  duration_seconds = elapsed env.now r;
  points_earned = points;
}

-- A run of `settleSession`: its answer, the caller's copy and what it leaves.
pub record Settled : Type 0 where
  pub result : Except SettleError Bool
  pub copy : IdleRecord
  pub store : Store

abbrev copy_of : SettleEnv → Bool → ℤ → IdleRecord → Except SettleError Bool → IdleRecord
copy_of env is_completed points r (err e) = r
copy_of env is_completed points r (ok applied) = settled_copy env is_completed points r

-- The session is closed with no points and outside a transaction.
unfoldable pub close_for_nothing :
    SettleEnv → IdleRecord → Bool → Store → Store × Except SettleError Bool
unfolding mark
close_for_nothing env r is_completed s = if env.mark_fails then (s, err mark_failed) else (
  record s { records = (mark env r is_completed (pos 0) s.records).0 },
  ok (mark env r is_completed (pos 0) s.records).1,
)

abbrev pub is_zero : ℤ → Bool
is_zero (pos n) = not (ltb 0 n)
is_zero (negsuc n) = false

unfoldable pub settle_granted :
    IdleService → SettleEnv → IdleRecord → Bool → Option ℤ × Store → Settled
unfolding close_for_nothing settle_tx after_tx settled_copy
settle_granted svc env r is_completed (none, s) = record {
  result = err acquire_failed;
  copy = r;
  store = s;
}
settle_granted svc env r is_completed (some points, s) = if is_zero points then closed else paid
  where
    closed : Settled
    closed =
        let (s', answer) = close_for_nothing env r is_completed s in
        record { result = answer; copy = copy_of env is_completed points r answer; store = s' }

    paid : Settled
    paid =
        let (s', answer) = settle_tx svc env r is_completed points s in
        record {
          result = answer;
          copy = copy_of env is_completed points r answer;
          store = after_tx svc env r points answer s';
        }

unfoldable pub settle_session : IdleService → SettleEnv → IdleRecord → Bool → Store → Settled
unfolding acquire settle_granted
settle_session svc env r is_completed s =
    settle_granted svc env r is_completed (acquire svc env r s)
