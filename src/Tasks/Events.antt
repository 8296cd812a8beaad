-- ===== src/Tasks/Events.antt =====
-- Progress from events: internal/service/task/task_service.go, `ApplyEventProgress`, with `Mark` of
-- internal/repository/event_dedup_repo.go and `FindByKeys` of internal/repository/task_repo.go.
use hc_framework_go.Prelude.{
  ℕ, ◌/◌, Bool, true, false, ◌&&◌, not, Option, none, some, or_else, List, [], ◌∷◌, ◌==◌, leb,
  if◌then◌else◌, Except, ok, err, select,
}
use hc_framework_go.Tasks.{
  Task, TaskKey, daily_idle_30, weekly_idle_300, daily_redeem_1, weekly_redeem_3,
  achieve_redeem_100, Rows, Session, begun, IncrEnv, Fault, fine, is_fine, get_current_period,
  incr_progress,
}

pub data EventKind : Type 0 where
  idle_settled : ℕ → ℕ → EventKind  -- the record and the seconds
  shop_redeemed : ℕ → EventKind  -- the order
  other_event : EventKind

-- `none` is the empty string.
pub record Message : Type 0 where
  pub kind : EventKind
  pub event_id : Option ℕ
  pub user_id : Option ℕ
  pub is_malformed : Bool

-- The ids that are derived from a record or an order; a string is a number.
pub record Formats : Type 0 where
  pub idle_key : ℕ → ℕ
  pub shop_key : ℕ → ℕ

abbrev pub is_idle_key : TaskKey → Bool
is_idle_key daily_idle_30 = true
is_idle_key weekly_idle_300 = true
is_idle_key _ = false

abbrev pub is_redeem_key : TaskKey → Bool
is_redeem_key daily_redeem_1 = true
is_redeem_key weekly_redeem_3 = true
is_redeem_key achieve_redeem_100 = true
is_redeem_key _ = false

-- What a message asks for: an id, a user, the keys of the tasks and what is added.
pub data Plan : Type 0 where
  malformed ignored : Plan
  counted : ℕ → ℕ → (TaskKey → Bool) → ℕ → Plan

abbrev pub plan_for : Option ℕ → ℕ → (TaskKey → Bool) → ℕ → Plan
plan_for none id keys delta = ignored
plan_for (some user) id keys delta = if leb delta 0 then ignored else counted id user keys delta

unfoldable pub plan : Formats → Message → Plan
plan formats msg =
    if not (is_known msg.kind)
    then ignored
    else if msg.is_malformed
    then malformed
    else plan_kind msg.kind
  where
    is_known : EventKind → Bool
    is_known other_event = false
    is_known _ = true

    plan_kind : EventKind → Plan
    plan_kind (idle_settled record_id seconds) =
        plan_for msg.user_id (or_else msg.event_id (formats.idle_key record_id)) is_idle_key
          (seconds / 60)
    plan_kind (shop_redeemed order_id) =
        plan_for msg.user_id (or_else msg.event_id (formats.shop_key order_id)) is_redeem_key 1
    plan_kind other_event = ignored

pub data EventError : Type 0 where
  decode_failed mark_failed find_tasks_failed incr_failed commit_failed : EventError

pub record EventEnv : Type 0 where
  pub mark_fails : Bool
  pub tasks_fail : Bool
  pub tasks : List Task
  pub incr : ℕ → IncrEnv  -- by task
  pub commit_fails : Bool
  pub today : ℕ

pub record EventDb : Type 0 where
  pub progress : Rows
  pub dedup : List ℕ

unfoldable pub is_marked : ℕ → List ℕ → Bool
is_marked id [] = false
is_marked id (x ∷ xs) = let rest = is_marked id xs in if x == id then true else rest

-- WHERE task_key IN ? AND is_active = true
unfoldable pub find_by_keys : (TaskKey → Bool) → List Task → List Task
find_by_keys keys = select (λ t. keys t.task_key && t.is_active)

unfoldable pub incr_all : EventEnv → ℕ → ℕ → List Task → Session → Session × Fault
incr_all env user delta [] s = (s, fine)
incr_all env user delta (t ∷ ts) s =
    let (s', fault) =
      incr_progress (env.incr t.id) user t (get_current_period t.task_type env.today) delta s in
    let rest = incr_all env user delta ts s' in if is_fine fault then rest else (s', fault)

-- The mark of an event is in the transaction, and goes with it.
abbrev pub mark_kept : ℕ → Option Rows → List ℕ → List ℕ
mark_kept id none dedup = dedup
mark_kept id (some saved) dedup = id ∷ dedup

-- The end of the transaction: a commit, or a rollback, which undoes nothing that counted at once.
unfoldable pub end_event :
    EventEnv → ℕ → EventDb → Session → Fault → EventDb × Except EventError (Unit {0})
end_event env id db s fault =
    if not (is_fine fault)
    then (record db { progress = or_else s.saved s.rows }, err incr_failed)
    else if env.commit_fails
    then (record db { progress = or_else s.saved s.rows }, err commit_failed)
    else (record { progress = s.rows; dedup = mark_kept id s.saved db.dedup }, ok tt)

-- The transaction, where the id is new.
unfoldable pub count_event :
    EventEnv → ℕ → ℕ → (TaskKey → Bool) → ℕ → EventDb → EventDb × Except EventError (Unit {0})
unfolding find_by_keys incr_all end_event
count_event env id user keys delta db =
    let (s, fault) = incr_all env user delta (find_by_keys keys env.tasks) (begun db.progress) in
    if env.tasks_fail then (db, err find_tasks_failed) else end_event env id db s fault

-- What the tables are and what the caller is told.
unfoldable pub apply_plan : EventEnv → Plan → EventDb → EventDb × Except EventError (Unit {0})
unfolding count_event is_marked
apply_plan env malformed db = (db, err decode_failed)
apply_plan env ignored db = (db, ok tt)
apply_plan env (counted id user keys delta) db =
    let fresh = count_event env id user keys delta db in
    if env.mark_fails
    then (db, err mark_failed)
    else if is_marked id db.dedup
    then (db, ok tt)
    else fresh

unfoldable pub apply_event_progress :
    Formats → EventEnv → Message → EventDb → EventDb × Except EventError (Unit {0})
unfolding plan apply_plan
apply_event_progress formats env msg db = apply_plan env (plan formats msg) db
