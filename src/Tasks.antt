-- ===== src/Tasks.antt =====
-- Tasks: internal/model/task.go, internal/repository/task_repo.go (`IncrProgress`, `ClaimReward`,
-- `ResetProgressByType`, `GetCurrentPeriod`), internal/repository/event_dedup_repo.go and
-- internal/service/task/task_service.go (`Claim`, `ApplyEventProgress`).
pub mod Rewards
pub mod Events
pub mod Claiming
pub mod Progress
pub mod Again
pub mod Once
pub mod History
pub mod Targets
mod Tests
use hc_framework_go.Prelude.{
  ℕ, zero, suc, ◌+◌, ◌-◌, ◌%◌, Bool, true, false, ◌&&◌, ◌||◌, not, Option, none, some, List, [],
  ◌∷◌, ◌++◌, or_else, ltb, leb, ◌==◌, if◌then◌else◌, count, find?, select,
}

pub data TaskType : Type 0 where
  daily weekly achievement other : TaskType

-- The keys of `SeedTasks`, and any other.
pub data TaskKey : Type 0 where
  daily_login daily_idle_30 daily_redeem_1 weekly_idle_300 weekly_redeem_3 : TaskKey
  achieve_points_10k achieve_redeem_100 : TaskKey
  other_key : ℕ → TaskKey

pub record Task : Type 0 where
  pub id : ℕ
  pub task_type : TaskType
  pub task_key : TaskKey
  pub target_value : ℕ
  pub reward_points : ℕ
  pub is_active : Bool

pub record UserTaskProgress : Type 0 where
  pub user_id : ℕ
  pub task_id : ℕ
  pub period : ℕ
  pub current_progress : ℕ
  pub is_completed : Bool
  pub is_claimed : Bool
  pub completed_at : Option ℕ

-- A period is a string: "lifetime", or the date of a day. Days are counted from a Monday.
abbrev pub lifetime : ℕ
lifetime = 0

abbrev pub date_of : ℕ → ℕ
date_of day = suc day

unfoldable pub get_current_period : TaskType → ℕ → ℕ
get_current_period daily today = date_of today
get_current_period weekly today = date_of (today - today % 7)
get_current_period achievement today = lifetime
get_current_period other today = date_of today

abbrev pub is_row : ℕ → ℕ → ℕ → UserTaskProgress → Bool
is_row user task period r = (r.user_id == user) && ((r.task_id == task) && (r.period == period))

abbrev pub Rows : Type 0
Rows = List UserTaskProgress

unfoldable pub find_progress : ℕ → ℕ → ℕ → Rows → Option UserTaskProgress
find_progress user task period = find? (is_row user task period)

-- How a statement ends.
pub data Fault : Type 0 where
  fine deadlock broken : Fault

abbrev pub is_fine : Fault → Bool
is_fine fine = true
is_fine _ = false

abbrev pub is_deadlock : Fault → Bool
is_deadlock deadlock = true
is_deadlock _ = false

abbrev pub new_progress : ℕ → ℕ → ℕ → UserTaskProgress
new_progress user task period = record {
  user_id = user;
  task_id = task;
  period = period;
  current_progress = 0;
  is_completed = false;
  is_claimed = false;
  completed_at = none;
}

-- INSERT ... ON CONFLICT (user_id, task_id, period) DO NOTHING
unfoldable pub ensure_row : ℕ → ℕ → ℕ → Rows → Rows
ensure_row user task period rows =
    if count (is_row user task period) rows == 0
    then rows ++ new_progress user task period ∷ []
    else rows

-- What the UPDATE makes of a row. `rereads` says that the database reads the columns that the same
-- statement has set before, from left to right, as MySQL documents it; the columns are set in the
-- order completed_at, current_progress, is_completed.
unfoldable pub incr_row : Bool → ℕ → ℕ → ℕ → UserTaskProgress → UserTaskProgress
incr_row rereads target now delta r =
    let next = r.current_progress + delta in
    let read = if rereads then next else r.current_progress in
    record r {
      current_progress = next;
      is_completed = r.is_completed || (ltb 0 target && leb target (read + delta));
      completed_at =
          if ltb 0 target && (leb target next && not r.is_completed)
          then some now
          else r.completed_at;
    }

-- UPDATE ... WHERE user_id = ? AND task_id = ? AND period = ? AND is_claimed = false
unfoldable pub incr_rows : Bool → ℕ → ℕ → ℕ → ℕ → ℕ → ℕ → Rows → Rows
unfolding incr_row
incr_rows rereads target now delta user task period [] = []
incr_rows rereads target now delta user task period (r ∷ rs) =
    let rest = incr_rows rereads target now delta user task period rs in
    if is_row user task period r && not r.is_claimed
    then incr_row rereads target now delta r ∷ rest
    else r ∷ rest

-- How the two statements of each attempt end, whether the context ends before an attempt, and what
-- the clock says.
pub record IncrEnv : Type 0 where
  pub inserts : ℕ → Fault
  pub updates : ℕ → Fault
  pub cancelled : ℕ → Bool
  pub rereads : Bool
  pub now : ℕ

-- The rows as the statements of a transaction see them, and those that a rollback leaves: `none` where
-- the database has ended the transaction itself, so that every further statement counts at once.
pub record Session : Type 0 where
  pub rows : Rows
  pub saved : Option Rows

abbrev pub begun : Rows → Session
begun rows = record { rows = rows; saved = some rows }

-- What a statement that fails undoes: itself, and at a deadlock, which only MySQL reports in the words
-- that the code looks for, the whole transaction.
unfoldable pub after_fault : Fault → Session → Session
after_fault fine s = s
after_fault broken s = s
after_fault deadlock s = record { rows = or_else s.saved s.rows; saved = none }

unfoldable pub incr_progress_once : IncrEnv → ℕ → ℕ → Task → ℕ → ℕ → Session → Session × Fault
unfolding ensure_row incr_rows after_fault
incr_progress_once env attempt user task period delta s =
    let ensured = ensure_row user task.id period s.rows in
    if not (is_fine (env.inserts attempt))
    then (after_fault (env.inserts attempt) s, env.inserts attempt)
    else if not (is_fine (env.updates attempt))
    then (after_fault (env.updates attempt) (record s { rows = ensured }), env.updates attempt)
    else (
      record s {
        rows = incr_rows env.rereads task.target_value env.now delta user task.id period ensured;
      },
      fine,
    )

-- The attempts from `attempt` on, of which `left` remain; `last` is the error of the one before.
unfoldable pub incr_attempts :
    IncrEnv → ℕ → ℕ → Fault → ℕ → Task → ℕ → ℕ → Session → Session × Fault
unfolding incr_progress_once
incr_attempts env attempt zero last user task period delta s = (s, last)
incr_attempts env attempt (suc left) last user task period delta s =
    let (s', fault) = incr_progress_once env attempt user task period delta s in
    let again = incr_attempts env (suc attempt) left fault user task period delta s' in
    if ltb 0 attempt && env.cancelled attempt
    then (s, broken)
    else if is_deadlock fault
    then again
    else (s', fault)

unfoldable pub incr_progress : IncrEnv → ℕ → Task → ℕ → ℕ → Session → Session × Fault
unfolding incr_attempts
incr_progress env user task period delta s =
    if leb delta 0 then (s, fine) else incr_attempts env 0 3 fine user task period delta s

-- UPDATE ... SET is_claimed = true WHERE ... AND is_completed = true AND is_claimed = false, with the
-- number of rows it changed.
unfoldable pub claim_rows : ℕ → ℕ → ℕ → Rows → Rows × ℕ
claim_rows user task period [] = ([], 0)
claim_rows user task period (r ∷ rs) =
    let (rest, n) = claim_rows user task period rs in
    if is_row user task period r && (r.is_completed && not r.is_claimed)
    then (record r { is_claimed = true } ∷ rest, suc n)
    else (r ∷ rest, n)

-- DELETE ... WHERE task_id IN (SELECT id FROM tasks WHERE task_type = ?) AND period != ?; `of_type`
-- is the subquery.
unfoldable pub reset_progress_by_type : (ℕ → Bool) → ℕ → Rows → Rows
reset_progress_by_type of_type current =
    select (λ r. not (of_type r.task_id && not (r.period == current)))
