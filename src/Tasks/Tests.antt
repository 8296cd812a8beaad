-- ===== src/Tasks/Tests.antt =====
-- Runs of the tasks: an idle reward of thirty minutes, and the theorems at concrete inputs.
use hc_framework_go.Prelude.{
  ◌+◌, ◌≤◌, ◌<◌, ◌≡◌, refl, true, false, none, some, List, [], ◌∷◌, arith, ok, ◌==◌, if◌then◌else◌,
}
use hc_framework_go.Tasks.{
  Task, daily, daily_idle_30, UserTaskProgress, new_progress, fine, IncrEnv, incr_progress,
  incr_progress_once, incr_attempts, ensure_row, incr_rows, incr_row, claim_rows, find_progress,
  get_current_period, begun, deadlock, after_fault,
}
use hc_framework_go.Tasks.Claiming.{ClaimEnv, TaskDb, claim, claim_reward, reward_rows}
use hc_framework_go.Tasks.Events.{
  Formats, Message, idle_settled, EventEnv, EventDb, apply_event_progress, count_event, end_event,
  incr_all, find_by_keys,
}
use hc_framework_go.Tasks.Rewards.{rows_with, claimed_row}
use hc_framework_go.Tasks.Again.{apply_event_progress_again}
use hc_framework_go.Tasks.Once.{Rewarded, claim-Rewarded}
use hc_framework_go.Tasks.History.{
  TaskWorld, TaskCall, claiming, delivered, run_tasks, run_tasks-granted,
}
use hc_framework_go.Tasks.Targets.{wrong_rows, incr_progress-right, incr_progress_early}

abbrev idle_30 : Task
idle_30 = record {
  id = 2;
  task_type = daily;
  task_key = daily_idle_30;
  target_value = 30;
  reward_points = 200;
  is_active = true;
}

abbrev half : UserTaskProgress
half = record (new_progress 1 2 6) { current_progress = 15 }

abbrev full : UserTaskProgress
full = record half { current_progress = 30; is_completed = true }

abbrev clean : IncrEnv
clean = record {
  inserts = λ a. fine;
  updates = λ a. fine;
  cancelled = λ a. false;
  rereads = false;
  now = 77;
}

abbrev claim_env : ClaimEnv
claim_env = record {
  found_task = some (some idle_30);
  progress_fails = false;
  replica = full ∷ [];
  today = 5;
  now = 80;
  points_on = true;
  claim_fails = false;
  create_transaction_fails = false;
  append_fails = false;
  commit_fails = false;
}

abbrev full_db : TaskDb
full_db = record { progress = full ∷ []; transactions = []; outbox = [] }

abbrev rewarded_db : TaskDb
rewarded_db = reward_rows claim_env 1 idle_30 6 (record full { is_claimed = true } ∷ []) full_db

claim-Rewarded_example : Rewarded claim_env 1 idle_30 full_db rewarded_db
unfolding claim find_progress claim_reward claim_rows get_current_period
claim-Rewarded_example = claim-Rewarded claim_env 1 full_db rewarded_db idle_30 refl

abbrev formats : Formats
formats = record { idle_key = λ n. n + n; shop_key = λ n. n + n + 1 }

abbrev settled : Message
settled = record {
  kind = idle_settled 4 900;
  event_id = none;
  user_id = some 1;
  is_malformed = false;
}

abbrev event_env : EventEnv
event_env = record {
  mark_fails = false;
  tasks_fail = false;
  tasks = idle_30 ∷ [];
  incr = λ t. clean;
  commit_fails = false;
  today = 5;
}

abbrev before : EventDb
before = record { progress = half ∷ []; dedup = [] }

apply_event_progress_again_example :
    apply_event_progress formats event_env settled
      (apply_event_progress formats event_env settled before).0
    ≡ ((apply_event_progress formats event_env settled before).0, ok tt)
unfolding apply_event_progress count_event incr_progress incr_attempts incr_progress_once ensure_row
    incr_rows incr_row get_current_period
apply_event_progress_again_example =
    apply_event_progress_again formats event_env event_env settled before (λ t a. (refl, refl)) refl
      refl

-- A deadlock at the first update ends the transaction and its mark; the retry counts at once.
abbrev deadlocked : EventEnv
deadlocked = record event_env {
  incr = λ t. record clean { updates = λ a. if a == 0 then deadlock else fine };
}

abbrev unmarked : EventDb
unmarked = record { progress = record full { completed_at = some 77 } ∷ []; dedup = [] }

counted_unmarked : apply_event_progress formats deadlocked settled before ≡ (unmarked, ok tt)
unfolding apply_event_progress count_event incr_progress incr_attempts incr_progress_once ensure_row
    incr_rows incr_row get_current_period end_event incr_all after_fault find_by_keys
counted_unmarked = refl

-- The second delivery counts the same fifteen minutes again.
counted_twice : apply_event_progress formats event_env settled unmarked ≡ (
  record {
    progress = record full { current_progress = 45; completed_at = some 77 } ∷ [];
    dedup = 8 ∷ [];
  },
  ok tt,
)
unfolding apply_event_progress count_event incr_progress incr_attempts incr_progress_once ensure_row
    incr_rows incr_row get_current_period end_event incr_all after_fault find_by_keys
counted_twice = refl

abbrev calls : List TaskCall
calls =
    delivered formats event_env settled
    ∷ claiming claim_env 1
    ∷ delivered formats event_env settled
    ∷ claiming claim_env 1
    ∷ []

abbrev start : TaskWorld
start = record { db = record full_db { progress = half ∷ [] }; dedup = [] }

run_tasks-granted_example :
    rows_with claimed_row 1 2 6 start.db.progress + (run_tasks 1 2 6 start calls).1 ≤ 1
run_tasks-granted_example = run_tasks-granted 1 2 6 start calls (omega arith)

incr_progress-right_example :
    wrong_rows idle_30 (incr_progress clean 1 idle_30 6 15 (begun (half ∷ []))).0.rows ≡ 0
incr_progress-right_example = incr_progress-right clean 1 idle_30 6 15 (half ∷ []) refl refl

-- Eight minutes after fifteen: 23 of 30, and marked complete.
incr_progress_early_example :
    (r' : UserTaskProgress) × (incr_progress
        (record clean { rereads = true })
        1
        idle_30
        6
        8
        (begun (half ∷ []))
      ≡ (record (begun (half ∷ [])) { rows = r' ∷ [] }, fine))
    × (r'.is_completed ≡ true)
    × (r'.current_progress < 30)
incr_progress_early_example =
    incr_progress_early (record clean { rereads = true }) 1 idle_30 6 8 half refl refl refl refl
      refl (omega arith) (omega arith)
