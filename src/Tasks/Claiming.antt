-- ===== src/Tasks/Claiming.antt =====
-- Taking a reward: internal/service/task/task_service.go, `Claim`, with `ClaimReward` of
-- internal/repository/task_repo.go.
use hc_framework_go.Prelude.{
  ℕ, Bool, ◌&&◌, not, Option, none, some, List, ◌∷◌, ◌==◌, if◌then◌else◌, pos, Except, ok, err,
  ◌>>=◌, ◌>>◌, refuse,
}
use hc_framework_go.Shop.Model.{
  PointsTransaction, PointsOutbox, task_reward, task_ref, pts_task, pending,
}
use hc_framework_go.Tasks.{
  Task, Rows, UserTaskProgress, get_current_period, find_progress, claim_rows,
}

pub data TaskError : Type 0 where
  task_not_found task_not_completed task_claimed : TaskError
  find_task_failed find_progress_failed claim_failed not_claimable : TaskError
  create_transaction_failed append_outbox_failed commit_failed : TaskError

pub record ClaimEnv : Type 0 where
  pub found_task : Option (Option Task)  -- an error, a missing task, or the task
  pub progress_fails : Bool
  pub replica : Rows  -- what the check outside the transaction sees
  pub today : ℕ
  pub now : ℕ
  pub points_on : Bool
  pub claim_fails : Bool
  pub create_transaction_fails : Bool
  pub append_fails : Bool
  pub commit_fails : Bool

pub record TaskDb : Type 0 where
  pub progress : Rows
  pub transactions : List PointsTransaction
  pub outbox : List PointsOutbox

abbrev pub found_or : TaskError → TaskError → {A : Type 0} → Option (Option A) → Except TaskError A
found_or failed missing none = err failed
found_or failed missing (some none) = err missing
found_or failed missing (some (some a)) = ok a

-- `progress == nil || !progress.IsCompleted`, then `progress.IsClaimed`.
unfoldable pub check_progress : Option UserTaskProgress → Except TaskError (Unit {0})
check_progress none = err task_not_completed
check_progress (some r) = do
  refuse (not r.is_completed) task_not_completed
  refuse r.is_claimed task_claimed

unfoldable pub claim_reward : Bool → ℕ → ℕ → ℕ → Rows → Except TaskError Rows
unfolding claim_rows
claim_reward fails user task period rows =
    let (rows', n) = claim_rows user task period rows in
    if fails then err claim_failed else if n == 0 then err not_claimable else ok rows'

-- What the transaction makes of the tables; the ledger row is written without a balance.
unfoldable pub reward_rows : ClaimEnv → ℕ → Task → ℕ → Rows → TaskDb → TaskDb
reward_rows env user task period progress db = record {
  progress = progress;
  transactions =
      record {
        user_id = user;
        change_amount = pos task.reward_points;
        balance_after = pos 0;
        change_type = task_reward;
        reference_id = task_ref task.id;
      }
      ∷ db.transactions;
  outbox =
      if env.points_on
      then record {
        user_id = user;
        delta = pos task.reward_points;
        event_id = pts_task user task.id period;
        status = pending;
        created_at = env.now;
      }
        ∷ db.outbox
      else db.outbox;
}

-- The transaction: an error in it rolls everything back.
unfoldable pub claim_tx : ClaimEnv → ℕ → Task → ℕ → TaskDb → Except TaskError TaskDb
unfolding claim_reward reward_rows
claim_tx env user task period db = do
  progress ← claim_reward env.claim_fails user task.id period db.progress
  refuse env.create_transaction_fails create_transaction_failed
  refuse (env.points_on && env.append_fails) append_outbox_failed
  refuse env.commit_fails commit_failed
  ok (reward_rows env user task period progress db)

-- The answer is the task and the tables that the transaction leaves.
unfoldable pub claim : ClaimEnv → ℕ → TaskDb → Except TaskError (Task × TaskDb)
unfolding check_progress claim_tx
claim env user db = do
  task ← found_or find_task_failed task_not_found env.found_task
  refuse env.progress_fails find_progress_failed
  check_progress
      (find_progress user task.id (get_current_period task.task_type env.today) env.replica)
  db' ← claim_tx env user task (get_current_period task.task_type env.today) db
  ok (task, db')
