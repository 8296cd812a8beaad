-- ===== src/Tasks/Once.antt =====
-- However claims and events follow one another, a reward is granted once: `Claim` and
-- `ApplyEventProgress` of internal/service/task/task_service.go on the same rows.
use hc_framework_go.Prelude.{
  ℕ, ◌≤◌, ◌≡◌, refl, Bool, ◌&&◌, Option, none, some, [], ◌∷◌, arith, count, count-append, ok,
  passed, not_refused, subst, ◌∙◌, ◌≢◌, sym, ◌+◌, ◌==◌, if◌then◌else◌, pos, false,
}
use hc_framework_go.Tasks.{
  Task, Rows, UserTaskProgress, is_row, get_current_period, claim_rows, incr_rows, ensure_row,
  find_progress, new_progress,
}
use hc_framework_go.Tasks.Claiming.{
  TaskError, ClaimEnv, TaskDb, found_or, check_progress, claim_reward, reward_rows, claim_tx, claim,
  find_task_failed, task_not_found, find_progress_failed,
}
use hc_framework_go.Tasks.Rewards.{
  rows_with, any_row, claimed_row, claim-count, open_row, claim-claimed, claim-all,
}
use hc_framework_go.Shop.Model.{
  PointsTransaction, PointsOutbox, task_reward, task_ref, pts_task, pending,
}
use hc_framework_go.Tasks.Progress.{IsKept}

-- Of a key there is at most one row, and `granted` says how often its reward was granted.
pub record IsGranted (granted user task period : ℕ) (rows : Rows) : Type 0 where
  pub unique : rows_with any_row user task period rows ≤ 1
  pub claimed : rows_with claimed_row user task period rows ≡ granted

pub claimed_le :
    (p : UserTaskProgress → Bool) (user task period : ℕ) (rows : Rows)
    → rows_with p user task period rows ≤ rows_with any_row user task period rows
claimed_le p user task period [] = omega arith
claimed_le p user task period (r ∷ rs) = ground (arith, claimed_le p user task period rs)

any_is :
    (user task period : ℕ) (rows : Rows)
    → rows_with any_row user task period rows ≡ count (is_row user task period) rows
any_is user task period [] = refl
any_is user task period (r ∷ rs) = ground (arith, any_is user task period rs)

module _ (u t p : ℕ) where
  insert-all :
      (user task period : ℕ) (rows : Rows)
      → rows_with any_row u t p rows ≤ 1
      → rows_with any_row u t p (ensure_row user task period rows) ≤ 1
  unfolding ensure_row
  insert-all user task period rows h = ground (
    arith,
    h,
    any_is user task period rows,
    count-append (λ r. is_row u t p r && any_row r) rows (new_progress user task period ∷ []),
  )

  insert-claimed :
      (user task period : ℕ) (rows : Rows)
      → rows_with claimed_row u t p (ensure_row user task period rows)
        ≡ rows_with claimed_row u t p rows
  unfolding ensure_row
  insert-claimed user task period rows = ground (
    arith,
    count-append (λ r. is_row u t p r && claimed_row r) rows (new_progress user task period ∷ []),
  )

  update-all :
      (rereads : Bool) (target now delta user task period : ℕ) (rows : Rows)
      → rows_with any_row u t p (incr_rows rereads target now delta user task period rows)
        ≡ rows_with any_row u t p rows
  unfolding incr_rows
  update-all rereads target now delta user task period [] = refl
  update-all rereads target now delta user task period (r ∷ rs) =
      ground (arith, update-all rereads target now delta user task period rs)

  update-claimed :
      (rereads : Bool) (target now delta user task period : ℕ) (rows : Rows)
      → rows_with claimed_row u t p (incr_rows rereads target now delta user task period rows)
        ≡ rows_with claimed_row u t p rows
  unfolding incr_rows
  update-claimed rereads target now delta user task period [] = refl
  update-claimed rereads target now delta user task period (r ∷ rs) =
      ground (arith, update-claimed rereads target now delta user task period rs)

pub IsGranted-IsKept : (granted u t p : ℕ) → IsKept (IsGranted granted u t p)
IsGranted-IsKept granted u t p = record {
  by_insert = λ user task period rows g. record {
    unique = insert-all u t p user task period rows g.unique;
    claimed = insert-claimed u t p user task period rows ∙ g.claimed;
  };
  by_update = λ rereads target now delta user task period rows g. record {
    unique =
        omega (arith, g.unique, update-all u t p rereads target now delta user task period rows);
    claimed = update-claimed u t p rereads target now delta user task period rows ∙ g.claimed;
  };
}

abbrev pub period_of : ClaimEnv → Task → ℕ
period_of env task = get_current_period task.task_type env.today

-- What a successful claim has been through.
pub record Taken (env : ClaimEnv) (user : ℕ) (task : Task) (db db' : TaskDb) : Type 0 where
  pub found_is : env.found_task ≡ some (some task)
  pub was_open : rows_with open_row user task.id (period_of env task) db.progress ≢ 0
  pub taken : (claim_rows user task.id (period_of env task) db.progress).1 ≢ 0
  pub rows_are :
      db'
      ≡ reward_rows env user task
          (period_of env task)
          (claim_rows user task.id (period_of env task) db.progress).0
          db

found-ok :
    (failed missing : TaskError) {A : Type 0} (o : Option (Option A)) (a : A)
    → found_or failed missing o ≡ ok a
    → o ≡ some (some a)
found-ok failed missing none a h = cc
found-ok failed missing (some none) a h = cc
found-ok failed missing (some (some x)) a h = ground arith

reward-ok :
    (fails : Bool) (user task period : ℕ) (rows rows' : Rows)
    → claim_reward fails user task period rows ≡ ok rows'
    → ((claim_rows user task period rows).1 ≢ 0) × (rows' ≡ (claim_rows user task period rows).0)
unfolding claim_reward
reward-ok fails user task period rows rows' h = (ground arith, ground arith)

tx-ok :
    (env : ClaimEnv) (user : ℕ) (task : Task) (period : ℕ) (db db' : TaskDb)
    → claim_tx env user task period db ≡ ok db'
    → ((claim_rows user task.id period db.progress).1 ≢ 0)
      × (db' ≡ reward_rows env user task period (claim_rows user task.id period db.progress).0 db)
unfolding claim_tx
tx-ok env user task period db db' h =
    let (rows, h1, taken) =
      passed _ (claim_reward env.claim_fails user task.id period db.progress) h in
    let (h2, a) = not_refused env.create_transaction_fails _ _ h1 in
    let (h3, b) = not_refused (env.points_on && env.append_fails) _ _ h2 in
    let (h4, c) = not_refused env.commit_fails _ _ h3 in
    let (some_row, rows_are) =
      reward-ok env.claim_fails user task.id period db.progress rows taken in
    let same : reward_rows env user task period rows db ≡ db' = ground arith in
    (some_row, sym same ∙ rw rows_are refl)

pub claim-Taken :
    (env : ClaimEnv) (user : ℕ) (db db' : TaskDb) (task : Task)
    → claim env user db ≡ ok (task, db')
    → Taken env user task db db'
unfolding claim
claim-Taken env user db db' task h =
    let (t, h1, f) = passed _ (found_or find_task_failed task_not_found env.found_task) h in
    let (h2, a) = not_refused env.progress_fails find_progress_failed _ h1 in
    let (x, h3, checked) =
      passed _ (check_progress (find_progress user t.id (period_of env t) env.replica)) h2 in
    let (d, h4, done_tx) = passed _ (claim_tx env user t (period_of env t) db) h3 in
    let same_task : t ≡ task = ground arith in
    let same_db : d ≡ db' = ground arith in
    let (taken, rows_are) = tx-ok env user t (period_of env t) db d done_tx in
    subst (λ (t : Task). Taken env user t db db') same_task
      (subst (λ (d : TaskDb). Taken env user t db d) same_db
        (record {
          found_is = found-ok find_task_failed task_not_found env.found_task t f;
          was_open = λ z. taken (claim-count user t.id (period_of env t) db.progress ∙ z);
          taken = taken;
          rows_are = rows_are;
        }))

-- The ledger row and the outbox row of a reward.
abbrev pub ledger_of : ℕ → Task → PointsTransaction
ledger_of user task = record {
  user_id = user;
  change_amount = pos task.reward_points;
  balance_after = pos 0;
  change_type = task_reward;
  reference_id = task_ref task.id;
}

abbrev pub event_of : ℕ → Task → ℕ → ℕ → PointsOutbox
event_of user task period now = record {
  user_id = user;
  delta = pos task.reward_points;
  event_id = pts_task user task.id period;
  status = pending;
  created_at = now;
}

-- The tables after a claim, beside the tables before.
pub record Rewarded (env : ClaimEnv) (user : ℕ) (task : Task) (db db' : TaskDb) : Type 0 where
  pub found_is : env.found_task ≡ some (some task)
  pub was_open : rows_with open_row user task.id (period_of env task) db.progress ≢ 0
  pub none_open : rows_with open_row user task.id (period_of env task) db'.progress ≡ 0
  pub claimed_grows :
      rows_with claimed_row user task.id (period_of env task) db'.progress
      ≡ rows_with claimed_row user task.id (period_of env task) db.progress
        + rows_with open_row user task.id (period_of env task) db.progress
  pub others_kept :
      (u t p : ℕ)
      → ((u == user) && ((t == task.id) && (p == period_of env task))) ≡ false
      → rows_with claimed_row u t p db'.progress ≡ rows_with claimed_row u t p db.progress
  pub rows_kept :
      (u t p : ℕ) → rows_with any_row u t p db'.progress ≡ rows_with any_row u t p db.progress
  pub ledger_grows : db'.transactions ≡ ledger_of user task ∷ db.transactions
  pub outbox_grows : db'.outbox ≡ (
      if env.points_on
      then event_of user task (period_of env task) env.now ∷ db.outbox
      else db.outbox)

claim-none_open :
    (user task period : ℕ) (rows : Rows)
    → rows_with open_row user task period (claim_rows user task period rows).0 ≡ 0
unfolding claim_rows
claim-none_open user task period [] = refl
claim-none_open user task period (r ∷ rs) = ground (arith, claim-none_open user task period rs)

taken-Rewarded :
    (env : ClaimEnv) (user : ℕ) (task : Task) (db : TaskDb)
    → env.found_task ≡ some (some task)
    → rows_with open_row user task.id (period_of env task) db.progress ≢ 0
    → Rewarded env user task db (
        reward_rows env user task
          (period_of env task)
          (claim_rows user task.id (period_of env task) db.progress).0
          db)
unfolding reward_rows
taken-Rewarded env user task db f o =
    let q = period_of env task in
    record {
      found_is = f;
      was_open = o;
      none_open = claim-none_open user task.id q db.progress;
      claimed_grows = ground (
        arith,
        claim-claimed user task.id q user task.id q db.progress,
        claim-count user task.id q db.progress,
      );
      others_kept =
          λ u t p other. ground (arith, other, claim-claimed user task.id q u t p db.progress);
      rows_kept = λ u t p. claim-all user task.id q u t p db.progress;
      ledger_grows = refl;
      outbox_grows = refl;
    }

-- A successful claim found the task and a row of the user and the task in its current period that was
-- complete and not claimed. It has claimed every such row, changed no claim of another user, task or
-- period and added or removed no row; the ledger has one new row, of the task's reward, and where points
-- are on the outbox one new pending row of it, under the id of user, task and period.
pub claim-Rewarded :
    (env : ClaimEnv) (user : ℕ) (db db' : TaskDb) (task : Task)
    → claim env user db ≡ ok (task, db')
    → Rewarded env user task db db'
claim-Rewarded env user db db' task h =
    let t = claim-Taken env user db db' task h in
    rw t.rows_are (taken-Rewarded env user task db t.found_is t.was_open)
