-- ===== src/Tasks/Targets.antt =====
-- When a task is complete, and the periods of a task: `incrProgressOnce` and `GetCurrentPeriod` of
-- internal/repository/task_repo.go.
use hc_framework_go.Tasks.Progress.{progress-kept}
use hc_framework_go.Prelude.{
  ℕ, ◌+◌, ◌≤◌, ◌<◌, ◌≡◌, refl, Bool, true, false, ◌&&◌, not, [], ◌∷◌, arith, count, count-append,
  ◌==◌, leb, ltb, ap, ◌∙◌,
}
use hc_framework_go.Tasks.{
  Task, Rows, UserTaskProgress, is_row, incr_rows, incr_row, ensure_row, new_progress, IncrEnv,
  fine, incr_progress_once, incr_attempts, incr_progress, begun,
}

abbrev pub reaches : Task → UserTaskProgress → Bool
reaches task r = ltb 0 task.target_value && leb task.target_value r.current_progress

abbrev pub differs : Bool → Bool → Bool
differs true b = not b
differs false b = b

-- How many rows of the task are marked complete below its target, or not marked at it.
abbrev pub wrong_rows : Task → Rows → ℕ
wrong_rows task = count (λ r. r.task_id == task.id && differs r.is_completed (reaches task r))

module _ (task : Task) where
  insert_right :
      (user period : ℕ) (rows : Rows)
      → wrong_rows task rows ≡ 0
      → wrong_rows task (ensure_row user task.id period rows) ≡ 0
  unfolding ensure_row
  insert_right user period rows h = ground (
    arith,
    h,
    count-append (λ r. r.task_id == task.id && differs r.is_completed (reaches task r)) rows
        (new_progress user task.id period ∷ []),
  )

  update_right :
      (now delta user period : ℕ) (rows : Rows)
      → wrong_rows task rows ≡ 0
      → wrong_rows task (incr_rows false task.target_value now delta user task.id period rows) ≡ 0
  unfolding incr_rows incr_row
  update_right now delta user period [] h = refl
  update_right now delta user period (r ∷ rs) h =
      ground (arith, update_right now delta user period rs)

-- Where the database reads a row as it was before the statement, counting keeps this: a row of the
-- task is marked complete exactly when its progress has reached a positive target, whatever fails
-- and is tried again.
pub incr_progress-right :
    (env : IncrEnv) (user : ℕ) (task : Task) (period delta : ℕ) (rows : Rows)
    → env.rereads ≡ false
    → wrong_rows task rows ≡ 0
    → wrong_rows task (incr_progress env user task period delta (begun rows)).0.rows ≡ 0
incr_progress-right env user task period delta rows old h =
    (progress-kept (λ rows. wrong_rows task rows ≡ 0) env task
      (record {
        by_insert = insert_right task;
        by_update =
            λ delta user period rows w. rw old (update_right task env.now delta user period rows w);
      })
      user period delta (begun rows) _ refl (h, h)).0

-- A run whose first attempt is answered.
clean_progress :
    (env : IncrEnv) (user : ℕ) (task : Task) (period delta : ℕ) (rows : Rows)
    → env.inserts 0 ≡ fine
    → env.updates 0 ≡ fine
    → 0 < delta
    → incr_progress env user task period delta (begun rows) ≡ (
      record (begun rows) {
        rows =
            incr_rows env.rereads task.target_value env.now delta user task.id period
              (ensure_row user task.id period rows);
      },
      fine,
    )
unfolding incr_progress incr_attempts incr_progress_once
clean_progress env user task period delta rows i u d = rw (i, u) (ground arith)

one_ensured :
    (user task period : ℕ) (r : UserTaskProgress)
    → is_row user task period r ≡ true
    → ensure_row user task period (r ∷ []) ≡ r ∷ []
unfolding ensure_row
one_ensured user task period r key = ground arith

one_updated :
    (rereads : Bool) (target now delta user task period : ℕ) (r : UserTaskProgress)
    → is_row user task period r ≡ true
    → r.is_claimed ≡ false
    → incr_rows rereads target now delta user task period (r ∷ [])
      ≡ incr_row rereads target now delta r ∷ []
unfolding incr_rows
one_updated rereads target now delta user task period r key unclaimed = rw (key, unclaimed) refl

-- Where the database reads the columns that the same UPDATE has set, as MySQL does, an amount counts
-- twice in the test for the target: an open row whose progress stays below the target is marked
-- complete as soon as twice the amount would reach it.
pub incr_progress_early :
    (env : IncrEnv) (user : ℕ) (task : Task) (period delta : ℕ) (r : UserTaskProgress)
    → env.rereads ≡ true
    → env.inserts 0 ≡ fine
    → env.updates 0 ≡ fine
    → is_row user task.id period r ≡ true
    → r.is_claimed ≡ false
    → r.current_progress + delta < task.target_value
    → task.target_value ≤ r.current_progress + delta + delta
    → (r' : UserTaskProgress) × (incr_progress env user task period delta (begun (r ∷ []))
        ≡ (record (begun (r ∷ [])) { rows = r' ∷ [] }, fine))
      × (r'.is_completed ≡ true)
      × (r'.current_progress < task.target_value)
unfolding incr_row
incr_progress_early env user task period delta r twice i u key unclaimed below reached =
    (incr_row true task.target_value env.now delta r, run, complete, kept_below)
  where
    complete : (incr_row true task.target_value env.now delta r).is_completed ≡ true
    complete = ground arith

    kept_below :
        (incr_row true task.target_value env.now delta r).current_progress < task.target_value
    kept_below = below

    run : incr_progress env user task period delta (begun (r ∷ [])) ≡ (
      record (begun (r ∷ [])) { rows = incr_row true task.target_value env.now delta r ∷ [] },
      fine,
    )
    run =
        clean_progress env user task period delta (r ∷ []) i u (omega arith)
        ∙ ap (λ (rows : Rows). (record (begun (r ∷ [])) { rows = rows }, fine))
            (ap (incr_rows env.rereads task.target_value env.now delta user task.id period)
                (one_ensured user task.id period r key)
              ∙ rw twice (
                  one_updated true task.target_value env.now delta user task.id period r key
                    unclaimed))
