-- ===== src/Tasks/History.antt =====
-- Claims and events one after the other: `Claim` and `ApplyEventProgress` of
-- internal/service/task/task_service.go.
use hc_framework_go.Prelude.{
  ℕ, ◌+◌, ◌≤◌, ◌≡◌, refl, ◌&&◌, List, [], ◌∷◌, arith, ◌==◌, if◌then◌else◌, Except, ok, err,
}
use hc_framework_go.Tasks.{Task, Rows}
use hc_framework_go.Tasks.Claiming.{TaskError, ClaimEnv, TaskDb, claim, reward_rows}
use hc_framework_go.Tasks.Events.{Formats, Message, EventEnv, EventDb, apply_event_progress}
use hc_framework_go.Tasks.Rewards.{
  rows_with, any_row, claimed_row, open_row, claim-count, claim-claimed, claim-all,
}
use hc_framework_go.Tasks.Progress.{event-kept}
use hc_framework_go.Tasks.Once.{IsGranted, IsGranted-IsKept, period_of, claim-Taken, claimed_le}

pub data TaskCall : Type 0 where
  claiming : ClaimEnv → ℕ → TaskCall
  delivered : Formats → EventEnv → Message → TaskCall

pub record TaskWorld : Type 0 where
  pub db : TaskDb
  pub dedup : List ℕ

abbrev pub with_rows : TaskWorld → EventDb → TaskWorld
with_rows w d = record { db = record w.db { progress = d.progress }; dedup = d.dedup }

-- The world after a claim's answer, and whether it granted the reward of a key.
abbrev pub after_claim :
    ClaimEnv → ℕ → ℕ → ℕ → ℕ → TaskWorld → Except TaskError (Task × TaskDb) → TaskWorld × ℕ
after_claim env user u t p w (err e) = (w, 0)
after_claim env user u t p w (ok (task, db')) = (
  record w { db = db' },
  if (u == user) && ((t == task.id) && (p == period_of env task)) then 1 else 0,
)

unfoldable pub run_task : ℕ → ℕ → ℕ → TaskWorld → TaskCall → TaskWorld × ℕ
run_task u t p w (claiming env user) = after_claim env user u t p w (claim env user w.db)
run_task u t p w (delivered formats env msg) = (
  with_rows w
      (apply_event_progress formats env msg
        (record { progress = w.db.progress; dedup = w.dedup })).0,
  0,
)

-- The world at the end, and how often the reward of user `u`, task `t` and period `p` was granted.
unfoldable pub run_tasks : ℕ → ℕ → ℕ → TaskWorld → List TaskCall → TaskWorld × ℕ
unfolding run_task
run_tasks u t p w [] = (w, 0)
run_tasks u t p w (c ∷ cs) =
    let (w', n) = run_task u t p w c in let (w'', m) = run_tasks u t p w' cs in (w'', n + m)

module _ (u t p granted : ℕ) where
  claim-IsGranted :
      (env : ClaimEnv) (user : ℕ) (w : TaskWorld) (a : Except TaskError (Task × TaskDb))
      → claim env user w.db ≡ a
      → IsGranted granted u t p w.db.progress
      → IsGranted
          (granted + (after_claim env user u t p w a).1)
          u
          t
          p
          (after_claim env user u t p w a).0.db.progress
  unfolding reward_rows
  claim-IsGranted env user w (err e) h g = record {
    unique = g.unique;
    claimed = omega (arith, g.claimed);
  }
  claim-IsGranted env user w (ok (task, db')) h g =
      let r = claim-Taken env user w.db db' task h in
      let q = period_of env task in
      rw r.rows_are (record {
        unique = omega (arith, g.unique, claim-all user task.id q u t p w.db.progress);
        claimed = ground (
          arith,
          g.claimed,
          g.unique,
          claim-claimed user task.id q u t p w.db.progress,
          claim-count user task.id q w.db.progress,
          r.taken,
          claimed_le open_row user task.id q w.db.progress,
        );
      })

  event-IsGranted :
      (formats : Formats) (env : EventEnv) (msg : Message) (w : TaskWorld)
      → IsGranted granted u t p w.db.progress
      → IsGranted
          (granted + (run_task u t p w (delivered formats env msg)).1)
          u
          t
          p
          (run_task u t p w (delivered formats env msg)).0.db.progress
  unfolding run_task
  event-IsGranted formats env msg w g =
      let g' =
        event-kept (IsGranted granted u t p) (IsGranted-IsKept granted u t p) formats env msg
          (record { progress = w.db.progress; dedup = w.dedup }) g in
      record { unique = g'.unique; claimed = omega (arith, g'.claimed) }

granted-add : (a b u t p : ℕ) (rows : Rows) → IsGranted (a + b) u t p rows → (a + b ≤ 1)
granted-add a b u t p rows g = omega (arith, g.unique, g.claimed, claimed_le claimed_row u t p rows)

run_tasks-IsGranted :
    (u t p granted : ℕ) (w : TaskWorld) (cs : List TaskCall)
    → IsGranted granted u t p w.db.progress
    → IsGranted (granted + (run_tasks u t p w cs).1) u t p (run_tasks u t p w cs).0.db.progress
unfolding run_tasks
run_tasks-IsGranted u t p granted w [] g = record {
  unique = g.unique;
  claimed = omega (arith, g.claimed);
}
run_tasks-IsGranted u t p granted w (c ∷ cs) g =
    let g' = one c in
    let rest =
      run_tasks-IsGranted u t p (granted + (run_task u t p w c).1) (run_task u t p w c).0 cs g' in
    record { unique = rest.unique; claimed = omega (arith, rest.claimed) }
  where
    one :
        (c : TaskCall)
        → IsGranted (granted + (run_task u t p w c).1) u t p (run_task u t p w c).0.db.progress
    one (claiming env user) = claim-IsGranted u t p granted env user w _ refl g
    one (delivered formats env msg) = event-IsGranted u t p granted formats env msg w g

-- Whatever claims and events follow one another, with any failures and any lag of the replica, the
-- reward of a user, a task and a period is granted at most once, and not at all where its row was
-- claimed before, given that the key has at most one row.
pub run_tasks-granted :
    (u t p : ℕ) (w : TaskWorld) (cs : List TaskCall)
    → rows_with any_row u t p w.db.progress ≤ 1
    → rows_with claimed_row u t p w.db.progress + (run_tasks u t p w cs).1 ≤ 1
run_tasks-granted u t p w cs h =
    granted-add _ _ u t p _
      (run_tasks-IsGranted u t p _ w cs (record { unique = h; claimed = refl }))
