-- ===== src/Tasks/Progress.antt =====
-- What counting progress keeps, rolled back or not: `IncrProgress` of internal/repository/task_repo.go and
-- `ApplyEventProgress` of internal/service/task/task_service.go.
use hc_framework_go.Prelude.{
  ℕ, zero, suc, ◌≡◌, refl, Bool, true, false, List, [], ◌∷◌, if◌then◌else◌, ok, err, Option, none,
  some, or_else, leb, Bool-cases, inl, inr,
}
use hc_framework_go.Tasks.{
  Task, Rows, get_current_period, incr_rows, ensure_row, IncrEnv, Fault, fine, is_fine,
  incr_progress_once, incr_attempts, incr_progress, deadlock, broken, Session, begun, after_fault,
}
use hc_framework_go.Tasks.Events.{
  Formats, Message, Plan, malformed, ignored, counted, plan, EventEnv, EventDb, is_marked,
  find_by_keys, incr_all, end_event, count_event, apply_plan, apply_event_progress, mark_failed,
  find_tasks_failed,
}

-- A property that every statement of the counting keeps.
pub record IsKept (P : Rows → Type 0) : Type 0 where
  pub by_insert :
      (user task period : ℕ) (rows : Rows) → P rows → P (ensure_row user task period rows)
  pub by_update :
      (rereads : Bool) (target now delta user task period : ℕ) (rows : Rows)
      → P rows
      → P (incr_rows rereads target now delta user task period rows)

-- The same of the statements that count for one task.
pub record IsKeptBy (P : Rows → Type 0) (env : IncrEnv) (task : Task) : Type 0 where
  pub by_insert : (user period : ℕ) (rows : Rows) → P rows → P (ensure_row user task.id period rows)
  pub by_update :
      (delta user period : ℕ) (rows : Rows)
      → P rows
      → P (incr_rows env.rereads task.target_value env.now delta user task.id period rows)

every_task : (P : Rows → Type 0) (env : IncrEnv) (task : Task) → IsKept P → IsKeptBy P env task
every_task P env task k = record {
  by_insert = λ user period. k.by_insert user task.id period;
  by_update = λ delta user. k.by_update env.rereads task.target_value env.now delta user task.id;
}

-- It holds of the rows that the statements see and of those that a rollback leaves.
abbrev pub HoldsOfSaved : (Rows → Type 0) → Option Rows → Type 0
HoldsOfSaved P none = Unit
HoldsOfSaved P (some rows) = P rows

abbrev pub HoldsIn : (Rows → Type 0) → Session → Type 0
HoldsIn P s = P s.rows × HoldsOfSaved P s.saved

rolled-holds :
    (P : Rows → Type 0) (saved : Option Rows) (rows : Rows)
    → P rows
    → HoldsOfSaved P saved
    → P (or_else saved rows)
rolled-holds P none rows p q = p
rolled-holds P (some old) rows p q = q

fault-holds :
    (P : Rows → Type 0) (fault : Fault) (s : Session)
    → HoldsIn P s
    → HoldsIn P (after_fault fault s)
unfolding after_fault
fault-holds P fine s h = h
fault-holds P broken s h = h
fault-holds P deadlock s (p, q) = (rolled-holds P s.saved s.rows p q, tt)

module _ (P : Rows → Type 0) (env : IncrEnv) (task : Task) (k : IsKeptBy P env task)
    (user period delta : ℕ) where
  once-kept :
      (attempt : ℕ) (s : Session) (b c : Bool)
      → is_fine (env.inserts attempt) ≡ b
      → is_fine (env.updates attempt) ≡ c
      → HoldsIn P s
      → HoldsIn P (incr_progress_once env attempt user task period delta s).0
  unfolding incr_progress_once
  once-kept attempt s false c b_is c_is h = rw b_is (fault-holds P (env.inserts attempt) s h)
  once-kept attempt s true false b_is c_is (p, q) =
      rw (b_is, c_is)
        (fault-holds P (env.updates attempt)
          (record s { rows = ensure_row user task.id period s.rows })
          (k.by_insert user period s.rows p, q))
  once-kept attempt s true true b_is c_is (p, q) =
      rw (b_is, c_is) (k.by_update delta user period _ (k.by_insert user period s.rows p), q)

  chosen :
      (b c : Bool) (r again stop : Session × Fault)
      → HoldsIn P r.0
      → HoldsIn P again.0
      → HoldsIn P stop.0
      → HoldsIn P (if b then r else if c then again else stop).0
  chosen true c r again stop p q s = p
  chosen false true r again stop p q s = q
  chosen false false r again stop p q s = s

  attempts-kept :
      (attempt left : ℕ) (last : Fault) (s : Session)
      → HoldsIn P s
      → HoldsIn P (incr_attempts env attempt left last user task period delta s).0
  unfolding incr_attempts
  attempts-kept attempt zero last s h = h
  attempts-kept attempt (suc left) last s h =
      let q = once-kept attempt s _ _ refl refl h in
      chosen _ _ (s, broken) _ _ h (attempts-kept (suc attempt) left _ _ q) q

  pub progress-kept :
      (s : Session) (b : Bool)
      → leb delta 0 ≡ b
      → HoldsIn P s
      → HoldsIn P (incr_progress env user task period delta s).0
  unfolding incr_progress
  progress-kept s true e h = rw e h
  progress-kept s false e h = rw e (attempts-kept 0 3 fine s h)

module _ (P : Rows → Type 0) (k : IsKept P) where
  all-kept :
      (env : EventEnv) (user delta : ℕ) (ts : List Task) (s : Session)
      → HoldsIn P s
      → HoldsIn P (incr_all env user delta ts s).0
  unfolding incr_all
  all-kept env user delta [] s h = h
  all-kept env user delta (t ∷ ts) s h =
      let r =
        incr_progress (env.incr t.id) user t (get_current_period t.task_type env.today) delta s in
      let first =
        progress-kept P (env.incr t.id) t (every_task P (env.incr t.id) t k) user
          (get_current_period t.task_type env.today) delta s _ refl h in
      elim (Bool-cases (is_fine r.1)) [
        | inl done ↦ rw done (all-kept env user delta ts r.0 first)
        | inr stopped ↦ rw stopped first
      ]

  end-kept :
      (env : EventEnv) (id : ℕ) (db : EventDb) (s : Session) (fault : Fault)
      → HoldsIn P s
      → P (end_event env id db s fault).0.progress
  unfolding end_event
  end-kept env id db s fault (p, q) = elim (Bool-cases (is_fine fault)) [
    | inr stopped ↦ rw stopped (rolled-holds P s.saved s.rows p q)
    | inl done ↦ elim (Bool-cases env.commit_fails) [
      | inl lost ↦ rw (done, lost) (rolled-holds P s.saved s.rows p q)
      | inr kept ↦ rw (done, kept) p
    ]
  ]

  plan-kept :
      (env : EventEnv) (p : Plan) (db : EventDb)
      → P db.progress
      → P (apply_plan env p db).0.progress
  unfolding apply_plan count_event
  plan-kept env malformed db q = q
  plan-kept env ignored db q = q
  plan-kept env (counted id user keys delta) db q =
      let r = incr_all env user delta (find_by_keys keys env.tasks) (begun db.progress) in
      let ended =
        end-kept env id db r.0 r.1
          (all-kept env user delta (find_by_keys keys env.tasks) (begun db.progress) (q, q)) in
      choose env.mark_fails (is_marked id db.dedup) env.tasks_fail ended
    where
      choose :
          (a b c : Bool)
          → P
              (end_event env id db
                (incr_all env user delta (find_by_keys keys env.tasks) (begun db.progress)).0
                (incr_all env user delta
                  (find_by_keys keys env.tasks)
                  (begun db.progress)).1).0.progress
          → P
              (if a
                then (db, err mark_failed)
                else if b
                then (db, ok tt)
                else if c
                then (db, err find_tasks_failed)
                else end_event env id db
                    (incr_all env user delta (find_by_keys keys env.tasks) (begun db.progress)).0
                    (incr_all env user delta
                      (find_by_keys keys env.tasks)
                      (begun db.progress)).1).0.progress
      choose true b c e = q
      choose false true c e = q
      choose false false true e = q
      choose false false false e = e

  -- A delivery keeps what every statement of the counting keeps, whatever it answers.
  pub event-kept :
      (formats : Formats) (env : EventEnv) (msg : Message) (db : EventDb)
      → P db.progress
      → P (apply_event_progress formats env msg db).0.progress
  unfolding apply_event_progress
  event-kept formats env msg db q = plan-kept env (plan formats msg) db q
