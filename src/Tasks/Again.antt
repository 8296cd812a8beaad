-- ===== src/Tasks/Again.antt =====
-- A message that is delivered twice: `ApplyEventProgress` of internal/service/task/task_service.go,
-- with the retries of `IncrProgress` in internal/repository/task_repo.go inside its transaction.
use hc_framework_go.Prelude.{
  ℕ, zero, suc, ◌≡◌, refl, ◌∙◌, Bool, true, false, List, [], ◌∷◌, arith, ok, some, Bool-cases, inl,
  inr, ==_refl,
}
use hc_framework_go.Tasks.{
  Task, TaskKey, Session, begun, after_fault, IncrEnv, Fault, fine, broken, deadlock, is_fine,
  is_deadlock, get_current_period, incr_progress_once, incr_attempts, incr_progress, ensure_row,
}
use hc_framework_go.Tasks.Events.{
  Formats, Message, Plan, malformed, ignored, counted, plan, EventEnv, EventDb, is_marked,
  find_by_keys, incr_all, end_event, count_event, apply_plan, apply_event_progress,
}

-- No statement of the counting ends in a deadlock.
abbrev pub NoDeadlock : EventEnv → Type 0
NoDeadlock env =
    (t attempt : ℕ)
    → (is_deadlock ((env.incr t).inserts attempt) ≡ false)
      × (is_deadlock ((env.incr t).updates attempt) ≡ false)

fault-saved :
    (fault : Fault) (s : Session)
    → is_deadlock fault ≡ false
    → (after_fault fault s).saved ≡ s.saved
unfolding after_fault
fault-saved fine s h = refl
fault-saved broken s h = refl
fault-saved deadlock s h = cc

module _ (env : IncrEnv) (task : Task)
    (calm : (a : ℕ) → (is_deadlock (env.inserts a) ≡ false) × (is_deadlock (env.updates a) ≡ false))
    (user period delta : ℕ) where
  once-saved :
      (attempt : ℕ) (s : Session)
      → (incr_progress_once env attempt user task period delta s).0.saved ≡ s.saved
  unfolding incr_progress_once
  once-saved attempt s = elim (Bool-cases (is_fine (env.inserts attempt))) [
    | inr i ↦ rw i (fault-saved (env.inserts attempt) s (calm attempt).0)
    | inl i ↦ elim (Bool-cases (is_fine (env.updates attempt))) [
      | inr u ↦
          rw (i, u)
            (fault-saved (env.updates attempt)
              (record s { rows = ensure_row user task.id period s.rows }) (calm attempt).1)
      | inl u ↦ rw (i, u) refl
    ]
  ]

  attempts-saved :
      (attempt left : ℕ) (last : Fault) (s : Session)
      → (incr_attempts env attempt left last user task period delta s).0.saved ≡ s.saved
  unfolding incr_attempts
  attempts-saved attempt zero last s = refl
  attempts-saved attempt (suc left) last s = ground (
    arith,
    once-saved attempt s,
    attempts-saved (suc attempt) left (incr_progress_once env attempt user task period delta s).1
        (incr_progress_once env attempt user task period delta s).0,
  )

  progress-saved : (s : Session) → (incr_progress env user task period delta s).0.saved ≡ s.saved
  unfolding incr_progress
  progress-saved s = ground (arith, attempts-saved 0 3 fine s)

all-saved :
    (env : EventEnv) (user delta : ℕ) (ts : List Task) (s : Session)
    → NoDeadlock env
    → (incr_all env user delta ts s).0.saved ≡ s.saved
unfolding incr_all
all-saved env user delta [] s h = refl
all-saved env user delta (t ∷ ts) s h =
    let period = get_current_period t.task_type env.today in
    let r = incr_progress (env.incr t.id) user t period delta s in
    let first : r.0.saved ≡ s.saved =
      progress-saved (env.incr t.id) t (h t.id) user period delta s in
    elim (Bool-cases (is_fine r.1)) [
      | inl done ↦ rw done (all-saved env user delta ts r.0 h ∙ first)
      | inr stopped ↦ rw stopped first
    ]

marked_self : (id : ℕ) (ids : List ℕ) → is_marked id (id ∷ ids) ≡ true
unfolding is_marked
marked_self id ids = rw (==_refl id) refl

-- A transaction that is committed has left the mark.
end-marked :
    (env : EventEnv) (id : ℕ) (db : EventDb) (s : Session) (fault : Fault)
    → s.saved ≡ some db.progress
    → (end_event env id db s fault).1 ≡ ok tt
    → is_marked id (end_event env id db s fault).0.dedup ≡ true
unfolding end_event
end-marked env id db s fault e h = elim (Bool-cases (is_fine fault)) [
  | inr stopped ↦ absurd (let h' = rw stopped at h in cc)
  | inl done ↦ elim (Bool-cases env.commit_fails) [
    | inl lost ↦ absurd (let h' = rw (done, lost) at h in cc)
    | inr kept ↦ rw (done, kept, e) (marked_self id db.dedup)
  ]
]

counted-marked :
    (env : EventEnv) (id user : ℕ) (keys : TaskKey → Bool) (delta : ℕ) (db : EventDb)
    → NoDeadlock env
    → (apply_plan env (counted id user keys delta) db).1 ≡ ok tt
    → is_marked id (apply_plan env (counted id user keys delta) db).0.dedup ≡ true
unfolding apply_plan count_event
counted-marked env id user keys delta db calm h = elim (Bool-cases env.mark_fails) [
  | inl failed ↦ absurd (let h' = rw failed at h in cc)
  | inr looked_up ↦ elim (Bool-cases (is_marked id db.dedup)) [
    | inl old ↦ rw (looked_up, old) old
    | inr new ↦ elim (Bool-cases env.tasks_fail) [
      | inl missing ↦ absurd (let h' = rw (looked_up, new, missing) at h in cc)
      | inr found ↦
          let r = incr_all env user delta (find_by_keys keys env.tasks) (begun db.progress) in
          rw (looked_up, new, found)
            (end-marked env id db r.0 r.1
              (all-saved env user delta (find_by_keys keys env.tasks) (begun db.progress) calm)
              (rw (looked_up, new, found) at h))
    ]
  ]
]

again :
    (env env' : EventEnv) (p : Plan) (db : EventDb)
    → NoDeadlock env
    → (apply_plan env p db).1 ≡ ok tt
    → env'.mark_fails ≡ false
    → apply_plan env' p (apply_plan env p db).0 ≡ ((apply_plan env p db).0, ok tt)
unfolding apply_plan
again env env' malformed db calm h m = cc
again env env' ignored db calm h m = refl
again env env' (counted id user keys delta) db calm h m =
    rw (m, counted-marked env id user keys delta db calm h) refl

-- Where no statement of the counting ended in a deadlock, a message that was handled is not counted
-- again: a second delivery that finds the tables as the first left them, whatever tasks, clock and
-- failures it meets, leaves progress and marks as they are, where its mark can be looked up.
pub apply_event_progress_again :
    (formats : Formats) (env env' : EventEnv) (msg : Message) (db : EventDb)
    → NoDeadlock env
    → (apply_event_progress formats env msg db).1 ≡ ok tt
    → env'.mark_fails ≡ false
    → apply_event_progress formats env' msg (apply_event_progress formats env msg db).0
      ≡ ((apply_event_progress formats env msg db).0, ok tt)
unfolding apply_event_progress
apply_event_progress_again formats env env' msg db calm h m =
    again env env' (plan formats msg) db calm h m
