-- ===== src/Points/Stuck.antt =====
-- Rows that stay `processing`: a claim that nobody finishes, in
-- internal/service/common/points_outbox.go.
use hc_framework_go.Prelude.{
  ℕ, ◌+◌, ◌≡◌, refl, Bool, true, false, Option, none, some, List, [], ◌∷◌, ◌++◌, arith,
  if◌then◌else◌, ℤ,
}
use hc_framework_go.Shop.Model.{PointsOutbox, EventId}
use hc_framework_go.Points.{
  same_event, is_pending, is_processing, claim, mark_done, requeue, Worker, Stage, claiming,
  updating, requeueing, marking, Reply, answered, refused, lost, died, Tables, act, World, Step,
  appended, started, moved, Steps, stop, step, rows_of, to_list, Users, after_update, new_row,
}
use hc_framework_go.Points.Claims.{
  rows_in, any_status, is_done, rows_in_le, claim-pending, claim-flag, no_rows, same_event_eq,
  claim-processing, requeue-pending, requeue-processing, mark_done-pending, mark_done-processing,
  same_event_refl,
}
use hc_framework_go.Points.Once.{
  workers_at, times, around, IsOnce, is_holding, is_marking, fresh_world, Steps-IsOnce,
  fresh-IsOnce,
}

abbrev pub has_claimed : Stage → Bool
has_claimed claiming = false
has_claimed _ = true

-- Tables in which the row of the event is claimed and its balance is as it was.
pub record IsHeld (e : EventId) (t : Tables) : Type 0 where
  pub row : rows_in is_processing e t.outbox ≡ 1
  pub not_pending : rows_in is_pending e t.outbox ≡ 0
  pub never_applied : times e t.applied ≡ 0

-- No worker that claimed it is left.
pub record Abandoned (e : EventId) (s : World) : Type 0 where
  pub held : IsHeld e s.tables
  pub nobody : workers_at has_claimed e s.workers ≡ 0

abbrev HeldAfter : EventId → Tables × Option Worker → Type 0
HeldAfter e (t, o) = IsHeld e t × (workers_at has_claimed e (to_list o) ≡ 0)

module _ (e : EventId) (t : Tables) (w : Worker) (h : IsHeld e t) where
  still : IsHeld e (record t { outbox = (claim w.event t.outbox).0 })
  still = record {
    row = ground (arith, h.row, h.not_pending, claim-processing w.event e t.outbox);
    not_pending = ground (arith, h.not_pending, claim-pending w.event e t.outbox);
    never_applied = h.never_applied;
  }

  claim-HeldAfter :
      (b : Bool)
      → (claim w.event t.outbox).1 ≡ b
      → HeldAfter e (
          if b
          then (
            record t { outbox = (claim w.event t.outbox).0 },
            some (record w { stage = updating }),
          )
          else (record t { outbox = (claim w.event t.outbox).0 }, none))
  claim-HeldAfter true c =
      (still, ground (arith, claim-flag w.event t.outbox c, h.not_pending, same_event_eq w.event e))
  claim-HeldAfter false c = (still, refl)

  update-HeldAfter :
      (next : Stage) (o : Option Users)
      → same_event w.event e ≡ false
      → HeldAfter e (after_update t w next o)
  unfolding after_update
  update-HeldAfter next none d = (h, ground arith)
  update-HeldAfter next (some users') d = (
    record {
      row = h.row;
      not_pending = h.not_pending;
      never_applied = ground (arith, h.never_applied);
    },
    ground arith,
  )

  requeue-HeldAfter :
      same_event w.event e ≡ false
      → HeldAfter e (record t { outbox = requeue w.event t.outbox }, none)
  requeue-HeldAfter d = (
    record {
      row = ground (arith, h.row, requeue-processing w.event e t.outbox);
      not_pending = ground (arith, h.not_pending, requeue-pending w.event e t.outbox);
      never_applied = h.never_applied;
    },
    refl,
  )

  done-HeldAfter :
      same_event w.event e ≡ false
      → HeldAfter e (record t { outbox = mark_done w.event t.outbox }, none)
  done-HeldAfter d = (
    record {
      row = ground (arith, h.row, mark_done-processing w.event e t.outbox);
      not_pending = ground (arith, h.not_pending, mark_done-pending w.event e t.outbox);
      never_applied = h.never_applied;
    },
    refl,
  )

  act-HeldAfter :
      (stage : Stage) (reply : Reply)
      → w.stage ≡ stage
      → workers_at has_claimed e (w ∷ []) ≡ 0
      → HeldAfter e (act stage reply t w)
  unfolding act
  act-HeldAfter stage died s n = (h, refl)
  act-HeldAfter claiming answered s n = claim-HeldAfter (claim w.event t.outbox).1 refl
  act-HeldAfter claiming lost s n = (still, refl)
  act-HeldAfter claiming refused s n = (h, refl)
  act-HeldAfter updating answered s n = update-HeldAfter marking _ (ground arith)
  act-HeldAfter updating lost s n = update-HeldAfter requeueing _ (ground arith)
  act-HeldAfter updating refused s n = (h, ground arith)
  act-HeldAfter requeueing refused s n = (h, refl)
  act-HeldAfter requeueing answered s n = requeue-HeldAfter (ground arith)
  act-HeldAfter requeueing lost s n = requeue-HeldAfter (ground arith)
  act-HeldAfter marking refused s n = (h, refl)
  act-HeldAfter marking answered s n = done-HeldAfter (ground arith)
  act-HeldAfter marking lost s n = done-HeldAfter (ground arith)

appended-IsHeld :
    (e event : EventId) (t : Tables) (user : ℕ) (delta : ℤ) (now : ℕ)
    → rows_of event t.outbox ≡ []
    → IsHeld e t
    → IsHeld e (record t { outbox = new_row event user delta now ∷ t.outbox })
appended-IsHeld e event t user delta now n h = record {
  row = ground (arith, h.row);
  not_pending = ground (
    arith,
    h.not_pending,
    h.row,
    no_rows event t.outbox n,
    rows_in_le is_processing e t.outbox,
    same_event_eq event e,
  );
  never_applied = h.never_applied;
}

Step-Abandoned :
    (can_be : Stage → Reply → Bool) (e : EventId) (s s' : World)
    → Step can_be s s'
    → Abandoned e s
    → Abandoned e s'
Step-Abandoned can_be e _ _ (appended t ws event user delta now n) a = record {
  held = appended-IsHeld e event t user delta now n a.held;
  nobody = a.nobody;
}
Step-Abandoned can_be e _ _ (started t ws event user delta) a = record {
  held = a.held;
  nobody = ground (arith, a.nobody);
}
Step-Abandoned can_be e _ _ (moved t before after w reply allowed) a =
    let split = around has_claimed e before after (w ∷ []) in
    let (held, gone) =
      act-HeldAfter e t w a.held w.stage reply refl (omega (arith, split, a.nobody)) in
    record {
      held = held;
      nobody = omega (
        arith,
        around has_claimed e before after (to_list (act w.stage reply t w).1),
        split,
        a.nobody,
        gone,
      );
    }

Steps-Abandoned :
    (can_be : Stage → Reply → Bool) (e : EventId) (s s' : World)
    → Steps can_be s s'
    → Abandoned e s
    → Abandoned e s'
Steps-Abandoned can_be e s _ (stop _) a = a
Steps-Abandoned can_be e s s' (step {u = u} one rest) a =
    Steps-Abandoned can_be e u s' rest (Step-Abandoned can_be e s u one a)

by_status :
    (e : EventId) (rows : List PointsOutbox)
    → rows_in is_pending e rows + rows_in is_processing e rows + rows_in is_done e rows
      ≡ rows_in any_status e rows
by_status e [] = refl
by_status e (r ∷ rs) = ground (arith, by_status e rs)

by_stage :
    (e : EventId) (ws : List Worker)
    → workers_at has_claimed e ws ≡ workers_at is_holding e ws + workers_at is_marking e ws
by_stage e [] = refl
by_stage e (w ∷ ws) = ground (arith, by_stage e ws)

-- What remains of a world that fits when a worker that holds the event is gone.
left-Abandoned :
    (e : EventId) (t : Tables) (before after : List Worker) (w : Worker)
    → IsOnce e (record { tables = t; workers = before ++ w ∷ after })
    → w.event ≡ e
    → is_holding w.stage ≡ true
    → Abandoned e (record { tables = t; workers = before ++ after })
left-Abandoned e t before after w f same holds = record {
  held = record {
    row = omega (arith, tight, by_status e t.outbox, f.earned);
    not_pending = omega (arith, tight);
    never_applied = omega (arith, tight);
  };
  nobody = omega (
    arith,
    tight,
    f.marked,
    by_stage e (before ++ after),
    around is_holding e before after [],
    around is_marking e before after (w ∷ []),
    around is_marking e before after [],
  );
}
  where
    one : workers_at is_holding e (w ∷ []) ≡ 1
    one = ground (arith, same_event_refl e, same, holds)

    tight :
        (times e t.applied ≡ 0)
        × (rows_in is_pending e t.outbox ≡ 0)
        × (rows_in any_status e t.outbox ≡ 1)
        × (workers_at is_holding e before + workers_at is_holding e after ≡ 0)
    tight =
        let budget = f.budget in
        let split = around is_holding e before after (w ∷ []) in
        (
          omega (arith, budget, split, one, f.unique),
          omega (arith, budget, split, one, f.unique),
          omega (arith, budget, split, one, f.unique),
          omega (arith, budget, split, one, f.unique),
        )

-- As long as no answer of the balance update is lost: a worker that dies after its claim and before
-- the balance update (or the requeue that follows a failed one) leaves the row of its event in
-- `processing` for good: in every world that can follow, with any workers of the relay, the
-- consumers and the fast path, the row is still `processing` and the balance has never been
-- adjusted for it.
pub died_holding :
    (can_be : Stage → Reply → Bool) (users : Users) (t : Tables) (before after : List Worker)
    (w : Worker) (s : World)
    → can_be updating lost ≡ false
    → Steps can_be (fresh_world users) (record { tables = t; workers = before ++ w ∷ after })
    → is_holding w.stage ≡ true
    → Steps can_be
        (record {
          tables = (act w.stage died t w).0;
          workers = before ++ (to_list (act w.stage died t w).1 ++ after);
        })
        s
    → (rows_in is_processing w.event s.tables.outbox ≡ 1) × (times w.event s.tables.applied ≡ 0)
unfolding act
died_holding can_be users t before after w s safe run holds later =
    let f = Steps-IsOnce can_be w.event _ _ safe run (fresh-IsOnce w.event users) in
    let a =
      Steps-Abandoned can_be w.event _ s later
        (left-Abandoned w.event t before after w f refl holds) in
    (a.held.row, a.held.never_applied)
