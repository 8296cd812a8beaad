-- ===== src/Points/Once.antt =====
-- An adjustment takes effect at most once, however the workers interleave: the claim protocol of
-- internal/service/common/points_outbox.go.
use hc_framework_go.Prelude.{
  ℕ, ◌+◌, ◌≤◌, ◌≡◌, refl, Bool, true, false, ◌&&◌, Option, none, some, List, [], ◌∷◌, ◌++◌, arith,
  count, count-append, if◌then◌else◌, ℤ,
}
use hc_framework_go.Shop.Model.{EventId}
use hc_framework_go.Points.{
  same_event, is_pending, claim, mark_done, requeue, Worker, Stage, claiming, updating, requeueing,
  marking, Reply, answered, refused, lost, died, Tables, act, World, Step, appended, started, moved,
  Steps, stop, step, rows_of, to_list, Users, after_update, update_points, new_row,
}
use hc_framework_go.Points.Claims.{
  rows_in, any_status, is_done, rows_in_le, claim-all, claim-pending, claim-done, claim-flag,
  requeue-all, requeue-pending, requeue-done, mark_done-all, mark_done-pending, mark_done-done,
  same_event_eq, no_rows,
}

-- Workers of an event at stages of a kind.
abbrev pub workers_at : (Stage → Bool) → EventId → List Worker → ℕ
workers_at p event = count (λ w. same_event w.event event && p w.stage)

-- It has the row and has not adjusted the balance.
abbrev pub is_holding : Stage → Bool
is_holding updating = true
is_holding requeueing = true
is_holding _ = false

abbrev pub is_marking : Stage → Bool
is_marking marking = true
is_marking _ = false

-- How often the balance was adjusted for an event.
abbrev pub times : EventId → List Worker → ℕ
times event = count (λ w. same_event w.event event)

-- The tables, with `held` workers of the event that hold it and `marks` that have adjusted.
pub record Fits (e : EventId) (t : Tables) (held marks : ℕ) : Type 0 where
  pub budget :
      times e t.applied + rows_in is_pending e t.outbox + held ≤ rows_in any_status e t.outbox
  pub unique : rows_in any_status e t.outbox ≤ 1
  pub marked : marks ≤ times e t.applied
  pub earned : rows_in is_done e t.outbox ≤ times e t.applied

abbrev pub loses_update : Stage → Reply → Bool
loses_update updating lost = true
loses_update _ _ = false

abbrev held_by : EventId → Option Worker → ℕ
held_by e o = workers_at is_holding e (to_list o)

abbrev marked_by : EventId → Option Worker → ℕ
marked_by e o = workers_at is_marking e (to_list o)

-- What a call leaves behind fits, beside `c` and `m` workers that did not move.
abbrev FitsAfter : EventId → ℕ → ℕ → Tables × Option Worker → Type 0
FitsAfter e c m (t, o) = Fits e t (c + held_by e o) (m + marked_by e o)

module _ (e : EventId) (t : Tables) (w : Worker) (c m : ℕ) where
  dropped-Fits :
      w.stage ≡ claiming
      → Fits e t (c + held_by e (some w)) (m + marked_by e (some w))
      → FitsAfter e c m (record t { outbox = (claim w.event t.outbox).0 }, none)
  dropped-Fits s f = record {
    budget =
        ground (arith, f.budget, claim-all w.event e t.outbox, claim-pending w.event e t.outbox, s);
    unique = omega (arith, f.unique, claim-all w.event e t.outbox);
    marked = ground (arith, f.marked, s);
    earned = omega (arith, f.earned, claim-done w.event e t.outbox);
  }

  claimed-Fits :
      (b : Bool)
      → (claim w.event t.outbox).1 ≡ b
      → w.stage ≡ claiming
      → Fits e t (c + held_by e (some w)) (m + marked_by e (some w))
      → FitsAfter e c m (
          if b
          then (
            record t { outbox = (claim w.event t.outbox).0 },
            some (record w { stage = updating }),
          )
          else (record t { outbox = (claim w.event t.outbox).0 }, none))
  claimed-Fits true h s f = record {
    budget = ground (
      arith,
      f.budget,
      claim-all w.event e t.outbox,
      claim-pending w.event e t.outbox,
      claim-flag w.event t.outbox h,
      s,
      same_event_eq w.event e,
    );
    unique = omega (arith, f.unique, claim-all w.event e t.outbox);
    marked = ground (arith, f.marked, s);
    earned = omega (arith, f.earned, claim-done w.event e t.outbox);
  }
  claimed-Fits false h s f = dropped-Fits s f

  requeued-Fits :
      w.stage ≡ requeueing
      → Fits e t (c + held_by e (some w)) (m + marked_by e (some w))
      → FitsAfter e c m (record t { outbox = requeue w.event t.outbox }, none)
  requeued-Fits s f = record {
    budget = ground (
      arith,
      f.budget,
      f.unique,
      requeue-all w.event e t.outbox,
      requeue-pending w.event e t.outbox,
      rows_in_le is_pending e (requeue w.event t.outbox),
      s,
    );
    unique = omega (arith, f.unique, requeue-all w.event e t.outbox);
    marked = ground (arith, f.marked, s);
    earned = omega (arith, f.earned, requeue-done w.event e t.outbox);
  }

  done-Fits :
      w.stage ≡ marking
      → Fits e t (c + held_by e (some w)) (m + marked_by e (some w))
      → FitsAfter e c m (record t { outbox = mark_done w.event t.outbox }, none)
  done-Fits s f = record {
    budget = ground (
      arith,
      f.budget,
      mark_done-all w.event e t.outbox,
      mark_done-pending w.event e t.outbox,
      s,
    );
    unique = omega (arith, f.unique, mark_done-all w.event e t.outbox);
    marked = ground (arith, f.marked, s);
    earned = ground (
      arith,
      f.earned,
      f.marked,
      f.unique,
      mark_done-all w.event e t.outbox,
      mark_done-done w.event e t.outbox,
      rows_in_le is_done e (mark_done w.event t.outbox),
      s,
    );
  }

  gone-Fits :
      Fits e t (c + held_by e (some w)) (m + marked_by e (some w)) → FitsAfter e c m (t, none)
  gone-Fits f = record {
    budget = omega (arith, f.budget);
    unique = f.unique;
    marked = omega (arith, f.marked);
    earned = f.earned;
  }

  updated-Fits :
      (o : Option Users)
      → w.stage ≡ updating
      → Fits e t (c + held_by e (some w)) (m + marked_by e (some w))
      → FitsAfter e c m (after_update t w marking o)
  unfolding after_update
  updated-Fits none s f = record {
    budget = ground (arith, f.budget, s);
    unique = f.unique;
    marked = ground (arith, f.marked, s);
    earned = f.earned;
  }
  updated-Fits (some users') s f = record {
    budget = ground (arith, f.budget, s);
    unique = f.unique;
    marked = ground (arith, f.marked, s);
    earned = ground (arith, f.earned);
  }

  returned-Fits :
      w.stage ≡ updating
      → Fits e t (c + held_by e (some w)) (m + marked_by e (some w))
      → FitsAfter e c m (t, some (record w { stage = requeueing }))
  returned-Fits s f = record {
    budget = ground (arith, f.budget, s);
    unique = f.unique;
    marked = ground (arith, f.marked, s);
    earned = f.earned;
  }

  act-Fits :
      (stage : Stage) (reply : Reply)
      → w.stage ≡ stage
      → loses_update stage reply ≡ false
      → Fits e t (c + held_by e (some w)) (m + marked_by e (some w))
      → FitsAfter e c m (act stage reply t w)
  unfolding act
  act-Fits stage died s l f = gone-Fits f
  act-Fits claiming answered s l f = claimed-Fits (claim w.event t.outbox).1 refl s f
  act-Fits claiming lost s l f = dropped-Fits s f
  act-Fits claiming refused s l f = gone-Fits f
  act-Fits updating answered s l f = updated-Fits (update_points w.user w.delta t.users) s f
  act-Fits updating lost s l f = cc
  act-Fits updating refused s l f = returned-Fits s f
  act-Fits requeueing answered s l f = requeued-Fits s f
  act-Fits requeueing lost s l f = requeued-Fits s f
  act-Fits requeueing refused s l f = gone-Fits f
  act-Fits marking answered s l f = done-Fits s f
  act-Fits marking lost s l f = done-Fits s f
  act-Fits marking refused s l f = gone-Fits f

-- A world that fits, every event counted.
abbrev pub IsOnce : EventId → World → Type 0
IsOnce e s = Fits e s.tables (workers_at is_holding e s.workers) (workers_at is_marking e s.workers)

pub around :
    (p : Stage → Bool) (e : EventId) (before after ws : List Worker)
    → workers_at p e (before ++ (ws ++ after))
      ≡ (workers_at p e before + workers_at p e after) + workers_at p e ws
around p e before after ws = omega (
  arith,
  count-append (λ w. same_event w.event e && p w.stage) before (ws ++ after),
  count-append (λ w. same_event w.event e && p w.stage) ws after,
)

appended-Fits :
    (e event : EventId) (t : Tables) (user : ℕ) (delta : ℤ) (now held marks : ℕ)
    → rows_of event t.outbox ≡ []
    → Fits e t held marks
    → Fits e (record t { outbox = new_row event user delta now ∷ t.outbox }) held marks
appended-Fits e event t user delta now held marks h f = record {
  budget = ground (arith, f.budget);
  unique = ground (arith, f.unique, no_rows event t.outbox h, same_event_eq event e);
  marked = f.marked;
  earned = ground (arith, f.earned);
}

no_loss :
    (can_be : Stage → Reply → Bool) (stage : Stage) (reply : Reply)
    → can_be updating lost ≡ false
    → can_be stage reply ≡ true
    → loses_update stage reply ≡ false
no_loss can_be updating lost safe allowed = cc
no_loss can_be claiming reply safe allowed = refl
no_loss can_be requeueing reply safe allowed = refl
no_loss can_be marking reply safe allowed = refl
no_loss can_be updating answered safe allowed = refl
no_loss can_be updating refused safe allowed = refl
no_loss can_be updating died safe allowed = refl

Step-IsOnce :
    (can_be : Stage → Reply → Bool) (e : EventId) (s s' : World)
    → can_be updating lost ≡ false
    → Step can_be s s'
    → IsOnce e s
    → IsOnce e s'
Step-IsOnce can_be e _ _ safe (appended t ws event user delta now h) f =
    appended-Fits e event t user delta now _ _ h f
Step-IsOnce can_be e _ _ safe (started t ws event user delta) f = record {
  budget = ground (arith, f.budget);
  unique = f.unique;
  marked = ground (arith, f.marked);
  earned = f.earned;
}
Step-IsOnce can_be e _ _ safe (moved t before after w reply allowed) f =
    rw (around is_holding e before after (to_list o), around is_marking e before after (to_list o))
      (act-Fits e t w (workers_at is_holding e before + workers_at is_holding e after)
        (workers_at is_marking e before + workers_at is_marking e after) w.stage reply refl
        (no_loss can_be w.stage reply safe allowed)
        (rw⁻¹ (around is_holding e before after (w ∷ []), around is_marking e before after (w ∷ []))
          f))
  where
    o : Option Worker
    o = (act w.stage reply t w).1

pub Steps-IsOnce :
    (can_be : Stage → Reply → Bool) (e : EventId) (s s' : World)
    → can_be updating lost ≡ false
    → Steps can_be s s'
    → IsOnce e s
    → IsOnce e s'
Steps-IsOnce can_be e s _ safe (stop _) f = f
Steps-IsOnce can_be e s s' safe (step {u = u} one rest) f =
    Steps-IsOnce can_be e u s' safe rest (Step-IsOnce can_be e s u safe one f)

-- No rows, no workers and no adjustments yet.
abbrev pub fresh_world : Users → World
fresh_world users = record {
  tables = record { outbox = []; users = users; applied = [] };
  workers = [];
}

pub fresh-IsOnce : (e : EventId) (users : Users) → IsOnce e (fresh_world users)
fresh-IsOnce e users = record {
  budget = omega arith;
  unique = omega arith;
  marked = omega arith;
  earned = omega arith;
}

-- From an empty outbox, whatever workers start, interleave, fail, lose answers or die, as long as no
-- answer of the balance update is lost: an event adjusts a balance at most once, its row stands in
-- the outbox at most once, and a row that is done has adjusted it.
pub applied_once :
    (can_be : Stage → Reply → Bool) (e : EventId) (users : Users) (s : World)
    → can_be updating lost ≡ false
    → Steps can_be (fresh_world users) s
    → (times e s.tables.applied ≤ 1)
      × (rows_in any_status e s.tables.outbox ≤ 1)
      × (rows_in is_done e s.tables.outbox ≤ times e s.tables.applied)
applied_once can_be e users s safe run =
    let f = Steps-IsOnce can_be e (fresh_world users) s safe run (fresh-IsOnce e users) in
    (omega (arith, f.budget, f.unique), f.unique, f.earned)
