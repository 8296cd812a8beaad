-- ===== src/Points/Runs.antt =====
-- `tryApply` of internal/service/common/points_outbox.go, run as one function, is a sequence of steps
-- of the system.
use hc_framework_go.Prelude.{
  ℕ, ◌≡◌, refl, Bool, true, false, Option, none, some, List, [], ◌++◌, arith, ℤ, if◌then◌else◌,
  subst, sym,
}
use hc_framework_go.Shop.Model.{EventId}
use hc_framework_go.Points.{
  Users, Worker, Stage, claiming, updating, requeueing, marking, Reply, answered, refused, lost,
  died, Tables, act, after_update, update_points, claim, World, Step, started, moved, Steps, stop,
  step, to_list,
}
use hc_framework_go.Points.Apply.{try_apply, apply_claimed, finish_apply}

abbrev is_last : Option Worker → Bool
is_last none = true
is_last (some w) = last_stage w.stage
  where
    last_stage : Stage → Bool
    last_stage requeueing = true
    last_stage marking = true
    last_stage _ = false

abbrev is_second : Option Worker → Bool
is_second none = true
is_second (some w) = second_stage w.stage
  where
    second_stage : Stage → Bool
    second_stage updating = true
    second_stage _ = false

update_last :
    (t : Tables) (w : Worker) (o : Option Users) → is_last (after_update t w marking o).1 ≡ true
unfolding after_update
update_last t w none = refl
update_last t w (some users') = refl

lost_last :
    (t : Tables) (w : Worker) (o : Option Users) → is_last (after_update t w requeueing o).1 ≡ true
unfolding after_update
lost_last t w none = refl
lost_last t w (some users') = refl

second_last : (reply : Reply) (t : Tables) (w : Worker) → is_last (act updating reply t w).1 ≡ true
unfolding act
second_last answered t w = update_last t w (update_points w.user w.delta t.users)
second_last lost t w = lost_last t w (update_points w.user w.delta t.users)
second_last refused t w = refl
second_last died t w = refl

claimed_second :
    (t t' : Tables) (w : Worker) (b : Bool)
    → is_second
        (if◌then◌else◌ {A = Tables × Option Worker} b
          (t, some (record w { stage = updating }))
          (t', none)).1
      ≡ true
claimed_second t t' w true = refl
claimed_second t t' w false = refl

first_second :
    (reply : Reply) (t : Tables) (w : Worker) → is_second (act claiming reply t w).1 ≡ true
unfolding act
first_second answered t w = claimed_second _ _ w (claim w.event t.outbox).1
first_second lost t w = refl
first_second refused t w = refl
first_second died t w = refl

ends :
    (stage : Stage) (reply : Reply) (t : Tables) (w : Worker)
    → is_last (some (record w { stage = stage })) ≡ true
    → (act stage reply t w).1 ≡ none
unfolding act
ends claiming reply t w h = cc
ends updating reply t w h = cc
ends requeueing answered t w h = refl
ends requeueing refused t w h = refl
ends requeueing lost t w h = refl
ends requeueing died t w h = refl
ends marking answered t w h = refl
ends marking refused t w h = refl
ends marking lost t w h = refl
ends marking died t w h = refl

module _ (can_be : Stage → Reply → Bool) (replies : Stage → Reply)
    (allowed : (stage : Stage) → can_be stage (replies stage) ≡ true) (ws : List Worker) where
  abbrev world : Tables → Option Worker → World
  world t o = record { tables = t; workers = to_list o ++ ws }

  -- The next call of the worker in front.
  call :
      (t : Tables) (w : Worker)
      → Step can_be
          (world t (some w))
          (world (act w.stage (replies w.stage) t w).0 (act w.stage (replies w.stage) t w).1)
  call t w = moved t [] ws w (replies w.stage) (allowed w.stage)

  third-Steps :
      (t : Tables) (o : Option Worker)
      → is_last o ≡ true
      → Steps can_be (world t o) (world (finish_apply replies (t, o)).0 none)
  unfolding finish_apply
  third-Steps t none h = stop _
  third-Steps t (some w) h = step (call t w) (
      subst
        (λ (o : Option Worker).
          Steps can_be (world (act w.stage (replies w.stage) t w).0 o)
            (world (act w.stage (replies w.stage) t w).0 none))
        (sym (ends w.stage (replies w.stage) t w h)) (stop _))

  second-Steps :
      (t : Tables) (o : Option Worker)
      → is_second o ≡ true
      → Steps can_be (world t o) (world (apply_claimed replies (t, o)).0 none)
  unfolding apply_claimed
  second-Steps t none h = stop _
  second-Steps t (some w) h =
      step (call t w) (third-Steps (act w.stage (replies w.stage) t w).0 _ (last_of w.stage refl))
    where
      last_of : (s : Stage) → w.stage ≡ s → is_last (act w.stage (replies w.stage) t w).1 ≡ true
      last_of updating e = rw e (second_last (replies updating) t (record w { stage = updating }))
      last_of claiming e = absurd (ground arith)
      last_of requeueing e = absurd (ground arith)
      last_of marking e = absurd (ground arith)

  -- A run of `tryApply` whose calls end in ways that the system allows is a sequence of its steps:
  -- it starts a worker beside those at work, makes its calls and leaves the tables that the function
  -- returns, with the worker gone.
  pub try_apply-Steps :
      (event : EventId) (user : ℕ) (delta : ℤ) (t : Tables)
      → Steps can_be
          (record { tables = t; workers = ws })
          (record { tables = (try_apply replies event user delta t).0; workers = ws })
  unfolding try_apply
  try_apply-Steps event user delta t = step (started t ws event user delta) (
      step (call t first) (
        second-Steps (act claiming (replies claiming) t first).0 _
          (first_second (replies claiming) t first)))
    where
      first : Worker
      first = record { event = event; user = user; delta = delta; stage = claiming }
