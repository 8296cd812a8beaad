-- ===== src/Points/Tests.antt =====
-- Runs of the outbox: one event, a worker that dies behind its claim, and the relay.
use hc_framework_go.Prelude.{◌≡◌, ◌≤◌, refl, Bool, true, false, some, [], ◌∷◌, pos, All}
use hc_framework_go.Shop.Model.{EventId, pts_idle}
use hc_framework_go.Points.{
  Users, Worker, Stage, claiming, updating, requeueing, marking, Reply, answered, lost, Tables, act,
  appended, started, moved, Steps, stop, step, is_processing, rows_of, claim, set_status, new_row,
}
use hc_framework_go.Points.Claims.{rows_in, any_status, is_done}
use hc_framework_go.Points.Once.{times, fresh_world, applied_once}
use hc_framework_go.Points.Balance.{Agree, Steps-Agree}
use hc_framework_go.Points.Stuck.{died_holding}
use hc_framework_go.Points.Apply.{relay_once, pending_older_than, healthy}
use hc_framework_go.Points.Relay.{adjustments, IsSettled, relay_once-drained}

-- Every call may end in any way, but an answer of the balance update is not lost.
abbrev anyhow : Stage → Reply → Bool
anyhow updating lost = false
anyhow _ _ = true

abbrev reward : EventId
reward = pts_idle 9

abbrev one_user : Users
one_user = λ u. some 10

abbrev new_worker : Worker
new_worker = record { event = reward; user = 1; delta = pos 5; stage = claiming }

abbrev waiting : Tables
waiting = record { outbox = new_row reward 1 (pos 5) 100 ∷ []; users = one_user; applied = [] }

abbrev claimed : Tables
claimed = record waiting { outbox = (claim reward waiting.outbox).0 }

-- A row is appended, and a worker starts and claims it.
up_to_claim :
    Steps anyhow
      (fresh_world one_user)
      (record { tables = claimed; workers = record new_worker { stage = updating } ∷ [] })
unfolding rows_of act claim set_status
up_to_claim = step (appended (fresh_world one_user).tables [] reward 1 (pos 5) 100 refl) (
    step (started waiting [] reward 1 (pos 5))
      (step (moved waiting [] [] new_worker answered refl) (stop _)))

applied_once_example :
    (times reward claimed.applied ≤ 1)
    × (rows_in any_status reward claimed.outbox ≤ 1)
    × (rows_in is_done reward claimed.outbox ≤ times reward claimed.applied)
applied_once_example = applied_once anyhow reward one_user _ refl up_to_claim

-- The worker dies, and another finds nothing to claim.
died_holding_example :
    (rows_in is_processing reward claimed.outbox ≡ 1) × (times reward claimed.applied ≡ 0)
unfolding act
died_holding_example =
    died_holding anyhow one_user claimed [] [] (record new_worker { stage = updating })
      (record { tables = claimed; workers = [] }) refl up_to_claim refl (stop _)

Steps-Agree_example : Agree one_user claimed
Steps-Agree_example = Steps-Agree one_user anyhow _ _ up_to_claim (λ u. refl)

anyhow-healthy : (s : Stage) → anyhow s (healthy s) ≡ true
anyhow-healthy claiming = refl
anyhow-healthy updating = refl
anyhow-healthy requeueing = refl
anyhow-healthy marking = refl

relay_once-drained_example :
    ((relay_once false healthy 120 10 waiting).applied
      ≡ adjustments (pending_older_than 110 200 waiting.outbox) [])
    × All
        (λ r. IsSettled r.event_id (relay_once false healthy 120 10 waiting))
        (pending_older_than 110 200 waiting.outbox)
    × ((start : Users)
        → Agree start waiting
        → Agree start (relay_once false healthy 120 10 waiting))
unfolding pending_older_than
relay_once-drained_example = relay_once-drained 120 10 waiting (tt, tt) ((refl, (refl, refl)), tt)
