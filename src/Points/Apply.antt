-- ===== src/Points/Apply.antt =====
-- A whole run of `tryApply`, and of the relay: internal/service/common/points_outbox.go, `tryApply`
-- and `relayOnce`, with `PendingOlderThan` of internal/repository/points_outbox_repo.go.
use hc_framework_go.Prelude.{
  ℕ, ◌-◌, Bool, true, false, ◌&&◌, Option, none, some, List, [], ◌∷◌, ltb, leb, if◌then◌else◌, ℤ,
  take, select, reverse, pos, negsuc,
}
use hc_framework_go.Shop.Model.{PointsOutbox, EventId}
use hc_framework_go.Points.{
  is_pending, Tables, Worker, Stage, claiming, marking, Reply, act, Users, answered,
}

-- `tryApply` with no other worker between its calls, whose ends are `replies`: the tables it leaves
-- and whether it has adjusted the balance.
unfoldable pub finish_apply : (Stage → Reply) → Tables × Option Worker → Tables × Bool
finish_apply replies (t, none) = (t, false)
finish_apply replies (t, some w) = ((act w.stage (replies w.stage) t w).0, is_marking w.stage)
  where
    is_marking : Stage → Bool
    is_marking marking = true
    is_marking _ = false

unfoldable pub apply_claimed : (Stage → Reply) → Tables × Option Worker → Tables × Bool
unfolding finish_apply
apply_claimed replies (t, none) = (t, false)
apply_claimed replies (t, some w) = finish_apply replies (act w.stage (replies w.stage) t w)

unfoldable pub try_apply : (Stage → Reply) → EventId → ℕ → ℤ → Tables → Tables × Bool
unfolding apply_claimed
try_apply replies event user delta t = apply_claimed replies (
    act claiming (replies claiming) t
      (record { event = event; user = user; delta = delta; stage = claiming }))

-- WHERE status = 'pending' AND created_at < ? ... LIMIT ?; the rows stand with the newest first.
unfoldable pub pending_older_than : ℕ → ℕ → List PointsOutbox → List PointsOutbox
pending_older_than before limit rows =
    take (if leb limit 0 then 200 else limit)
      (reverse (select (λ r. is_pending r.status && ltb r.created_at before) rows))

unfoldable pub relay_rows : (Stage → Reply) → List PointsOutbox → Tables → Tables
relay_rows replies [] t = t
relay_rows replies (r ∷ rs) t =
    relay_rows replies rs (try_apply replies r.event_id r.user_id r.delta t).0

-- `fails` is an error of the query.
unfoldable pub relay_once : Bool → (Stage → Reply) → ℕ → ℕ → Tables → Tables
unfolding pending_older_than relay_rows
relay_once fails replies now grace t =
    if fails then t else relay_rows replies (pending_older_than (now - grace) 200 t.outbox) t

-- Every call is answered.
abbrev pub healthy : Stage → Reply
healthy stage = answered

abbrev pub is_credit : ℤ → Bool
is_credit (pos a) = true
is_credit (negsuc a) = false

abbrev pub has_user : Users → ℕ → Bool
has_user users user = is_some (users user)
  where
    is_some : Option ℕ → Bool
    is_some none = false
    is_some (some b) = true
