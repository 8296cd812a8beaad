-- ===== src/Points/Relay.antt =====
-- What one run of the relay achieves where every call is answered: `relayOnce` and `tryApply` of
-- internal/service/common/points_outbox.go.
use hc_framework_go.Prelude.{
  ℕ, ◌-◌, ◌≡◌, refl, Bool, true, false, Option, none, some, List, [], ◌∷◌, arith, if◌then◌else◌, ℤ,
  All, pos, negsuc, update, ◌+◌, ◌∙◌, ap,
}
use hc_framework_go.Shop.Model.{PointsOutbox, EventId}
use hc_framework_go.Points.{
  is_pending, is_processing, Tables, Worker, updating, marking, act, claim, mark_done, Users,
  update_points, after_update, same_event,
}
use hc_framework_go.Points.Claims.{
  rows_in, claim-pending, mark_done-pending, same_event_refl, claim-one, claim-processing,
  mark_done-processing,
}
use hc_framework_go.Points.Balance.{Agree, Steps-Agree}
use hc_framework_go.Points.Runs.{try_apply-Steps}
use hc_framework_go.Points.Apply.{
  try_apply, apply_claimed, finish_apply, relay_rows, relay_once, pending_older_than, healthy,
  is_credit, has_user,
}

-- A credit of a user that exists is always applied.
credited :
    (user : ℕ) (delta : ℤ) (users : Users) (o : Option ℕ)
    → users user ≡ o
    → is_credit delta ≡ true
    → has_user users user ≡ true
    → (b : ℕ) × (update_points user delta users ≡ some (update users user (some b)))
unfolding update_points
credited user delta users none e c h = absurd (let h' = rw e at h in cc)
credited user (pos a) users (some b) e c h = (b + a, rw (e, update_points) refl)
credited user (negsuc a) users (some b) e c h = cc

-- The worker that `try_apply` starts, at its second call.
abbrev second : EventId → ℕ → ℤ → Worker
second event user delta = record { event = event; user = user; delta = delta; stage = updating }

-- What the claim leaves, where it is answered.
after_claim :
    (event : EventId) (user : ℕ) (delta : ℤ) (t : Tables) (b : Bool)
    → (claim event t.outbox).1 ≡ b
    → try_apply healthy event user delta t
      ≡ apply_claimed healthy (
          if b
          then (record t { outbox = (claim event t.outbox).0 }, some (second event user delta))
          else (record t { outbox = (claim event t.outbox).0 }, none))
unfolding try_apply act
after_claim event user delta t b h = rw h refl

-- A row that credits a user who exists.
abbrev pub IsCreditOf : Users → PointsOutbox → Type 0
IsCreditOf users r = (is_credit r.delta ≡ true) × (has_user users r.user_id ≡ true)

-- The adjustment that a row asks for.
abbrev pub adjustment : PointsOutbox → Worker
adjustment r = second r.event_id r.user_id r.delta

-- The tables after the try of a row whose credit the database takes.
abbrev tried_tables : PointsOutbox → Tables → Users → Tables
tried_tables r t users' = record t {
  outbox = mark_done r.event_id (claim r.event_id t.outbox).0;
  users = users';
  applied = adjustment r ∷ t.applied;
}

-- A row that is pending, the only one of its event, and credits a user who exists.
abbrev pub IsReady : Tables → PointsOutbox → Type 0
IsReady t r = (rows_in is_pending r.event_id t.outbox ≡ 1) × IsCreditOf t.users r

module _ (t : Tables) (r : PointsOutbox) (ready : IsReady t r) where
  abbrev new_users : Users
  new_users =
      update t.users r.user_id
        (some (credited r.user_id r.delta t.users _ refl ready.1.0 ready.1.1).0)

  updated : update_points r.user_id r.delta t.users ≡ some new_users
  updated = (credited r.user_id r.delta t.users _ refl ready.1.0 ready.1.1).1

  claimed : (claim r.event_id t.outbox).1 ≡ true
  claimed = claim-one r.event_id t.outbox ready.0

  tried_is : try_apply healthy r.event_id r.user_id r.delta t ≡ (tried_tables r t new_users, true)
  unfolding apply_claimed finish_apply act after_update
  tried_is =
      after_claim r.event_id r.user_id r.delta t true claimed
      ∙ ap
          (λ (o : Option Users). finish_apply healthy (
            after_update (record t { outbox = (claim r.event_id t.outbox).0 }) (adjustment r)
              marking o))
          updated

  abbrev next : Tables
  next = (try_apply healthy r.event_id r.user_id r.delta t).0

  next_is : next ≡ tried_tables r t new_users
  next_is = ap (λ (x : Tables × Bool). x.0) tried_is

  next-pending :
      (e : EventId)
      → rows_in is_pending e next.outbox
        ≡ (if same_event r.event_id e then 0 else rows_in is_pending e t.outbox)
  next-pending e =
      ap (λ (x : Tables). rows_in is_pending e x.outbox) next_is
      ∙ mark_done-pending r.event_id e (claim r.event_id t.outbox).0
      ∙ claim-pending r.event_id e t.outbox

  next-processing :
      (e : EventId)
      → rows_in is_processing e next.outbox
        ≡ (if same_event r.event_id e then 0 else rows_in is_processing e t.outbox)
  next-processing e =
      ap (λ (x : Tables). rows_in is_processing e x.outbox) next_is
      ∙ ground (
        arith,
        mark_done-processing r.event_id e (claim r.event_id t.outbox).0,
        claim-processing r.event_id e t.outbox,
      )

  next-user : (v : ℕ) → has_user t.users v ≡ true → has_user next.users v ≡ true
  next-user v k =
      let new : has_user (tried_tables r t new_users).users v ≡ true = ground (arith, k) in
      ap (λ (x : Tables). has_user x.users v) next_is ∙ new

  next-IsReady :
      (s : PointsOutbox) → same_event r.event_id s.event_id ≡ false → IsReady t s → IsReady next s
  next-IsReady s other (one, c) =
      (ground (arith, next-pending s.event_id, other, one), (c.0, next-user s.user_id c.1))

-- No two rows have the same event.
abbrev pub DistinctEvents : List PointsOutbox → Type 0
DistinctEvents [] = Unit
DistinctEvents (r ∷ rs) = All (λ s. same_event r.event_id s.event_id ≡ false) rs × DistinctEvents rs

still-IsReady :
    (t : Tables) (r : PointsOutbox) (ready : IsReady t r) (rs : List PointsOutbox)
    → All (λ s. same_event r.event_id s.event_id ≡ false) rs
    → All (IsReady t) rs
    → All (IsReady (next t r ready)) rs
still-IsReady t r ready [] others rest = tt
still-IsReady t r ready (s ∷ ss) (other, others) (one, rest) =
    (next-IsReady t r ready s other one, still-IsReady t r ready ss others rest)

-- No row of the event is pending or stuck in the middle.
abbrev pub IsSettled : EventId → Tables → Type 0
IsSettled e t = (rows_in is_pending e t.outbox ≡ 0) × (rows_in is_processing e t.outbox ≡ 0)

IsSettled-stays :
    (e : EventId) (rs : List PointsOutbox) (t : Tables)
    → DistinctEvents rs
    → All (IsReady t) rs
    → IsSettled e t
    → IsSettled e (relay_rows healthy rs t)
unfolding relay_rows
IsSettled-stays e [] t d a z = z
IsSettled-stays e (r ∷ rs) t (others, d) (ready, a) (p, q) =
    IsSettled-stays e rs (next t r ready) d (still-IsReady t r ready rs others a)
      (ground (arith, next-pending t r ready e, p), ground (arith, next-processing t r ready e, q))

all-IsSettled :
    (rs : List PointsOutbox) (t : Tables)
    → DistinctEvents rs
    → All (IsReady t) rs
    → All (λ r. IsSettled r.event_id (relay_rows healthy rs t)) rs
unfolding relay_rows
all-IsSettled [] t d a = tt
all-IsSettled (r ∷ rs) t (others, d) (ready, a) =
    let a' = still-IsReady t r ready rs others a in
    (
      IsSettled-stays r.event_id rs (next t r ready) d a' (
        ground (arith, next-pending t r ready r.event_id, same_event_refl r.event_id),
        ground (arith, next-processing t r ready r.event_id, same_event_refl r.event_id),
      ),
      all-IsSettled rs (next t r ready) d a',
    )

-- The adjustments of a list of rows, the last in front.
abbrev pub adjustments : List PointsOutbox → List Worker → List Worker
adjustments [] ws = ws
adjustments (r ∷ rs) ws = adjustments rs (adjustment r ∷ ws)

relay_rows-applied :
    (rs : List PointsOutbox) (t : Tables)
    → DistinctEvents rs
    → All (IsReady t) rs
    → (relay_rows healthy rs t).applied ≡ adjustments rs t.applied
unfolding relay_rows
relay_rows-applied [] t d a = refl
relay_rows-applied (r ∷ rs) t (others, d) (ready, a) =
    let one : (next t r ready).applied ≡ adjustment r ∷ t.applied =
      ap (λ (x : Tables × Bool). x.0.applied) (tried_is t r ready) in
    relay_rows-applied rs (next t r ready) d (still-IsReady t r ready rs others a)
    ∙ ap (adjustments rs) one

rows-Agree :
    (start : Users) (rs : List PointsOutbox) (t : Tables)
    → Agree start t
    → Agree start (relay_rows healthy rs t)
unfolding relay_rows
rows-Agree start [] t a = a
rows-Agree start (r ∷ rs) t a =
    rows-Agree start rs (try_apply healthy r.event_id r.user_id r.delta t).0 (
      Steps-Agree start (λ stage reply. true) _ _
        (try_apply-Steps (λ stage reply. true) healthy (λ stage. refl) [] r.event_id r.user_id
          r.delta t)
        a)

-- One run of the relay with every call answered, where the rows that it selects have different events,
-- each is the only pending row of its event, and each credits a user who exists: it makes exactly the
-- adjustment of each selected row, in their order; no row of their events is pending or processing
-- afterwards; and balances that agree with the adjustments made before agree with all of them at the
-- end.
pub relay_once-drained :
    (now grace : ℕ) (t : Tables)
    → DistinctEvents (pending_older_than (now - grace) 200 t.outbox)
    → All (IsReady t) (pending_older_than (now - grace) 200 t.outbox)
    → (let rows = pending_older_than (now - grace) 200 t.outbox in
        let end = relay_once false healthy now grace t in
        (end.applied ≡ adjustments rows t.applied)
        × All (λ r. IsSettled r.event_id end) rows
        × ((start : Users) → Agree start t → Agree start end))
unfolding relay_once
relay_once-drained now grace t d a =
    let rows = pending_older_than (now - grace) 200 t.outbox in
    (relay_rows-applied rows t d a, all-IsSettled rows t d a, λ start. rows-Agree start rows t)
