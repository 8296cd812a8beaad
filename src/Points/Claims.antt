-- ===== src/Points/Claims.antt =====
-- How many rows, workers and adjustments an event id has, under each call of the outbox.
use hc_framework_go.Prelude.{
  ℕ, ◌+◌, ◌≤◌, ◌≡◌, refl, ap, ◌∙◌, Bool, true, false, ◌&&◌, not, List, [], ◌∷◌, arith, count,
  if◌then◌else◌, Bool-cases, inl, inr, ==_refl,
}
use hc_framework_go.Shop.Model.{
  PointsOutbox, EventId, pts_redeem, pts_flash, pts_idle, pts_task, OutboxStatus, pending,
  processing, done,
}
use hc_framework_go.Points.{
  same_event, is_pending, is_processing, set_status, claim, requeue, mark_done, rows_of,
}

pub same_event_refl : (e : EventId) → same_event e e ≡ true
same_event_refl (pts_redeem a) = ==_refl a
same_event_refl (pts_flash a) = ==_refl a
same_event_refl (pts_idle a) = ==_refl a
same_event_refl (pts_task a b c) = rw (==_refl a, ==_refl b, ==_refl c)

pub same_event_eq : (d e : EventId) → same_event d e ≡ true → d ≡ e
same_event_eq (pts_redeem a) (pts_redeem b) h = ground arith
same_event_eq (pts_flash a) (pts_flash b) h = ground arith
same_event_eq (pts_idle a) (pts_idle b) h = ground arith
same_event_eq (pts_task a b c) (pts_task d e f) h = ground arith
same_event_eq d e h = cc

-- How many rows of an event have a status.
abbrev pub rows_in : (OutboxStatus → Bool) → EventId → List PointsOutbox → ℕ
rows_in p event = count (λ r. same_event r.event_id event && p r.status)

abbrev pub any_status : OutboxStatus → Bool
any_status s = true

abbrev pub is_done : OutboxStatus → Bool
is_done done = true
is_done _ = false

module _ (from : OutboxStatus → Bool) (to : OutboxStatus) (event : EventId) where
  changed : (rows : List PointsOutbox) → (set_status from to event rows).1 ≡ rows_in from event rows
  unfolding set_status
  changed [] = refl
  changed (r ∷ rs) = ground (arith, changed rs)

  -- The rows of the event that has been changed.
  own_rows :
      (q : OutboxStatus → Bool) (rows : List PointsOutbox)
      → rows_in q event (set_status from to event rows).0
        ≡ rows_in (λ s. q s && not (from s)) event rows
          + (if q to then rows_in from event rows else 0)
  unfolding set_status
  own_rows q [] = ground arith
  own_rows q (r ∷ rs) = ground (arith, own_rows q rs)

  -- The rows of another.
  other_rows :
      (e : EventId) (q : OutboxStatus → Bool) (rows : List PointsOutbox)
      → same_event event e ≡ false
      → rows_in q e (set_status from to event rows).0 ≡ rows_in q e rows
  unfolding set_status
  other_rows e q [] h = refl
  other_rows e q (r ∷ rs) h = ground (arith, other_rows e q rs h, same_event_eq r.event_id event)

rows_in_ext :
    (p q : OutboxStatus → Bool) (event : EventId) (rows : List PointsOutbox)
    → ((s : OutboxStatus) → p s ≡ q s)
    → rows_in p event rows ≡ rows_in q event rows
rows_in_ext p q event [] h = refl
rows_in_ext p q event (r ∷ rs) h = ground (arith, rows_in_ext p q event rs h, h r.status)

pub rows_in_le :
    (p : OutboxStatus → Bool) (event : EventId) (rows : List PointsOutbox)
    → rows_in p event rows ≤ rows_in any_status event rows
rows_in_le p event [] = omega arith
rows_in_le p event (r ∷ rs) = ground (arith, rows_in_le p event rs)

module _ (from : OutboxStatus → Bool) (to : OutboxStatus) (x e : EventId)
    (q kept : OutboxStatus → Bool) (rows : List PointsOutbox) where
  -- The rows of `e` that have a status of `q` after a change of the rows of `x`, where `kept` is what
  -- of `q` the change leaves alone.
  set-rows :
      ((s : OutboxStatus) → (q s && not (from s)) ≡ kept s)
      → rows_in q e (set_status from to x rows).0 ≡ (
          if same_event x e
          then rows_in kept e rows + (if q to then rows_in from e rows else 0)
          else rows_in q e rows)
  set-rows h = elim (Bool-cases (same_event x e)) [
    | inl same ↦ rw same (
        rw (same_event_eq x e same) (
          own_rows from to e q rows
          ∙ ap (λ (n : ℕ). n + (if q to then rows_in from e rows else 0))
              (rows_in_ext (λ s. q s && not (from s)) kept e rows h)))
    | inr other ↦ rw other (other_rows from to x e q rows other)
  ]

split_by :
    (p : OutboxStatus → Bool) (e : EventId) (rows : List PointsOutbox)
    → rows_in (λ s. not (p s)) e rows + rows_in p e rows ≡ rows_in any_status e rows
split_by p e [] = refl
split_by p e (r ∷ rs) = ground (arith, split_by p e rs)

abbrev no_status : OutboxStatus → Bool
no_status s = false

none_in : (e : EventId) (rows : List PointsOutbox) → rows_in no_status e rows ≡ 0
none_in e [] = refl
none_in e (r ∷ rs) = ground (arith, none_in e rs)

-- The claim of an event with one pending row is won.
pub claim-one :
    (event : EventId) (rows : List PointsOutbox)
    → rows_in is_pending event rows ≡ 1
    → (claim event rows).1 ≡ true
unfolding claim
claim-one event rows h = ground (arith, h, changed is_pending processing event rows)

-- Each call, seen from one event.
module _ (x e : EventId) (rows : List PointsOutbox) where
  pub claim-all : rows_in any_status e (claim x rows).0 ≡ rows_in any_status e rows
  unfolding claim
  claim-all = ground (
    arith,
    set-rows is_pending processing x e any_status (λ s. not (is_pending s)) rows
        (λ s. ground arith),
    split_by is_pending e rows,
  )

  pub claim-pending :
      rows_in is_pending e (claim x rows).0
      ≡ (if same_event x e then 0 else rows_in is_pending e rows)
  unfolding claim
  claim-pending = ground (
    arith,
    set-rows is_pending processing x e is_pending no_status rows (λ s. ground arith),
    none_in e rows,
  )

  pub claim-processing :
      rows_in is_processing e (claim x rows).0
      ≡ rows_in is_processing e rows + (if same_event x e then rows_in is_pending e rows else 0)
  unfolding claim
  claim-processing = ground (
    arith,
    set-rows is_pending processing x e is_processing is_processing rows (λ s. ground arith),
  )

  pub requeue-processing :
      rows_in is_processing e (requeue x rows)
      ≡ (if same_event x e then 0 else rows_in is_processing e rows)
  unfolding requeue
  requeue-processing = ground (
    arith,
    set-rows is_processing pending x e is_processing no_status rows (λ s. ground arith),
    none_in e rows,
  )

  pub mark_done-processing :
      rows_in is_processing e (mark_done x rows)
      ≡ (if same_event x e then 0 else rows_in is_processing e rows)
  unfolding mark_done
  mark_done-processing = ground (
    arith,
    set-rows is_processing done x e is_processing no_status rows (λ s. ground arith),
    none_in e rows,
  )

  pub claim-done : rows_in is_done e (claim x rows).0 ≡ rows_in is_done e rows
  unfolding claim
  claim-done =
      ground (arith, set-rows is_pending processing x e is_done is_done rows (λ s. ground arith))

  pub requeue-all : rows_in any_status e (requeue x rows) ≡ rows_in any_status e rows
  unfolding requeue
  requeue-all = ground (
    arith,
    set-rows is_processing pending x e any_status (λ s. not (is_processing s)) rows
        (λ s. ground arith),
    split_by is_processing e rows,
  )

  pub requeue-pending :
      rows_in is_pending e (requeue x rows)
      ≡ rows_in is_pending e rows + (if same_event x e then rows_in is_processing e rows else 0)
  unfolding requeue
  requeue-pending =
      ground
        (arith, set-rows is_processing pending x e is_pending is_pending rows (λ s. ground arith))

  pub requeue-done : rows_in is_done e (requeue x rows) ≡ rows_in is_done e rows
  unfolding requeue
  requeue-done =
      ground (arith, set-rows is_processing pending x e is_done is_done rows (λ s. ground arith))

  pub mark_done-all : rows_in any_status e (mark_done x rows) ≡ rows_in any_status e rows
  unfolding mark_done
  mark_done-all = ground (
    arith,
    set-rows is_processing done x e any_status (λ s. not (is_processing s)) rows
        (λ s. ground arith),
    split_by is_processing e rows,
  )

  pub mark_done-pending : rows_in is_pending e (mark_done x rows) ≡ rows_in is_pending e rows
  unfolding mark_done
  mark_done-pending =
      ground (arith, set-rows is_processing done x e is_pending is_pending rows (λ s. ground arith))

  pub mark_done-done :
      rows_in is_done e (mark_done x rows)
      ≡ rows_in is_done e rows + (if same_event x e then rows_in is_processing e rows else 0)
  unfolding mark_done
  mark_done-done =
      ground (arith, set-rows is_processing done x e is_done is_done rows (λ s. ground arith))

pub claim-flag :
    (x : EventId) (rows : List PointsOutbox)
    → (claim x rows).1 ≡ true
    → rows_in is_pending x rows ≡ 1
unfolding claim
claim-flag x rows h = ground (arith, changed is_pending processing x rows)

pub no_rows :
    (e : EventId) (rows : List PointsOutbox) → rows_of e rows ≡ [] → rows_in any_status e rows ≡ 0
unfolding rows_of
no_rows e [] h = refl
no_rows e (r ∷ rs) h = ground (arith, no_rows e rs)
