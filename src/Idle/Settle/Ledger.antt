-- ===== src/Idle/Settle/Ledger.antt =====
-- What a settlement leaves in the ledger and the outbox: the transaction of `settleSession` of
-- internal/service/idle/idle_service.go over `markSettled` of internal/repository/idle_repo.go.
use hc_framework_go.Prelude.{
  ℕ, ◌≤◌, ◌<◌, ◌≡◌, refl, sym, ◌∙◌, subst, ltb→lt, Bool, true, false, ◌&&◌, not, none, some, List,
  [], ◌∷◌, arith, ◌==◌, if◌then◌else◌, ℤ, pos, count, ==_iff, ==_refl, Bool-cases, inl, inr,
}
use hc_framework_go.Shop.Model.{
  PointsTransaction, PointsOutbox, ReferenceId, order_ref, task_ref, idle_ref, EventId, pts_redeem,
  pts_flash, pts_idle, pts_task,
}
use hc_framework_go.Idle.Session.{
  SessionStatus, is_active, IdleRecord, Store, set_settled, mark_settled,
}
use hc_framework_go.Idle.Settle.{
  IdleService, SettleEnv, mark, elapsed, status_of, reward_row, reward_event, add_reward, is_zero,
}
use hc_framework_go.Idle.Settle.Steps.{owner_of}

-- The user and the points of a settled session that earned any.
abbrev pub earned : ℕ → List IdleRecord → List (ℕ × ℤ)
earned id [] = []
earned id (r ∷ rs) =
    let rest = earned id rs in
    if (r.id == id) && (not (is_active r.status) && not (is_zero r.points_earned))
    then (r.user_id, r.points_earned) ∷ rest
    else rest

abbrev pub is_idle_ref : ℕ → ReferenceId → Bool
is_idle_ref id (idle_ref a) = a == id
is_idle_ref id (order_ref a) = false
is_idle_ref id (task_ref a) = false

abbrev pub is_idle_event : ℕ → EventId → Bool
is_idle_event id (pts_idle a) = a == id
is_idle_event id (pts_redeem a) = false
is_idle_event id (pts_flash a) = false
is_idle_event id (pts_task a b c) = false

-- The users and amounts of the ledger rows of a session.
abbrev pub paid : ℕ → List PointsTransaction → List (ℕ × ℤ)
paid id [] = []
paid id (t ∷ ts) =
    let rest = paid id ts in
    if is_idle_ref id t.reference_id then (t.user_id, t.change_amount) ∷ rest else rest

-- Those of its outbox rows.
abbrev pub sent : ℕ → List PointsOutbox → List (ℕ × ℤ)
sent id [] = []
sent id (e ∷ es) =
    let rest = sent id es in
    if is_idle_event id e.event_id then (e.user_id, e.delta) ∷ rest else rest

abbrev pub rows_with : ℕ → List IdleRecord → ℕ
rows_with id = count (λ (r : IdleRecord). r.id == id)

module _ (id : ℕ) (status : SessionStatus) (end_time : ℕ) (duration points : ℤ)
    (final : is_active status ≡ false) where
  abbrev after_mark : List IdleRecord → List IdleRecord
  after_mark rows = (set_settled id status end_time duration points rows).0

  abbrev changed : List IdleRecord → ℕ
  changed rows = (set_settled id status end_time duration points rows).1

  mark-rows : (e : ℕ) (rows : List IdleRecord) → rows_with e (after_mark rows) ≡ rows_with e rows
  unfolding set_settled
  mark-rows e [] = refl
  mark-rows e (r ∷ rs) = ground (arith, mark-rows e rs)

  mark-owner : (e : ℕ) (rows : List IdleRecord) → owner_of e (after_mark rows) ≡ owner_of e rows
  unfolding set_settled owner_of
  mark-owner e [] = refl
  mark-owner e (r ∷ rs) = ground (arith, mark-owner e rs)

  pub mark-none : (rows : List IdleRecord) → changed rows ≡ 0 → after_mark rows ≡ rows
  unfolding set_settled
  mark-none [] h = refl
  mark-none (r ∷ rs) h = ground (arith, mark-none rs)

  mark_other :
      (e : ℕ) (rows : List IdleRecord)
      → (e == id) ≡ false
      → earned e (after_mark rows) ≡ earned e rows
  unfolding set_settled
  mark_other e [] h = refl
  mark_other e (r ∷ rs) h = ground (arith, mark_other e rs h, ==_iff e id, ==_iff r.id id)

  absent :
      (rows : List IdleRecord) → rows_with id rows ≡ 0 → (earned id rows ≡ []) × (changed rows ≡ 0)
  unfolding set_settled
  absent [] h = (refl, refl)
  absent (r ∷ rs) h = ground (arith, absent rs)

  -- A session that is marked had earned nothing, and earns the points given.
  mark_self :
      (user : ℕ) (rows : List IdleRecord)
      → rows_with id rows ≤ 1
      → 0 < changed rows
      → owner_of id rows ≡ some user
      → (earned id rows ≡ [])
        × (earned id (after_mark rows) ≡ (if is_zero points then [] else (user, points) ∷ []))
  unfolding set_settled owner_of
  mark_self user [] u c o = absurd (omega arith)
  mark_self user (r ∷ rs) u c o = ground (arith, mark_self user rs, absent rs, mark-none rs)

-- The keys of the sessions are distinct and below the next one, and for each session the ledger and
-- the outbox hold what it earned.
pub record IsLedgered (svc : IdleService) (s : Store) : Type 0 where
  pub fresh : (id : ℕ) → s.next_record ≤ id → rows_with id s.records ≡ 0
  pub unique : (id : ℕ) → rows_with id s.records ≤ 1
  pub paid_is : (id : ℕ) → paid id s.transactions ≡ earned id s.records
  pub sent_is : svc.points_on ≡ true → (id : ℕ) → sent id s.outbox ≡ earned id s.records

final_status : (b : Bool) → is_active (status_of b) ≡ false
final_status true = refl
final_status false = refl

pub unknown_key :
    (id : ℕ) (rows : List IdleRecord) → rows_with id rows ≡ 0 → owner_of id rows ≡ none
unfolding owner_of
unknown_key id [] h = refl
unknown_key id (r ∷ rs) h = ground (arith, unknown_key id rs)

module _ (svc : IdleService) (env : SettleEnv) (r : IdleRecord) (is_completed : Bool) (s : Store)
    (l : IsLedgered svc s) (known : owner_of r.id s.records ≡ some r.user_id) where
  module _ (points : ℤ) where
    abbrev status : SessionStatus
    status = status_of is_completed

    final : is_active status ≡ false
    final = final_status is_completed

    abbrev dur : ℤ
    dur = elapsed env.now r

    abbrev marked : List IdleRecord
    marked = (set_settled r.id status env.now dur points s.records).0

    self_paid :
        0 < (set_settled r.id status env.now dur points s.records).1
        → (earned r.id s.records ≡ [])
          × (earned r.id marked ≡ (if is_zero points then [] else (r.user_id, points) ∷ []))
    self_paid c =
        mark_self r.id status env.now dur points final r.user_id s.records (l.unique r.id) c known

    same_rows : (id : ℕ) → rows_with id marked ≡ rows_with id s.records
    same_rows id = mark-rows r.id status env.now dur points final id s.records

    other_earned : (id : ℕ) → (id == r.id) ≡ false → earned id marked ≡ earned id s.records
    other_earned id h = mark_other r.id status env.now dur points final id s.records h

    unmarked : (set_settled r.id status env.now dur points s.records).1 ≡ 0 → marked ≡ s.records
    unmarked = mark-none r.id status env.now dur points final s.records

    reward-paid :
        (id : ℕ)
        → is_zero points ≡ false
        → 0 < (set_settled r.id status env.now dur points s.records).1
        → paid id (reward_row r points ∷ s.transactions) ≡ earned id marked
    unfolding reward_row
    reward-paid id nz c = elim (Bool-cases (id == r.id)) [
      | inl same ↦
          subst (λ i. paid i (reward_row r points ∷ s.transactions) ≡ earned i marked)
            (sym ((==_iff id r.id).0 same))
            (ground (arith, self_paid c, l.paid_is r.id, ==_refl r.id))
      | inr other ↦
          ground (arith, other_earned id other, l.paid_is id, ==_iff r.id id, ==_iff id r.id)
    ]

    reward-sent :
        (id : ℕ)
        → svc.points_on ≡ true
        → is_zero points ≡ false
        → 0 < (set_settled r.id status env.now dur points s.records).1
        → sent id (reward_event env r points ∷ s.outbox) ≡ earned id marked
    unfolding reward_event
    reward-sent id on nz c = elim (Bool-cases (id == r.id)) [
      | inl same ↦
          subst (λ i. sent i (reward_event env r points ∷ s.outbox) ≡ earned i marked)
            (sym ((==_iff id r.id).0 same))
            (ground (arith, self_paid c, l.sent_is on r.id, ==_refl r.id))
      | inr other ↦
          ground (arith, other_earned id other, l.sent_is on id, ==_iff r.id id, ==_iff id r.id)
    ]

  pub reward-IsLedgered :
      (points : ℤ)
      → is_zero points ≡ false
      → (mark env r is_completed points s.records).1 ≡ true
      → IsLedgered svc (add_reward svc env r points (mark env r is_completed points s.records).0 s)
  unfolding mark mark_settled add_reward
  reward-IsLedgered points nz c = record {
    fresh = λ id h. same_rows points id ∙ l.fresh id h;
    unique = λ id. rw (same_rows points id) (l.unique id);
    paid_is = λ id. reward-paid points id nz (ltb→lt 0 _ c);
    sent_is = λ on id. rw on (reward-sent points id on nz (ltb→lt 0 _ c));
  }

  -- Closing it with no points leaves nothing to pay.
  pub close-IsLedgered :
      IsLedgered svc (record s { records = (mark env r is_completed (pos 0) s.records).0 })
  unfolding mark mark_settled
  close-IsLedgered = record {
    fresh = λ id h. same_rows (pos 0) id ∙ l.fresh id h;
    unique = λ id. rw (same_rows (pos 0) id) (l.unique id);
    paid_is = λ id. l.paid_is id ∙ sym (nothing id);
    sent_is = λ on id. l.sent_is on id ∙ sym (nothing id);
  }
    where
      nothing : (id : ℕ) → earned id (marked (pos 0)) ≡ earned id s.records
      nothing id = elim (Bool-cases (id == r.id)) [
        | inl same ↦
            subst (λ i. earned i (marked (pos 0)) ≡ earned i s.records)
              (sym ((==_iff id r.id).0 same)) (ground (arith, self_paid (pos 0), unmarked (pos 0)))
        | inr other ↦ other_earned (pos 0) id other
      ]

  pub mark-kept :
      (points : ℤ) (id : ℕ)
      → owner_of id (mark env r is_completed points s.records).0 ≡ owner_of id s.records
  unfolding mark mark_settled
  mark-kept points id =
      mark-owner r.id (status points) env.now (dur points) points (final points) id s.records
