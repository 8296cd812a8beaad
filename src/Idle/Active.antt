-- ===== src/Idle/Active.antt =====
-- How a settlement changes the number of active sessions of a user: `settleSession` of
-- internal/service/idle/idle_service.go, with `FindActiveAll` of internal/repository/idle_repo.go.
use hc_framework_go.Prelude.{
  ok, Except, ℕ, ◌+◌, ◌≤◌, ◌≡◌, refl, ap, Bool, true, false, ◌&&◌, Option, none, some, List, [],
  ◌∷◌, arith, ◌==◌, ℤ, pos, count, count-le-length, length, select, ==_refl, inl, inr, Bool-cases,
}
use hc_framework_go.Idle.Session.{
  SessionStatus, is_active, IdleRecord, Store, set_settled, mark_settled,
}
use hc_framework_go.Idle.Settle.{
  IdleService, SettleEnv, SettleError, settle_session, settle_granted, settle_tx, settle_statements,
  close_for_nothing, add_reward, mark, acquire, is_zero, status_of, elapsed,
}
use hc_framework_go.Idle.Settle.Grows.{after_tx-SameTables, acquire-SameTables}
use hc_framework_go.Idle.Settle.Ledger.{mark-none}
use hc_framework_go.Idle.Devices.{place, by_start, is_active_of, find_active_all}

-- The active sessions of a user.
abbrev pub active_count : ℕ → List IdleRecord → ℕ
active_count user = count (is_active_of user)

abbrev pub is_own : ℕ → ℕ → IdleRecord → Bool
is_own id user x = (x.id == id) && is_active_of user x

-- A session that is settled is no longer among them.
settled-count :
    (id : ℕ) (status : SessionStatus) (end_time : ℕ) (duration points : ℤ) (user : ℕ)
    (rows : List IdleRecord)
    → is_active status ≡ false
    → active_count user (set_settled id status end_time duration points rows).0
        + count (is_own id user) rows
      ≡ active_count user rows
unfolding set_settled
settled-count id status end_time duration points user [] f = refl
settled-count id status end_time duration points user (r ∷ rs) f =
    ground (arith, settled-count id status end_time duration points user rs f, f)

module _ (p : IdleRecord → Bool) where
  count-place : (r : IdleRecord) (xs : List IdleRecord) → count p (place r xs) ≡ count p (r ∷ xs)
  unfolding place
  count-place r [] = refl
  count-place r (x ∷ xs) = ground (arith, count-place r xs)

  count-by_start : (xs : List IdleRecord) → count p (by_start xs) ≡ count p xs
  unfolding by_start
  count-by_start [] = refl
  count-by_start (x ∷ xs) = ground (arith, count-place x (by_start xs), count-by_start xs)

length-place : (r : IdleRecord) (xs : List IdleRecord) → length (place r xs) ≡ length xs + 1
unfolding place
length-place r [] = omega arith
length-place r (x ∷ xs) = ground (arith, length-place r xs)

length-by_start : (xs : List IdleRecord) → length (by_start xs) ≡ length xs
unfolding by_start
length-by_start [] = refl
length-by_start (x ∷ xs) = omega (arith, length-place x (by_start xs), length-by_start xs)

module _ (user : ℕ) where
  length-active :
      (rows : List IdleRecord)
      → (length (select (is_active_of user) rows) ≡ active_count user rows)
        × (active_count user (select (is_active_of user) rows) ≡ active_count user rows)
  length-active [] = (refl, refl)
  length-active (r ∷ rs) = ground (arith, length-active rs)

  own-select :
      (id : ℕ) (rows : List IdleRecord)
      → count (is_own id user) (select (is_active_of user) rows) ≡ count (is_own id user) rows
  own-select id [] = refl
  own-select id (r ∷ rs) = ground (arith, own-select id rs)

  pub length-find_active_all :
      (rows : List IdleRecord) → length (find_active_all user rows) ≡ active_count user rows
  unfolding find_active_all
  length-find_active_all rows =
      omega (arith, length-by_start (select (is_active_of user) rows), length-active rows)

  -- The first of the active sessions is one of them.
  pub first-own :
      (rows : List IdleRecord) (r : IdleRecord) (rs : List IdleRecord)
      → find_active_all user rows ≡ r ∷ rs
      → 1 ≤ count (is_own r.id user) rows
  unfolding find_active_all
  first-own rows r rs e = ground (
    arith,
    ap length e,
    ap (active_count user) e,
    ap (count (is_own r.id user)) e,
    length-by_start (select (is_active_of user) rows),
    length-active rows,
    own-select r.id rows,
    count-by_start (is_active_of user) (select (is_active_of user) rows),
    count-by_start (is_own r.id user) (select (is_active_of user) rows),
    count-le-length (is_active_of user) rs,
    ==_refl r.id,
  )

final_status : (b : Bool) → is_active (status_of b) ≡ false
final_status true = refl
final_status false = refl

module _ (svc : IdleService) (env : SettleEnv) (r : IdleRecord) (is_completed : Bool)
    (user : ℕ) where
  -- The session is marked, or it was not there to be marked.
  marked-count :
      (points : ℤ) (rows : List IdleRecord)
      → (active_count user (mark env r is_completed points rows).0 + count (is_own r.id user) rows
          ≡ active_count user rows)
        × ((mark env r is_completed points rows).1 ≡ false
            → active_count user rows + count (is_own r.id user) rows ≡ active_count user rows)
  unfolding mark mark_settled
  marked-count points rows =
      let sum =
        settled-count r.id (status_of is_completed) env.now (elapsed env.now r) points user rows
          (final_status is_completed) in
      (
        sum,
        λ h. ground (
          arith,
          h,
          sum,
          mark-none r.id (status_of is_completed) env.now (elapsed env.now r) points
              (final_status is_completed) rows,
        ),
      )

  -- No more sessions are active than before, and one that is answered without an error is not.
  pub record Settles (s : Store) (out : Store × Except SettleError Bool) : Type 0 where
    pub fewer : active_count user out.0.records ≤ active_count user s.records
    pub gone :
        (b : Bool)
        → out.1 ≡ ok b
        → active_count user out.0.records + count (is_own r.id user) s.records
          ≤ active_count user s.records

  close-Settles : (s : Store) → Settles s (close_for_nothing env r is_completed s)
  unfolding close_for_nothing
  close-Settles s = record {
    fewer = ground (arith, marked-count (pos 0) s.records);
    gone = λ b h. ground (arith, h, marked-count (pos 0) s.records);
  }

  tx-Settles : (points : ℤ) (s : Store) → Settles s (settle_tx svc env r is_completed points s)
  unfolding settle_tx settle_statements add_reward
  tx-Settles points s = record {
    fewer = ground (arith, (marked-count points s.records).0);
    gone = λ b h.
        ground (arith, h, (marked-count points s.records).0, (marked-count points s.records).1);
  }

  -- Only the rows of the sessions count.
  same-Settles :
      (s s' u u' : Store) (answer : Except SettleError Bool)
      → s'.records ≡ s.records
      → u'.records ≡ u.records
      → Settles s' (u, answer)
      → Settles s (u', answer)
  same-Settles s s' u u' answer e f h = record {
    fewer = rw (← e, f) h.fewer;
    gone = λ b a. rw (← e, f) (h.gone b a);
  }

  granted-Settles :
      (s s1 : Store) (g : Option ℤ)
      → s1.records ≡ s.records
      → (let out = settle_granted svc env r is_completed (g, s1) in
          Settles s (out.store, out.result))
  unfolding settle_granted
  granted-Settles s s1 none e = record { fewer = rw e (omega arith); gone = λ b h. cc }
  granted-Settles s s1 (some points) e = elim (Bool-cases (is_zero points)) [
    | inl z ↦ rw z (same-Settles s s1 _ _ _ e refl (close-Settles s1))
    | inr z ↦ rw z (
        let (u, answer) = settle_tx svc env r is_completed points s1 in
        let rest = after_tx-SameTables svc env r points answer u in
        same-Settles s s1 _ _ _ e rest.records_are (tx-Settles points s1))
  ]

  pub settle-Settles :
      (s : Store)
      → (let out = settle_session svc env r is_completed s in Settles s (out.store, out.result))
  unfolding settle_session
  settle-Settles s =
      granted-Settles s (acquire svc env r s).1 (acquire svc env r s).0
        (let same = acquire-SameTables svc env r s in same.records_are)
