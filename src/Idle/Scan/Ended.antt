-- ===== src/Idle/Scan/Ended.antt =====
-- How many sessions a scan ends: `settleDeadSessions` of internal/service/idle/idle_service.go.
use hc_framework_go.Prelude.{
  ok, err, Except, ℕ, ◌+◌, ◌≤◌, ◌≡◌, refl, ap, Bool, true, false, Option, none, some, List, [], ◌∷◌,
  arith, ltb, if◌then◌else◌, ℤ, pos, length, take, count, length-take, Bool-cases, inl, inr,
}
use hc_framework_go.Idle.Session.{
  SessionStatus, is_active, IdleRecord, Store, set_settled, mark_settled,
}
use hc_framework_go.Idle.Settle.{
  IdleService, SettleEnv, SettleError, settle_session, settle_granted, settle_tx, settle_statements,
  close_for_nothing, add_reward, mark, acquire, is_zero, status_of, elapsed,
}
use hc_framework_go.Idle.Settle.Grows.{after_tx-SameTables, acquire-SameTables}
use hc_framework_go.Idle.Devices.{find_active_by_device}
use hc_framework_go.Idle.Scan.{
  Member, ScanEnv, in_grace, settle_found, settle_member, settle_members, settle_dead_sessions,
  one_if_applied, remove_active_session,
}

-- The sessions that are active, of all users.
abbrev pub active_total : List IdleRecord → ℕ
active_total = count (λ (r : IdleRecord). is_active r.status)

settled-total :
    (id : ℕ) (status : SessionStatus) (end_time : ℕ) (duration points : ℤ) (rows : List IdleRecord)
    → is_active status ≡ false
    → (let (rows', n) = set_settled id status end_time duration points rows in
        active_total rows' + n ≡ active_total rows)
unfolding set_settled
settled-total id status end_time duration points [] f = refl
settled-total id status end_time duration points (r ∷ rs) f =
    ground (arith, f, settled-total id status end_time duration points rs f)

-- The number counted has been taken off the active sessions.
abbrev Ends : Store → Store → ℕ → Type 0
Ends s u n = active_total u.records + n ≤ active_total s.records

final_status : (b : Bool) → is_active (status_of b) ≡ false
final_status true = refl
final_status false = refl

module _ (svc : IdleService) (env : SettleEnv) (r : IdleRecord) (is_completed : Bool) where
  marked-total :
      (points : ℤ) (rows : List IdleRecord)
      → (let (rows', b) = mark env r is_completed points rows in
          active_total rows' + (if b then 1 else 0) ≤ active_total rows)
  unfolding mark mark_settled
  marked-total points rows = ground (
    arith,
    settled-total r.id (status_of is_completed) env.now (elapsed env.now r) points rows
        (final_status is_completed),
  )

  close-Ends :
      (s : Store)
      → (let (u, x) = close_for_nothing env r is_completed s in Ends s u (one_if_applied x))
  unfolding close_for_nothing
  close-Ends s = ground (arith, marked-total (pos 0) s.records)

  tx-Ends :
      (points : ℤ) (s : Store)
      → (let (u, x) = settle_tx svc env r is_completed points s in Ends s u (one_if_applied x))
  unfolding settle_tx settle_statements add_reward
  tx-Ends points s = ground (arith, marked-total points s.records)

  granted-Ends :
      (s s1 : Store) (g : Option ℤ)
      → s1.records ≡ s.records
      → (let out = settle_granted svc env r is_completed (g, s1) in
          Ends s out.store (one_if_applied out.result))
  unfolding settle_granted
  granted-Ends s s1 none e = omega (arith, ap active_total e)
  granted-Ends s s1 (some points) e = elim (Bool-cases (is_zero points)) [
    | inl z ↦ rw z (omega (arith, ap active_total e, close-Ends s1))
    | inr z ↦ rw z (
        let (u, answer) = settle_tx svc env r is_completed points s1 in
        let rest = after_tx-SameTables svc env r points answer u in
        omega (arith, ap active_total e, ap active_total rest.records_are, tx-Ends points s1))
  ]

  settle-Ends :
      (s : Store)
      → (let out = settle_session svc env r is_completed s in
          Ends s out.store (one_if_applied out.result))
  unfolding settle_session
  settle-Ends s =
      let same = acquire-SameTables svc env r s in
      granted-Ends s (acquire svc env r s).1 (acquire svc env r s).0 same.records_are

applied-le : (x : Except SettleError Bool) → one_if_applied x ≤ 1
applied-le (err e) = omega arith
applied-le (ok true) = omega arith
applied-le (ok false) = omega arith

module _ (svc : IdleService) (env : ScanEnv) where
  -- At most one session is counted for a member, and it has ended.
  found-Ends :
      (user device : ℕ) (x : Option (Option IdleRecord)) (s : Store)
      → (let (u, n) = settle_found svc env user device (x, s) in Ends s u n × (n ≤ 1))
  unfolding settle_found remove_active_session
  found-Ends user device none s = (ground arith, omega arith)
  found-Ends user device (some none) s = (ground arith, omega arith)
  found-Ends user device (some (some r)) s = elim (Bool-cases (in_grace svc env.now r)) [
    | inl g ↦ rw g (omega arith, omega arith)
    | inr g ↦ rw g (settle-Ends svc (env.settle r.id) r false s, applied-le _)
  ]

  looked-up :
      (user device : ℕ) (s : Store)
      → (find_active_by_device svc (env.look user device) user device s).1.records ≡ s.records
  unfolding find_active_by_device
  looked-up user device s = ground arith

  member-Ends :
      (m : Member) (s : Store) → (let (u, n) = settle_member svc env m s in Ends s u n × (n ≤ 1))
  unfolding settle_member
  member-Ends none s = (omega arith, omega arith)
  member-Ends (some (user, device)) s =
      let (x, s1) = find_active_by_device svc (env.look user device) user device s in
      let (ends, one) = found-Ends user device x s1 in
      (omega (arith, ends, ap active_total (looked-up user device s)), one)

  members-Ends :
      (ms : List Member) (s : Store)
      → (let (u, n) = settle_members svc env ms s in Ends s u n × (n ≤ length ms))
  unfolding settle_members
  members-Ends [] s = (omega arith, omega arith)
  members-Ends (m ∷ ms) s =
      let (ends, one) = member-Ends m s in
      let (rest, few) = members-Ends ms (settle_member svc env m s).0 in
      (omega (arith, ends, rest), omega (arith, one, few))

-- A scan counts no more sessions than there are dead members, nor, with a budget, than the budget
-- allows; and for each session that it counts there is one active session less.
pub settle_dead_sessions-ended :
    (svc : IdleService) (env : ScanEnv) (dead : List Member) (s : Store)
    → (let (u, n) = settle_dead_sessions svc env dead s in
        (active_total u.records + n ≤ active_total s.records)
        × (n ≤ length dead)
        × (n ≤ (
            if ltb 0 svc.scan_max_settle_per_cycle
            then svc.scan_max_settle_per_cycle
            else length dead)))
unfolding settle_dead_sessions
settle_dead_sessions-ended svc env dead s = ground (
  arith,
  members-Ends svc env dead s,
  members-Ends svc env (take svc.scan_max_settle_per_cycle dead) s,
  length-take svc.scan_max_settle_per_cycle dead,
)
