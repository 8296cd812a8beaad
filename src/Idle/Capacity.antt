-- ===== src/Idle/Capacity.antt =====
-- How many devices of a user are active: `Start` and `evictOldestIfFull` of
-- internal/service/idle/idle_service.go.
use hc_framework_go.Prelude.{
  ok, err, Except, ℕ, ◌+◌, ◌≤◌, ◌<◌, ◌≡◌, refl, ap, Bool, true, Option, none, some, List, [], ◌∷◌,
  arith, ltb, count, length, inl, inr, Bool-cases, ltb→lt,
}
use hc_framework_go.Idle.Session.{IdleRecord, Store, insert_record, new_session}
use hc_framework_go.Idle.Settle.{IdleService, SettleEnv, SettleError, settle_session, invalidate}
use hc_framework_go.Idle.Active.{
  active_count, is_own, length-find_active_all, first-own, Settles, settle-Settles,
}
use hc_framework_go.Idle.Devices.{
  Lookup, find_active_by_device, find_active_all, max_devices, EvictEnv, evict_oldest_if_full,
  StartEnv, create, last_heartbeat, touch_heartbeat, add_active_session, register, registered,
  evict_first, settled_or, opened_behind, started, created, open_session, start, IdleError,
}

module _ (svc : IdleService) (user : ℕ) where
  inserted-count :
      (device now : ℕ) (s : Store)
      → active_count user (insert_record (new_session user device now) s).0.records
        ≤ active_count user s.records + 1
  unfolding insert_record new_session
  inserted-count device now s = ground arith

  heartbeat-count :
      (now u device : ℕ) (rows : List IdleRecord)
      → active_count user (last_heartbeat now u device rows) ≡ active_count user rows
  unfolding last_heartbeat
  heartbeat-count now u device [] = refl
  heartbeat-count now u device (r ∷ rs) = ground (arith, heartbeat-count now u device rs)

  found-count :
      (look : Lookup) (u device : ℕ) (s : Store)
      → (find_active_by_device svc look u device s).1.records ≡ s.records
  unfolding find_active_by_device
  found-count look u device s = ground arith

  create-count :
      (env : StartEnv) (device : ℕ) (s : Store)
      → active_count user (create svc env (new_session user device env.now) s).1.records
        ≤ active_count user s.records + 1
  unfolding create invalidate
  create-count env device s = ground (arith, inserted-count device env.now s)

  created-count :
      (env : StartEnv) (r : IdleRecord) (key : Option ℕ) (s : Store)
      → (created svc env r (key, s)).1.records ≡ s.records
  unfolding created
  created-count env r key s = ground (arith, found-count env.again r.user_id r.device_id s)

  register-count :
      (persist : Bool) (env : StartEnv) (device : ℕ) (s : Store)
      → active_count user (register svc persist env user device s).records
        ≡ active_count user s.records
  unfolding register touch_heartbeat add_active_session
  register-count persist env device s =
      ground (arith, heartbeat-count env.now user device s.records)

  registered-count :
      (persist : Bool) (env : StartEnv) (device : ℕ) (answer : Except IdleError IdleRecord)
      (s : Store)
      → active_count user (registered svc persist env user device answer s).records
        ≡ active_count user s.records
  registered-count persist env device (err e) s = refl
  registered-count persist env device (ok r) s = register-count persist env device s

  open-count :
      (persist : Bool) (env : StartEnv) (device : ℕ) (s : Store)
      → active_count user (open_session svc persist env user device s).1.records
        ≤ active_count user s.records + 1
  unfolding open_session
  open-count persist env device s =
      let r = new_session user device env.now in
      let (key, s1) = create svc env r s in
      let (answer, s2) = created svc env r (key, s1) in
      omega (
        arith,
        registered-count persist env device answer s2,
        ap (active_count user) (created-count env r key s1),
        create-count env device s,
      )

  settled_or-count :
      (env : SettleEnv) (r : IdleRecord) (s : Store) (answer : Except SettleError Bool) (u : Store)
      (copy : IdleRecord)
      → Settles svc env r true user s (u, answer)
      → 1 ≤ count (is_own r.id user) s.records
      → active_count user s.records ≤ max_devices svc
      → (let out = settled_or (record { result = answer; copy = copy; store = u }) in
          (active_count user out.1.records ≤ max_devices svc)
          × (out.0 ≡ ok tt → active_count user out.1.records + 1 ≤ max_devices svc))
  settled_or-count env r s (err e) u copy h own m = (omega (arith, h.fewer), λ x. cc)
  settled_or-count env r s (ok b) u copy h own m =
      (omega (arith, h.fewer), λ x. omega (arith, h.gone b refl))

  evict_first-count :
      (env : SettleEnv) (rows : List IdleRecord) (s : Store)
      → find_active_all user s.records ≡ rows
      → active_count user s.records ≤ max_devices svc
      → 0 < length rows
      → (let out = evict_first svc env rows s in
          (active_count user out.1.records ≤ max_devices svc)
          × (out.0 ≡ ok tt → active_count user out.1.records + 1 ≤ max_devices svc))
  evict_first-count env [] s e m l = absurd (omega arith)
  evict_first-count env (r ∷ rs) s e m l =
      let out = settle_session svc env r true s in
      settled_or-count env r s out.result out.store out.copy (settle-Settles svc env r true user s)
        (first-own user s.records r rs e) m

  at_least_one : 1 ≤ max_devices svc
  unfolding max_devices
  at_least_one = ground arith

  -- The eviction makes room where there is none.
  evict-count :
      (env : EvictEnv) (s : Store)
      → env.sessions ≡ some (find_active_all user s.records)
      → active_count user s.records ≤ max_devices svc
      → (let out = evict_oldest_if_full svc env s in
          (active_count user out.1.records ≤ max_devices svc)
          × (out.0 ≡ ok tt → active_count user out.1.records + 1 ≤ max_devices svc))
  unfolding evict_oldest_if_full
  evict-count env s fresh h =
      let rows = find_active_all user s.records in
      let sum = length-find_active_all user s.records in
      rw fresh (elim (Bool-cases (ltb (length rows) (max_devices svc))) [
        | inl room ↦ rw room (h, λ x. omega (arith, sum, ltb→lt (length rows) _ room))
        | inr full ↦
            rw full
              (evict_first-count env.settle rows s refl h (ground (arith, full, at_least_one)))
      ])

  opened_behind-count :
      (persist : Bool) (env : StartEnv) (device : ℕ) (x : Except IdleError (Unit {0})) (s : Store)
      → active_count user s.records ≤ max_devices svc
      → (x ≡ ok tt → active_count user s.records + 1 ≤ max_devices svc)
      → active_count user (opened_behind svc persist env user device (x, s)).1.records
        ≤ max_devices svc
  opened_behind-count persist env device (err e) s h room = h
  opened_behind-count persist env device (ok u) s h room =
      omega (arith, open-count persist env device s, room refl)

  started-count :
      (persist : Bool) (env : StartEnv) (device : ℕ) (x : Option (Option IdleRecord)) (s : Store)
      → env.evict.sessions ≡ some (find_active_all user s.records)
      → active_count user s.records ≤ max_devices svc
      → active_count user (started svc persist env user device (x, s)).1.records ≤ max_devices svc
  started-count persist env device none s fresh h = h
  started-count persist env device (some (some r)) s fresh h = h
  started-count persist env device (some none) s fresh h =
      let (few, room) = evict-count env.evict s fresh h in
      let (x, s') = evict_oldest_if_full svc env.evict s in
      opened_behind-count persist env device x s' few room

-- With no more active sessions than `max_devices` allows, and a read of them that is up to date,
-- `start` leaves no more than that, whatever it answers and whatever else fails.
pub start-capacity :
    (svc : IdleService) (persist : Bool) (env : StartEnv) (user device : ℕ) (s : Store)
    → env.evict.sessions ≡ some (find_active_all user s.records)
    → active_count user s.records ≤ max_devices svc
    → active_count user (start svc persist env user device s).1.records ≤ max_devices svc
unfolding start
start-capacity svc persist env user device s fresh h =
    let (x, s') = find_active_by_device svc env.first user device s in
    let same = found-count svc user env.first user device s in
    started-count svc user persist env device x s' (rw same fresh) (rw same h)
