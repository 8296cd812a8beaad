-- ===== src/Idle/Scan.antt =====
-- The scanner of dead sessions: `ScanAndSettleTimeout`, `scanTimeoutByRedis`, `collectDeadSessions`,
-- `settleDeadSessions`, `scanTimeoutByDB`, `handleHBExpired` and `BackfillActiveSessions` of
-- internal/service/idle/idle_service.go, with `BatchHeartbeatAlive` and `FindStaleActive` of
-- internal/repository/idle_repo.go. The workers of a scan are modelled one after the other; runs that
-- interleave are those of Settle/Steps.
pub mod Chunks
pub mod Ended
use hc_framework_go.Prelude.{
  ok, err, Except, ℕ, zero, suc, ◌+◌, ◌-◌, ◌≡◌, Bool, true, false, ◌&&◌, ◌||◌, not, Option, none,
  some, List, [], ◌∷◌, ◌++◌, ltb, leb, ◌==◌, if◌then◌else◌, length, take, drop, select,
}
use hc_framework_go.Shop.Counter.{has_l2}
use hc_framework_go.Idle.Session.{is_active, IdleRecord, Store, update_two}
use hc_framework_go.Idle.Settle.{IdleService, SettleEnv, SettleError, Settled, settle_session}
use hc_framework_go.Idle.Devices.{
  Lookup, find_active_by_device, by_start, touch_heartbeat, add_active_session,
}

-- A member of the active set: user and device, `none` where it does not parse.
abbrev pub Member : Type 0
Member = Option (ℕ × ℕ)

unfoldable pub is_dead : (ℕ → ℕ → Bool) → Member → Bool
is_dead alive none = false
is_dead alive (some (user, device)) = not (alive user device)

-- The members with no heartbeat, `none` for an error of the pipeline.
unfoldable pub batch_heartbeat_alive : Bool → (ℕ → ℕ → Bool) → List Member → Option (List Member)
unfolding is_dead
batch_heartbeat_alive fails alive members =
    if fails then none else some (select (is_dead alive) members)

abbrev pub hb_batch_size : ℕ
hb_batch_size = 1000

abbrev or_skip : Option (List Member) → List Member
or_skip none = []
or_skip (some dead) = dead

-- The rounds of the loop from the index `i` on, where `fails i` is the error of the chunk at `i`.
unfoldable pub dead_chunks : ℕ → (ℕ → Bool) → (ℕ → ℕ → Bool) → ℕ → List Member → List Member
unfolding batch_heartbeat_alive
dead_chunks zero fails alive i members = []
dead_chunks (suc fuel) fails alive i members =
    let rest = dead_chunks fuel fails alive (i + hb_batch_size) members in
    if ltb i (length members)
    then or_skip (batch_heartbeat_alive (fails i) alive (take hb_batch_size (drop i members)))
      ++ rest
    else []

-- A round for each member is more than the loop makes.
unfoldable pub collect_dead_sessions : (ℕ → Bool) → (ℕ → ℕ → Bool) → List Member → List Member
unfolding dead_chunks
collect_dead_sessions fails alive members = dead_chunks (length members) fails alive 0 members

pub record ScanEnv : Type 0 where
  pub now : ℕ
  pub chunk_fails : ℕ → Bool
  pub look : ℕ → ℕ → Lookup
  pub settle : ℕ → SettleEnv  -- by the key of the session
  pub remove_fails : Bool

-- `now.Sub(rec.StartTime) <= grace`, with a grace above 0.
abbrev pub in_grace : IdleService → ℕ → IdleRecord → Bool
in_grace svc now r = ltb 0 svc.grace && leb now (r.start_time + svc.grace)

unfoldable pub remove_active_session : IdleService → Bool → ℕ → ℕ → Store → Store
remove_active_session svc fails user device s =
    if has_l2 svc.cache && not fails
    then record s { members = update_two s.members user device false }
    else s

abbrev one_if_applied : Except SettleError Bool → ℕ
one_if_applied (ok true) = 1
one_if_applied _ = 0

unfoldable pub settle_found :
    IdleService → ScanEnv → ℕ → ℕ → Option (Option IdleRecord) × Store → Store × ℕ
unfolding remove_active_session settle_session
settle_found svc env user device (none, s) =
    (remove_active_session svc env.remove_fails user device s, 0)
settle_found svc env user device (some none, s) =
    (remove_active_session svc env.remove_fails user device s, 0)
settle_found svc env user device (some (some r), s) =
    if in_grace svc env.now r
    then (s, 0)
    else (let out = settle_session svc (env.settle r.id) r false s in
        (out.store, one_if_applied out.result))

-- One member, with the number of sessions that its settlement has ended.
unfoldable pub settle_member : IdleService → ScanEnv → Member → Store → Store × ℕ
unfolding find_active_by_device settle_found
settle_member svc env none s = (s, 0)
settle_member svc env (some (user, device)) s =
    settle_found svc env user device
      (find_active_by_device svc (env.look user device) user device s)

unfoldable pub settle_members : IdleService → ScanEnv → List Member → Store → Store × ℕ
unfolding settle_member
settle_members svc env [] s = (s, 0)
settle_members svc env (m ∷ ms) s =
    let (s', n) = settle_member svc env m s in
    let (s'', k) = settle_members svc env ms s' in (s'', n + k)

-- The budget of a cycle; what is beyond it waits for the next.
unfoldable pub settle_dead_sessions : IdleService → ScanEnv → List Member → Store → Store × ℕ
unfolding settle_members
settle_dead_sessions svc env dead s =
    settle_members svc env
      (if ltb 0 svc.scan_max_settle_per_cycle && ltb svc.scan_max_settle_per_cycle (length dead)
        then take svc.scan_max_settle_per_cycle dead
        else dead)
      s

-- `members` is what the scan of the sets of this pod reads, `none` for an error.
unfoldable pub scan_timeout_by_redis :
    IdleService → ScanEnv → Option (List Member) → Store → Option ℕ × Store
unfolding collect_dead_sessions settle_dead_sessions
scan_timeout_by_redis svc env none s = (none, s)
scan_timeout_by_redis svc env (some members) s =
    let (s', n) =
      settle_dead_sessions svc env (collect_dead_sessions env.chunk_fails s.heartbeats members) s in
    (some n, s')

abbrev is_before : ℕ → ℕ → Option ℕ → Bool
is_before before start none = ltb start before
is_before before start (some at) = ltb at before

-- WHERE status = 'active' AND (last_heartbeat_at < ? OR (last_heartbeat_at IS NULL AND start_time < ?))
unfoldable pub find_stale_active : ℕ → List IdleRecord → List IdleRecord
unfolding by_start
find_stale_active before rows =
    by_start
      (select (λ r. is_active r.status && is_before before r.start_time r.last_heartbeat_at) rows)

unfoldable pub settle_stale : IdleService → (ℕ → SettleEnv) → List IdleRecord → Store → Store × ℕ
unfolding settle_session
settle_stale svc envs [] s = (s, 0)
settle_stale svc envs (r ∷ rs) s =
    let out = settle_session svc (envs r.id) r false s in
    let (s', k) = settle_stale svc envs rs out.store in (s', one_if_applied out.result + k)

-- `replica` is what the query reads, `none` for an error.
unfoldable pub scan_timeout_by_db :
    IdleService → (ℕ → SettleEnv) → ℕ → Option (List IdleRecord) → Store → Option ℕ × Store
unfolding find_stale_active settle_stale
scan_timeout_by_db svc envs before none s = (none, s)
scan_timeout_by_db svc envs before (some replica) s =
    let (s', n) = settle_stale svc envs (find_stale_active before replica) s in (some n, s')
