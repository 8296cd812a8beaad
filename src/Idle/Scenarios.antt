-- ===== src/Idle/Scenarios.antt =====
-- A user at the daily limit, a commit that fails, a third device, and a scan.
use hc_framework_go.Idle.Shards.{times_in}
use hc_framework_go.Idle.Failover.{Scanner, reconcile, reconcile-unseen}
use hc_framework_go.Prelude.{
  ok, ℕ, ◌≤◌, ◌≡◌, refl, Bool, true, false, none, some, List, [], ◌∷◌, pos, arith, ltb,
  if◌then◌else◌, select, ◌+ℤ◌, ◌-ℤ◌, to_int64, ◌+◌, ◌==◌,
}
use hc_framework_go.Idle.Session.{
  Counter, Store, update_two, insert_record, find_one_by, new_session,
}
use hc_framework_go.Idle.Daily.{acquire_daily_points, get_daily_points, try_acquire_script}
use hc_framework_go.Idle.Settle.{SettleEnv, rolls_back, acquire, points_for, elapsed}
use hc_framework_go.Idle.Settle.Tests.{svc, env, session, one_session}
use hc_framework_go.Idle.Devices.{Lookup, StartEnv, start, find_active_all, max_devices}
use hc_framework_go.Idle.Calls.{stop_device}
use hc_framework_go.Idle.Active.{active_count}
use hc_framework_go.Idle.Capacity.{start-capacity}
use hc_framework_go.Idle.Stale.{start-stopped}
use hc_framework_go.Idle.Scan.{
  Member, ScanEnv, is_dead, dead_chunks, collect_dead_sessions, settle_dead_sessions,
}
use hc_framework_go.Idle.Scan.Chunks.{dead_chunks-ends}
use hc_framework_go.Idle.Scan.Ended.{active_total, settle_dead_sessions-ended}

abbrev counter : ℕ → Counter
counter n = record { value = pos n; expires = true }

-- The user has earned `n` points today.
abbrev having : ℕ → Store
having n = record one_session { counters = update_two (λ d u. none) 3 7 (some (counter n)) }

abbrev failing : SettleEnv
failing = record env { commit = rolls_back }

abbrev look : Lookup
look = record { fails = false; fills = true; replica = one_session.records }

abbrev start_env : StartEnv
start_env = record {
  now = 700;
  first = look;
  evict = record { sessions = some (find_active_all 7 one_session.records); settle = env };
  create_fails = false;
  invalidate_fails = false;
  again = look;
  touch_fails = false;
  add_fails = false;
}

few : active_count 7 one_session.records ≤ max_devices svc
unfolding max_devices insert_record find_one_by new_session
few = omega arith

start-capacity_example :
    active_count 7 (start svc false start_env 7 6 one_session).1.records ≤ max_devices svc
start-capacity_example = start-capacity svc false start_env 7 6 one_session refl few

-- The limit is used up, and the cache holds the session.
abbrev capped : Store
capped = record (having 100) { cached = update_two (λ u d. none) 7 5 (some (some session)) }

nothing_left : (acquire svc env session capped).0 ≡ some (pos 0)
unfolding acquire acquire_daily_points get_daily_points try_acquire_script points_for elapsed ◌+ℤ◌
    to_int64 ◌-ℤ◌ new_session
nothing_left = refl

start-stopped_example :
    start svc false start_env 7 5 (stop_device svc env look 7 5 capped).1
    ≡ (ok session, (stop_device svc env look 7 5 capped).1)
unfolding new_session
start-stopped_example =
    start-stopped svc false env start_env look 7 5 capped session (pos 0) refl refl nothing_left
      refl

abbrev members : List Member
members = some (7, 5) ∷ none ∷ some (8, 1) ∷ []

abbrev alive : ℕ → ℕ → Bool
alive user device = if ltb user 8 then true else false

dead_chunks-ends_example :
    (dead_chunks 1 (λ i. false) alive 0 members ≡ select (is_dead alive) members)
    × (collect_dead_sessions (λ i. false) alive members ≡ select (is_dead alive) members)
dead_chunks-ends_example = dead_chunks-ends 1 (λ i. false) alive members (λ j. refl) (omega arith)

abbrev scan_env : ScanEnv
scan_env = record {
  now = 700;
  chunk_fails = λ i. false;
  look = λ u d. look;
  settle = λ id. env;
  remove_fails = false;
}

settle_dead_sessions-ended_example :
    (active_total (settle_dead_sessions svc scan_env members one_session).0.records
        + (settle_dead_sessions svc scan_env members one_session).1
      ≤ active_total one_session.records)
    × ((settle_dead_sessions svc scan_env members one_session).1 ≤ 3)
    × ((settle_dead_sessions svc scan_env members one_session).1 ≤ 10)
settle_dead_sessions-ended_example = settle_dead_sessions-ended svc scan_env members one_session

-- Pod 0 leads three pods; nothing was ever heard of pod 2.
abbrev scanner : Scanner
scanner = record {
  enabled = true;
  failover = true;
  pod_index = 0;
  pod_total = 3;
  set_shards = 16;
  owned = [];
  sees_any = true;
  seen = λ i. i == 0;
}

reconcile-unseen_example : times_in 5 (reconcile (λ i. true) true scanner).owned ≡ 1
reconcile-unseen_example =
    reconcile-unseen (λ i. true) scanner 5 refl (omega arith) (omega arith) refl refl
