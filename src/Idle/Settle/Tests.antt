-- ===== src/Idle/Settle/Tests.antt =====
-- A session of ten minutes, settled under a limit of a hundred points.
use hc_framework_go.Prelude.{
  ◌≤◌, ◌≡◌, refl, true, false, none, [], ◌∷◌, length, pos, arith, ◌+ℤ◌, ◌-ℤ◌, to_int64,
}
use hc_framework_go.Shop.Counter.{with_l2}
use hc_framework_go.Idle.Session.{
  IdleRecord, Store, insert_record, new_session, find_one_by, set_settled, mark_settled,
}
use hc_framework_go.Idle.Daily.{
  CounterEnv, get_daily_points_db, try_acquire_daily_points, try_acquire_script,
}
use hc_framework_go.Idle.Settle.{
  IdleService, SettleEnv, commits, reserve, points_for, elapsed, set_counter, settle_statements,
  mark,
}
use hc_framework_go.Idle.Settle.Steps.{
  Run, reserved, decide, takes_effect, owner_of, World, world, opened, begun, settled, Steps, stop,
  step, IsEmpty,
}
use hc_framework_go.Idle.Settle.Ledger.{paid, sent, earned}
use hc_framework_go.Idle.Settle.History.{Steps-paid_once, Steps-sent_as_paid}
use hc_framework_go.Idle.Settle.Limit.{IsCalm, IsClear}
use hc_framework_go.Idle.Settle.Budget.{total_at, IsOther, Steps-within_limit}

abbrev pub svc : IdleService
svc = record {
  points_per_minute = 2;
  daily_points_limit = 100;
  max_devices = 2;
  grace = 60;
  scan_max_settle_per_cycle = 10;
  cache = with_l2;
  points_on = true;
}

abbrev counter_env : CounterEnv
counter_env = record {
  get_fails = false;
  set_fails = false;
  script_fails = false;
  release_fails = false;
  summary_fails = false;
  replica_daily = [];
}

abbrev pub env : SettleEnv
env = record {
  now = 600;
  day = 3;
  later_day = 3;
  counter = counter_env;
  mark_fails = false;
  ledger_fails = false;
  append_fails = false;
  commit = commits;
  upsert_fails = false;
  invalidate_fails = false;
  delete_fails = false;
  remove_fails = false;
}

abbrev pub no_store : Store
no_store = record {
  records = [];
  next_record = 1;
  daily = [];
  transactions = [];
  outbox = [];
  counters = λ day user. none;
  heartbeats = λ user device. false;
  members = λ user device. false;
  cached = λ user device. none;
}

abbrev pub session : IdleRecord
session = record (new_session 7 5 0) { id = 1 }

abbrev pub one_session : Store
one_session = (insert_record (new_session 7 5 0) no_store).0

abbrev run : Run
run = record {
  env = env;
  session = session;
  is_completed = true;
  points = pos 20;
  phase = reserved;
}

pub calm : IsCalm env
unfolding get_daily_points_db
calm = record { same_day = refl; clear = λ p. cc; read = refl; summary = λ user day. refl }

clear : IsClear env
clear = record { same_day = refl; clear = λ p. cc }

abbrev reserved_store : Store
reserved_store = (reserve svc env session one_session).1

abbrev last : World
last = world (decide svc run reserved_store).0 ((decide svc run reserved_store).1 ∷ []) (run ∷ [])

one_settled : Steps svc IsClear (IsOther 3 7) (world no_store [] []) last
unfolding owner_of reserve try_acquire_daily_points try_acquire_script points_for elapsed
    insert_record find_one_by new_session takes_effect settle_statements mark mark_settled
    set_settled set_counter ◌+ℤ◌ to_int64 ◌-ℤ◌
one_settled = step (opened no_store [] [] 7 5 0) (
    step (begun one_session [] [] env session true (pos 20) clear refl refl)
      (step (settled reserved_store [] [] [] run refl refl) (stop _)))

nothing : IsEmpty (world no_store [] [])
nothing = (refl, refl, refl, refl, refl)

Steps-paid_once_example :
    (paid 1 last.store.transactions ≡ earned 1 last.store.records)
    × (length (paid 1 last.store.transactions) ≤ 1)
Steps-paid_once_example = Steps-paid_once svc 1 nothing one_settled

Steps-sent_as_paid_example : sent 1 last.store.outbox ≡ paid 1 last.store.transactions
Steps-sent_as_paid_example = Steps-sent_as_paid svc 1 nothing refl one_settled

Steps-within_limit_example : total_at 3 7 last.effective ≤ 100
Steps-within_limit_example =
    Steps-within_limit svc 3 7 refl refl (omega arith) refl refl one_settled
