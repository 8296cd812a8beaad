-- ===== src/Idle/Settle/Steps.antt =====
-- Settlements that interleave: runs of `settleSession` of internal/service/idle/idle_service.go,
-- each of which may be overtaken by others between its calls, or end there with its process.
use hc_framework_go.Prelude.{
  ok, err, Except, ℕ, Bool, true, false, ◌&&◌, Option, none, some, List, [], ◌∷◌, ◌++◌, ◌≡◌, ◌==◌,
  if◌then◌else◌, ℤ,
}
use hc_framework_go.Idle.Session.{
  IdleRecord, IdleDailyPoints, Store, Counter, insert_record, new_session,
}
use hc_framework_go.Idle.Settle.{
  IdleService, SettleEnv, SettleError, Commit, rolls_back, reserve, set_counter, settle_statements,
  settle_tx, after_tx, close_for_nothing, is_zero,
}

-- Behind the reservation, or behind the transaction with its answer.
pub data Phase : Type 0 where
  reserved : Phase
  decided : Except SettleError Bool → Phase

pub record Run : Type 0 where
  pub env : SettleEnv
  pub session : IdleRecord
  pub is_completed : Bool
  pub points : ℤ
  pub phase : Phase

abbrev pub answer_of : Except SettleError (Store × Bool) → Bool
answer_of (err e) = false
answer_of (ok (s, applied)) = applied

abbrev pub is_kept : Commit → Bool
is_kept rolls_back = false
is_kept _ = true

-- Whether the transaction that the run is about to make takes effect.
unfoldable pub takes_effect : IdleService → Run → Store → Bool
takes_effect svc run s =
    is_kept run.env.commit
    && answer_of (settle_statements svc run.env run.session run.is_completed run.points s)

-- The tables and the run behind its transaction.
unfoldable pub decide : IdleService → Run → Store → Store × Run
decide svc run s =
    let (s', answer) = settle_tx svc run.env run.session run.is_completed run.points s in
    (s', record run { phase = decided answer })

-- The owner of a session, by its key.
unfoldable pub owner_of : ℕ → List IdleRecord → Option ℕ
owner_of id [] = none
owner_of id (r ∷ rs) = let rest = owner_of id rs in if r.id == id then some r.user_id else rest

-- `effective` lists the runs whose transaction took effect, which no table does.
pub record World : Type 0 where
  pub store : Store
  pub runs : List Run
  pub effective : List Run

abbrev pub world : Store → List Run → List Run → World
world s runs effective = record { store = s; runs = runs; effective = effective }

-- A session is opened; something happens to what no settlement reads; a counter expires, is lost, or is
-- set by a run that found none before to what it read of the summary, however old; a settlement of a
-- copy of some row reserves its points by the script, or that fails; a run whose points are zero closes the session, one
-- with points makes its transaction, and one behind it does the rest; a run ends with its process.
pub data Step (svc : IdleService) (Allowed : SettleEnv → Type 0) (Sets : ℕ → ℕ → Type 0)
    : World → World → Type 0 where
  opened :
      (s : Store) (runs effective : List Run) (user device now : ℕ)
      → Step svc Allowed Sets
          (world s runs effective)
          (world (insert_record (new_session user device now) s).0 runs effective)
  others :
      (s : Store) (runs effective : List Run) (heartbeats members : ℕ → ℕ → Bool)
      (cached : ℕ → ℕ → Option (Option IdleRecord)) (daily : List IdleDailyPoints)
      → Step svc Allowed Sets (world s runs effective) (
          world
            (record s {
              heartbeats = heartbeats;
              members = members;
              cached = cached;
              daily = daily;
            })
            runs
            effective)
  recounted :
      (s : Store) (runs effective : List Run) (day user : ℕ) (c : Option Counter)
      → Sets day user
      → Step svc Allowed Sets
          (world s runs effective)
          (world (set_counter day user c s) runs effective)
  begun :
      (s : Store) (runs effective : List Run) (env : SettleEnv) (r : IdleRecord)
      (is_completed : Bool) (points : ℤ)
      → Allowed env
      → owner_of r.id s.records ≡ some r.user_id
      → (reserve svc env r s).0 ≡ some points
      → Step svc Allowed Sets (world s runs effective) (
          world
            (reserve svc env r s).1
            (record {
              env = env;
              session = r;
              is_completed = is_completed;
              points = points;
              phase = reserved;
            }
              ∷ runs)
            effective)
  failed :
      (s : Store) (runs effective : List Run) (env : SettleEnv) (r : IdleRecord)
      → Allowed env
      → (reserve svc env r s).0 ≡ none
      → Step svc Allowed Sets
          (world s runs effective)
          (world (reserve svc env r s).1 runs effective)
  closed :
      (s : Store) (before after effective : List Run) (run : Run)
      → run.phase ≡ reserved
      → is_zero run.points ≡ true
      → Step svc Allowed Sets (world s (before ++ run ∷ after) effective) (
          world
            (close_for_nothing run.env run.session run.is_completed s).0
            (before ++ after)
            effective)
  settled :
      (s : Store) (before after effective : List Run) (run : Run)
      → run.phase ≡ reserved
      → is_zero run.points ≡ false
      → Step svc Allowed Sets (world s (before ++ run ∷ after) effective) (
          world
            (decide svc run s).0
            (before ++ (decide svc run s).1 ∷ after)
            (if takes_effect svc run s then run ∷ effective else effective))
  finished :
      (s : Store) (before after effective : List Run) (run : Run) (answer : Except SettleError Bool)
      → run.phase ≡ decided answer
      → Step svc Allowed Sets
          (world s (before ++ run ∷ after) effective)
          (world (after_tx svc run.env run.session run.points answer s) (before ++ after) effective)
  died :
      (s : Store) (before after effective : List Run) (run : Run)
      → Step svc Allowed Sets
          (world s (before ++ run ∷ after) effective)
          (world s (before ++ after) effective)

pub data Steps (svc : IdleService) (Allowed : SettleEnv → Type 0) (Sets : ℕ → ℕ → Type 0)
    : World → World → Type 0 where
  stop : (s : World) → Steps svc Allowed Sets s s
  step :
      {s u v : World}
      → Step svc Allowed Sets s u
      → Steps svc Allowed Sets u v
      → Steps svc Allowed Sets s v

-- Tables with no session yet, and nobody at work.
abbrev pub IsEmpty : World → Type 0
IsEmpty w =
    (w.store.records ≡ [])
    × (w.store.transactions ≡ [])
    × (w.store.outbox ≡ [])
    × (w.runs ≡ [])
    × (w.effective ≡ [])
