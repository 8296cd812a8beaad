-- ===== src/Mq/Progress.antt =====
-- How far a partition has been consumed: `offsetStore` and `SQLProgressStore` of
-- internal/mq/consumer_progress.go, behind the interface `ConsumerProgressStore`, for one partition.
use hc_framework_go.Prelude.{
  ℕ, ◌≤◌, ◌≡◌, refl, Bool, false, ◌||◌, Option, none, some, List, [], ◌∷◌, arith, ltb, max, ◌==◌,
  if◌then◌else◌,
}

-- `ok || off > old`: the next offset to consume, which only grows.
unfoldable pub set_offset : ℕ → Option ℕ → Option ℕ
set_offset off none = some off
set_offset off (some old) = if ltb old off then some off else some old

abbrev pub or_zero : Option ℕ → ℕ
or_zero none = 0
or_zero (some n) = n

-- The operations of a store on the partition, and what a restarted process finds. A call that fails
-- is told so by its first argument.
pub record ProgressStore (S : Type 0) : Type 0 where
  pub get : S → Option ℕ
  pub commit : Bool → Bool → ℕ → Option ℕ → S → S  -- fails, sync, offset, event
  pub seen : ℕ → S → Bool
  pub flush : Bool → S → S
  pub restart : S → S
  -- What the consumer relies on: a restart never finds more than was committed, and a commit raises
  -- the offset to its own at most.
  pub commit-restart :
      (fails sync : Bool) (off : ℕ) (event : Option ℕ) (s : S)
      → or_zero (get (restart s)) ≤ or_zero (get s)
      → (or_zero (get (restart (commit fails sync off event s)))
          ≤ or_zero (get (commit fails sync off event s)))
        × (or_zero (get (commit fails sync off event s)) ≤ max (or_zero (get s)) off)
  pub restart-restart : (s : S) → get (restart (restart s)) ≡ get (restart s)

-- The map in memory and the file.
pub record OffsetStore : Type 0 where
  pub memory : Option ℕ
  pub file : Option ℕ

-- `flush` writes the map to a file of its own and renames it, so that a failure leaves the old file.
unfoldable pub flush_file : Bool → OffsetStore → OffsetStore
flush_file fails s = if fails then s else record s { file = s.memory }

unfoldable pub commit_file : Bool → Bool → ℕ → Option ℕ → OffsetStore → OffsetStore
unfolding set_offset flush_file
commit_file fails sync off event s =
    let s' = record s { memory = set_offset off s.memory } in
    if sync then flush_file fails s' else s'

abbrev pub restart_file : OffsetStore → OffsetStore
restart_file s = record s { memory = s.file }

pub file_commit :
    (fails sync : Bool) (off : ℕ) (event : Option ℕ) (s : OffsetStore)
    → or_zero s.file ≤ or_zero s.memory
    → (let s' = commit_file fails sync off event s in
        (or_zero s'.file ≤ or_zero s'.memory) × (or_zero s'.memory ≤ max (or_zero s.memory) off))
unfolding commit_file set_offset flush_file
file_commit fails sync off event s r = (ground (arith, r), ground arith)

-- The file knows no events.
abbrev pub file_store : ProgressStore OffsetStore
file_store = record {
  get = λ s. s.memory;
  commit = commit_file;
  seen = λ event s. false;
  flush = flush_file;
  restart = restart_file;
  commit-restart = file_commit;
  restart-restart = λ s. refl;
}

-- The row of the partition and the event ids of all partitions.
pub record SqlProgress : Type 0 where
  pub row : Option ℕ
  pub dedup : List ℕ

abbrev pub has : ℕ → List ℕ → Bool
has x [] = false
has x (y ∷ ys) = (y == x) || has x ys

-- INSERT ... ON CONFLICT DO NOTHING; an empty event id is `none`.
unfoldable pub add_event : Option ℕ → List ℕ → List ℕ
add_event none events = events
add_event (some e) events = if has e events then events else e ∷ events

-- One transaction: where a statement fails nothing changes.
unfoldable pub commit_sql : Bool → Bool → ℕ → Option ℕ → SqlProgress → SqlProgress
unfolding set_offset add_event
commit_sql fails sync off event s =
    if fails then s else record s { row = set_offset off s.row; dedup = add_event event s.dedup }

pub sql_commit :
    (fails sync : Bool) (off : ℕ) (event : Option ℕ) (s : SqlProgress)
    → or_zero s.row ≤ or_zero s.row
    → (let s' = commit_sql fails sync off event s in
        (or_zero s'.row ≤ or_zero s'.row) × (or_zero s'.row ≤ max (or_zero s.row) off))
unfolding commit_sql set_offset
sql_commit fails sync off event s r = (omega arith, ground arith)

-- Every commit is written, so that a restart finds all and a flush does nothing.
abbrev pub sql_store : ProgressStore SqlProgress
sql_store = record {
  get = λ s. s.row;
  commit = commit_sql;
  seen = λ event s. has event s.dedup;
  flush = λ fails s. s;
  restart = λ s. s;
  commit-restart = sql_commit;
  restart-restart = λ s. refl;
}
