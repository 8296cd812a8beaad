-- ===== src/Mq/Dlq.antt =====
-- The dead letters of a producer, kept in a file for each topic: internal/mq/dlq.go.
-- A file is the list of its lines, and `none` where there is no file. `append`, and the parts of a
-- replay, are steps of their own, since appends may come between them and the process may end there.
pub mod Kept
use hc_framework_go.Prelude.{
  ℕ, suc, ◌+◌, Bool, true, false, ◌&&◌, ◌||◌, not, Option, none, some, List, [], ◌∷◌, ◌++◌, ltb,
  leb, if◌then◌else◌, take, ℤ, pos, ◌+ℤ◌, ◌-ℤ◌,
}

-- A line with the key of its message; `parses` says that a replay can read it.
pub record Line : Type 0 where
  pub key : ℕ
  pub size : ℕ
  pub parses : Bool

-- The files of a topic: the main one, the snapshot of a replay and the corrupt one; the gauge of the
-- backlog, and the messages that the broker has taken, which no file keeps.
pub record DlqStore : Type 0 where
  pub main : Option (List Line)
  pub replaying : Option (List Line)
  pub corrupt : Option (List Line)
  pub backlog : ℤ
  pub relayed : List Line

-- The calls on the file system that fail; `written` is how many lines a write back gets out.
pub record FileEnv : Type 0 where
  pub marshal_fails : Bool
  pub open_fails : Bool
  pub write_fails : Bool
  pub rename_fails : Bool
  pub read_fails : Bool
  pub written : ℕ
  pub scanned : Option ℕ  -- the lines that are read where the scan breaks off

abbrev pub lines_of : Option (List Line) → List Line
lines_of none = []
lines_of (some lines) = lines

unfoldable pub bytes_of : List Line → ℕ
bytes_of [] = 0
bytes_of (l ∷ ls) = l.size + 1 + bytes_of ls

-- A limit of 0 is none, and a file that is not there is not checked.
abbrev pub exceeds : ℕ → Line → Option (List Line) → Bool
exceeds max_bytes line none = false
exceeds max_bytes line (some lines) =
    ltb 0 max_bytes && ltb max_bytes (bytes_of lines + line.size + 1)

-- Whether the line was put into the file, with the store.
unfoldable pub append : FileEnv → ℕ → Line → DlqStore → DlqStore × Bool
unfolding bytes_of
append env max_bytes line d =
    if env.marshal_fails || (exceeds max_bytes line d.main || (env.open_fails || env.write_fails))
    then (d, false)
    else (
      record d { main = some (lines_of d.main ++ line ∷ []); backlog = d.backlog +ℤ pos 1 },
      true,
    )

-- The snapshot that an earlier process left goes back to the main file, and is removed whether or not
-- that went well.
unfoldable pub recover_leftovers : FileEnv → DlqStore → DlqStore
recover_leftovers env d = elim d.replaying [
  | none ↦ d
  | some lines ↦ if env.read_fails then d else record d {
    main =
        if env.open_fails
        then d.main
        else some (lines_of d.main ++ (if env.write_fails then [] else lines));
    replaying = none;
  }
]

-- The rename of the main file to the snapshot.
unfoldable pub rename_main : FileEnv → DlqStore → DlqStore
rename_main env d = elim d.main [
  | none ↦ d
  | some lines ↦ if env.rename_fails then d else record d { main = none; replaying = some lines }
]

-- The lines that are kept and those that are relayed. `relays i` is whether the broker takes the line
-- `i`; `stop` is that it has refused one.
unfoldable pub drain_lines : ℕ → (ℕ → Bool) → ℕ → ℕ → Bool → List Line → List Line × List Line
drain_lines batch_max relays i recovered stop [] = ([], [])
drain_lines batch_max relays i recovered stop (l ∷ ls) =
    let again = drain_lines batch_max relays (suc i) recovered stop ls in
    let sent = drain_lines batch_max relays (suc i) (suc recovered) stop ls in
    let stopped = drain_lines batch_max relays (suc i) recovered true ls in
    if stop || ((ltb 0 batch_max && leb batch_max recovered) || not l.parses)
    then (l ∷ again.0, again.1)
    else if relays i
    then (sent.0, l ∷ sent.1)
    else (l ∷ stopped.0, stopped.1)

abbrev pub length_ℤ : List Line → ℤ
length_ℤ [] = pos 0
length_ℤ (l ∷ ls) = length_ℤ ls +ℤ pos 1

unfoldable pub write_back : FileEnv → List Line → Option (List Line) → Option (List Line)
write_back env [] main = main
write_back env (l ∷ ls) main =
    if env.open_fails
    then main
    else some (lines_of main ++ (if env.write_fails then take env.written (l ∷ ls) else l ∷ ls))

-- The replay of the snapshot.
unfoldable pub drain_snapshot : FileEnv → ℕ → (ℕ → Bool) → DlqStore → DlqStore
unfolding drain_lines write_back
drain_snapshot env batch_max relays d = elim d.replaying [
  | none ↦ d
  | some lines ↦ if env.read_fails then d else elim env.scanned [
    | none ↦
        let (kept, sent) = drain_lines batch_max relays 0 0 false lines in
        record d {
          main = write_back env kept d.main;
          replaying = none;
          backlog = d.backlog -ℤ length_ℤ sent;
          relayed = sent ++ d.relayed;
        }
    | some n ↦
        let (kept, sent) = drain_lines batch_max relays 0 0 false (take n lines) in
        record d {
          main = write_back env kept d.main;
          replaying = none;
          corrupt = some lines;
          backlog = d.backlog -ℤ length_ℤ sent;
          relayed = sent ++ d.relayed;
        }
  ]
]

-- The process ends while it replays: some lines were relayed, and the files are as they were.
unfoldable pub die_draining : ℕ → (ℕ → Bool) → ℕ → DlqStore → DlqStore
unfolding drain_lines
die_draining batch_max relays n d = record d {
  relayed = (drain_lines batch_max relays 0 0 false (take n (lines_of d.replaying))).1 ++ d.relayed;
}

-- A message that could not be sent; the start of a replay, its rest, or the end of the process in it.
pub data DlqEvent : Type 0 where
  appends : FileEnv → Line → DlqEvent
  starts_replay : FileEnv → DlqEvent
  drains : FileEnv → (ℕ → Bool) → DlqEvent
  dies : (ℕ → Bool) → ℕ → DlqEvent

unfoldable pub dlq_step : ℕ → ℕ → DlqEvent → DlqStore → DlqStore
unfolding append recover_leftovers rename_main drain_snapshot die_draining
dlq_step max_bytes batch_max (appends env line) d = (append env max_bytes line d).0
dlq_step max_bytes batch_max (starts_replay env) d = rename_main env (recover_leftovers env d)
dlq_step max_bytes batch_max (drains env relays) d = drain_snapshot env batch_max relays d
dlq_step max_bytes batch_max (dies relays n) d = die_draining batch_max relays n d

-- The line that the file takes in an event, if it takes one.
unfoldable pub taken_by : ℕ → DlqEvent → DlqStore → List Line
unfolding append
taken_by max_bytes (appends env line) d = if (append env max_bytes line d).1 then line ∷ [] else []
taken_by max_bytes _ d = []

-- The store behind a history, with the lines that the file took.
unfoldable pub dlq_run : ℕ → ℕ → List DlqEvent → DlqStore → List Line → DlqStore × List Line
unfolding dlq_step taken_by
dlq_run max_bytes batch_max [] d taken = (d, taken)
dlq_run max_bytes batch_max (e ∷ es) d taken =
    dlq_run max_bytes batch_max es (dlq_step max_bytes batch_max e d)
      (taken_by max_bytes e d ++ taken)
