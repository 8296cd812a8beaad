-- ===== src/Mq/Tests.antt =====
-- Two dead letters, a replay that the process does not survive, and one that it does.
use hc_framework_go.Prelude.{
  ℕ, ◌≤◌, ◌≡◌, refl, true, false, none, some, List, [], ◌∷◌, arith, pos, ◌==◌, Option,
  if◌then◌else◌, ◌<◌,
}
use hc_framework_go.Mq.Dlq.{
  Line, DlqStore, FileEnv, DlqEvent, appends, starts_replay, drains, dies, dlq_run,
}
use hc_framework_go.Mq.Dlq.Kept.{times_of, held, IsHealthy, dlq_run-kept}
use hc_framework_go.Mq.Retry.{Reply, handled, refused, panicked}
use hc_framework_go.Mq.Progress.{OffsetStore, file_store, has, commit_file, set_offset, flush_file}
use hc_framework_go.Mq.Consumer.{
  Message, ConsumerConfig, HandleEnv, Partition, ConsumerEvent, reads, restarts, decide, handle,
  consume, consume_all,
}
use hc_framework_go.Mq.Consumer.Settled.{durable, consume_all-settled}

abbrev line : ℕ → Line
line key = record { key = key; size = 10; parses = true }

abbrev empty : DlqStore
empty = record { main = none; replaying = none; corrupt = none; backlog = pos 0; relayed = [] }

abbrev fine : FileEnv
fine = record {
  marshal_fails = false;
  open_fails = false;
  write_fails = false;
  rename_fails = false;
  read_fails = false;
  written = 0;
  scanned = none;
}

healthy : IsHealthy fine
healthy = record { opens = refl; writes = refl; reads = refl; scans = refl }

abbrev history : List DlqEvent
history =
    appends fine (line 1)
    ∷ appends fine (line 2)
    ∷ starts_replay fine
    ∷ dies (λ i. true) 1
    ∷ starts_replay fine
    ∷ drains fine (λ i. i == 0)
    ∷ []

dlq_run-kept_example :
    times_of 2 (dlq_run 1000 10 history empty []).1 ≤ held 2 (dlq_run 1000 10 history empty []).0
dlq_run-kept_example =
    dlq_run-kept 1000 10 2 history empty [] (tt, (tt, (healthy, (tt, (healthy, (healthy, tt))))))
      (omega arith)

-- Offset 0 is refused once, offset 1 is missing, and offset 2 ends in the dead letters.
abbrev cfg : ConsumerConfig
cfg = record {
  retry_max = 2;
  base_delay = 1;
  max_delay = 16;
  dlq_local_path = true;
  start_from_latest = false;
}

abbrev message : ℕ → Option Message
message offset =
    if offset == 1 then none else some (record { parses = true; event_id = some offset })

abbrev reading : (ℕ → Reply) → HandleEnv
reading replies = record {
  seen_fails = false;
  replies = replies;
  is_cancelled = λ j. false;
  dlq_fails = false;
  commit_fails = false;
}

abbrev second_time : ℕ → Reply
second_time j = if j == 0 then refused else handled

abbrev reads_and_restarts : List ConsumerEvent
reads_and_restarts =
    reads (reading second_time)
    ∷ restarts false 3
    ∷ reads (reading second_time)
    ∷ reads (reading (λ j. panicked))
    ∷ restarts false 3
    ∷ []

abbrev unread : Partition OffsetStore
unread = record { store = record { memory = none; file = none }; position = 0; settled = [] }

two_settled :
    2 < durable file_store (consume_all file_store cfg message reads_and_restarts unread).store
unfolding consume_all consume handle decide commit_file set_offset flush_file
two_settled = omega arith

consume_all-settled_example :
    has 2 (consume_all file_store cfg message reads_and_restarts unread).settled ≡ true
consume_all-settled_example =
    consume_all-settled file_store cfg message reads_and_restarts unread 2
      (record { parses = true; event_id = some 2 }) refl refl (refl, (tt, (refl, (refl, (tt, tt)))))
      refl refl refl two_settled refl
