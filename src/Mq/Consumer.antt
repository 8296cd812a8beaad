-- ===== src/Mq/Consumer.antt =====
-- The consumer of a partition in the mode `ordered_commit`: `readerLoop`, `handle`, `process` and
-- `commitOffset` of internal/mq/kafka_consumer.go. The reader hands out the messages of the log from
-- its position on, as the broker documents; logs and metrics are left out.
pub mod Settled
use hc_framework_go.Prelude.{
  ok, err, Except, ℕ, suc, ◌+◌, Bool, true, false, ◌&&◌, ◌||◌, not, Option, none, some, List, [],
  ◌∷◌, if◌then◌else◌,
}
use hc_framework_go.Mq.Retry.{Reply, RetryError, retry_process}
use hc_framework_go.Mq.Progress.{ProgressStore}

-- `parses` says that the value decodes; an empty event id is `none`.
pub record Message : Type 0 where
  pub parses : Bool
  pub event_id : Option ℕ

pub record ConsumerConfig : Type 0 where
  pub retry_max : ℕ
  pub base_delay : ℕ
  pub max_delay : ℕ
  pub dlq_local_path : Bool  -- a path is set
  pub start_from_latest : Bool

-- `lost` is a message that failed and could not be written to the dead letters.
pub data Outcome : Type 0 where
  processed dedup_skipped dead_lettered lost : Outcome

pub record HandleEnv : Type 0 where
  pub seen_fails : Bool
  pub replies : ℕ → Reply
  pub is_cancelled : ℕ → Bool
  pub dlq_fails : Bool
  pub commit_fails : Bool

unfoldable pub append_dlq : ConsumerConfig → HandleEnv → Outcome
append_dlq cfg env = if cfg.dlq_local_path && not env.dlq_fails then dead_lettered else lost

abbrev outcome_of : Outcome → Except RetryError (Unit {0}) → Outcome
outcome_of failed (ok u) = processed
outcome_of failed (err e) = failed

unfoldable pub process : ConsumerConfig → HandleEnv → Outcome
unfolding retry_process append_dlq
process cfg env =
    outcome_of (append_dlq cfg env)
      (retry_process env.replies env.is_cancelled cfg.retry_max cfg.base_delay cfg.max_delay).0

module _ {S : Type 0} (store : ProgressStore S) where
  abbrev is_seen : Option ℕ → S → Bool
  is_seen none s = false
  is_seen (some event) s = store.seen event s

  -- What becomes of a message, and the event id that is committed with it.
  unfoldable pub decide : ConsumerConfig → HandleEnv → Message → S → Outcome × Option ℕ
  unfolding process append_dlq
  decide cfg env m s =
      if not m.parses
      then (append_dlq cfg env, none)
      else if is_seen m.event_id s && not env.seen_fails
      then (dedup_skipped, m.event_id)
      else (process cfg env, m.event_id)

  unfoldable pub handle : ConsumerConfig → HandleEnv → ℕ → Message → S → S × Outcome
  unfolding decide
  handle cfg env offset m s =
      let (outcome, event) = decide cfg env m s in
      (store.commit env.commit_fails true (suc offset) event s, outcome)

-- The store, the position of the reader, and the offsets whose message has had an outcome, which
-- nothing keeps.
pub record Partition (S : Type 0) : Type 0 where
  pub store : S
  pub position : ℕ
  pub settled : List ℕ

-- The reader takes the next message; or the process ends, perhaps with the message at the position
-- worked off and not committed, and a new one starts from the offset that it finds. Where the store has
-- none or does not answer, it starts from the first offset or, as configured, from `latest`, the end of
-- the log at that moment.
pub data ConsumerEvent : Type 0 where
  reads : HandleEnv → ConsumerEvent
  restarts : Bool → ℕ → ConsumerEvent  -- the store does not answer, latest

abbrev pub start_position : Bool → ℕ → Option ℕ → ℕ
start_position from_latest latest none = if from_latest then latest else 0
start_position from_latest latest (some off) = off

abbrev pub is_lost : Outcome → Bool
is_lost lost = true
is_lost _ = false

module _ {S : Type 0} (store : ProgressStore S) (cfg : ConsumerConfig)
    (log : ℕ → Option Message) where
  unfoldable pub consume : ConsumerEvent → Partition S → Partition S
  unfolding handle
  consume (reads env) p = elim (log p.position) [
    | none ↦ record p { position = suc p.position }
    | some m ↦
        let (s, outcome) = handle store cfg env p.position m p.store in
        record p {
          store = s;
          position = suc p.position;
          settled = if is_lost outcome then p.settled else p.position ∷ p.settled;
        }
  ]
  consume (restarts get_fails latest) p = record p {
    store = store.restart p.store;
    position =
        start_position cfg.start_from_latest latest
          (if get_fails then none else store.get (store.restart p.store));
  }

  unfoldable pub consume_all : List ConsumerEvent → Partition S → Partition S
  unfolding consume
  consume_all [] p = p
  consume_all (e ∷ es) p = consume_all es (consume e p)
