-- ===== src/Lib.antt =====
-- The verification library of hc-framework-go, a service in which users earn points (idle sessions,
-- tasks) and spend them (exchanges and timed sales). It models the parts that move stock, points and
-- rewards, the idle sessions, the lock of a login, the circuit breakers' degradation and what the
-- message queue keeps of its messages.
--
-- The program's parts and how they interact:
--   * The shop (internal/service/shop/shop_service.go, internal/repository/shop_repo.go) answers
--     `Redeem` and `FlashRedeem`. A Redis counter (scripts of internal/cache/manager.go) stands in
--     front of the database and may say no; the database decides. An order, its ledger row and its
--     outbox row are written in one transaction.
--   * The tasks (internal/service/task/task_service.go, internal/repository/task_repo.go) count
--     progress from events, each event once (internal/repository/event_dedup_repo.go), and grant a
--     reward by the same pair of ledger and outbox row.
--   * The points outbox (internal/service/common/points_outbox.go,
--     internal/repository/points_outbox_repo.go) carries the rows to the user database: workers of
--     the fast path, the consumers and the relay compete for a row by its status, and the one that
--     claims it changes the balance (`UpdatePoints` of internal/repository/user_repo.go).
--   * The idle sessions (internal/service/idle/idle_service.go, daily_limit_redis.go, failover.go,
--     internal/cache/active_set.go, internal/repository/idle_repo.go): a device starts a session and
--     sends heartbeats; a stop, an eviction, an expired key or the scanner settles it, against the
--     points that a Redis counter leaves for the day. The points go through the outbox too. The
--     scanner is spread over pods (scan_sharding.go), and a pod that sees the active set come back
--     reconciles it with the database.
--   * The lock of a login (internal/service/auth/account_lock.go) counts failures, in memory or in
--     Redis.
--   * The message queue: a producer keeps what the broker refused in files (internal/mq/dlq.go) and
--     sends it again; a consumer of a partition (internal/mq/kafka_consumer.go, in its ordered mode)
--     keeps its offset in a file or a database (internal/mq/consumer_progress.go) and tries a message
--     several times (internal/mq/retry.go).
--   * Orders and idle records are listed in pages (internal/service/common/cursor.go).
--   * A limit on the requests in progress (internal/middleware/concurrency.go) stands in front of all
--     handlers.
--   * The circuit breakers (internal/middleware/circuitbreaker.go) switch a global degradation
--     (internal/degrade/degrade.go).
--
-- The files, and the code that they model:
--   * Prelude: numbers, lists, integers, `Except` for Go's value and error.
--   * Shop/Model: the rows of internal/model/order.go, transaction.go and points_outbox.go.
--   * Shop/Stock: `DeductStock`, `TotalStock`, `CreateStockBuckets`, `makeBuckets`. Its children
--     prove: Total and Rows (what a query sums up), Deduct and Conserve (one deduction), SoldOut
--     (when it refuses), Seed (how stock is spread over buckets).
--   * Shop/Counter: the scripts and methods of the Redis counters; Laws, what they do together.
--   * Shop/Redeem: `Redeem` with `FindItemByID`; Cases inverts a success, Effect says what it does
--     to the tables, Peak what it does to the counter.
--   * Shop/Flash: `FlashRedeem`, `getFlashActivity`, `AcquireFlashQuota`, `CountUserFlashOrders`;
--     Quota, Cases, History (both handlers on the same tables) and Limits.
--   * Points: the calls of the outbox as steps of workers; Claims and Once (at most once), Balance,
--     Stuck (a claim that nobody finishes), Apply and Runs (`tryApply` and `relayOnce` as functions,
--     and their runs as steps), Relay (what one run of the relay achieves).
--   * Tasks: rows, `IncrProgress`, `GetCurrentPeriod`; Claiming (`Claim`), Events
--     (`ApplyEventProgress`; a deadlock ends its transaction, as MySQL does), Rewards, Progress, Again
--     (a second delivery), Once, History and Targets.
--   * Idle and Idle/Shards: the sharding of the scanner.
--   * Idle/Session and Idle/Daily: the tables of sessions and daily points, and the Redis
--     counter of a day. Idle/Settle: `SettleSession`, cut at its calls; its children are Steps
--     (the runs of all workers as a step relation, where a counter may expire, be lost or be
--     set anew by a run that had not found it), Ledger, Grows and History (what the tables
--     hold behind a history), Limit, Budget and Effective (the day's limit), Answers (a
--     settlement that fails).
--   * Idle/Devices, Idle/Calls: `Start` with the eviction of the oldest device, `Heartbeat`, `Stop`,
--     `StopDevice`; Idle/Capacity and Idle/Stale, what a start leaves open.
--   * Idle/Active: the shards of the active set; Idle/Scan: the scanner's pass (`dead_chunks` reads a
--     shard in chunks), with Chunks and Ended; Idle/Failover: the reconciliation; Idle/Expiry: an
--     expired heartbeat key and the backfill; Idle/Flusher: the buffer of heartbeats.
--   * Auth: the configuration and the calls of the lock; Memory and Redis, its two implementations;
--     Calls and Agreement, histories of calls on both.
--   * Mq/Dlq: the files of the messages that the broker refused, and Kept; Mq/Retry: the attempts at a
--     message; Mq/Progress: the interface of a store of offsets, a record of operations and laws, and
--     its file and SQL implementations; Mq/Consumer (`handle` and the loop of a reader, over any store
--     with these laws) and Settled; Mq/Partitions: which consumer reads which partition.
--   * Paging: `CursorPage`, the queries `FindOrders` and `FindRecords` and the services' calls of them,
--     with a client that follows the cursors; Lists and Sorted, rows by descending ids; Complete, what
--     the client gets. A client's questions are fuel: one more than the rows is enough.
--   * Concurrency: the middleware cut at its call of the next handler, over any semaphore; InFlight,
--     what holds behind requests that come in and end in any order.
--   * Degrade and Degrade/Leak: the breakers' callback and the counters.
--
-- How the code is read. A table is a list of rows and a statement a function of it, with the
-- number of rows that it changed. A transaction is a chain of results whose changes count only
-- at `ok`; where a run says that its commit fails, the commit may have taken effect or not
-- (`commit_applies`). What fails in a run, what others hold, what caches and replicas say and
-- what the clock reads is a field of the run's environment, so that a theorem holds for all of
-- it. Where runs interleave between calls (the outbox workers, the settlements, the breakers)
-- there is a step relation; elsewhere a history is a list of whole runs, since the code holds a
-- lock per user and the statements are conditional updates. A Redis script is one step, and a
-- key's expiry a change of the environment. Ids that the code only compares are numbers; FNV-1a,
-- DNS, environment variables and the formats of event ids are arguments. Products of points are
-- int64 with their wrap-around; counts and balances are ℕ.
--
-- Bounds and fuel: the loops over buckets, shards, tasks, pods, lines and devices run over the list or
-- the count that the code loops over, and retries over the number of attempts (three in
-- `IncrProgress`). The scanner's loop over chunks has fuel, the number of members of the shard: a
-- round that goes on moves the index, by a thousand members.
--
-- Not modelled: handlers and routing, configuration, tracing, metrics and logs, the adapters of
-- databases and message queues, start-up data, the administration and warm-up of timed sales, tokens
-- and passwords, the cache strategies, the scheduler, rate limits, the memory broker, and the mode of
-- the Kafka consumer that works on messages concurrently. The manifest lists them with reasons.
pub mod Auth
pub mod Concurrency
pub mod Degrade
pub mod Idle
pub mod Mq
pub mod Paging
pub mod Points
pub mod Prelude
pub mod Shop
pub mod Tasks
