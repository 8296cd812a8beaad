-- ===== src/Mq.antt =====
-- The message queue's own code: internal/mq/dlq.go, internal/mq/retry.go,
-- internal/mq/consumer_progress.go and the consumer loop of internal/mq/kafka_consumer.go.
-- The brokers and their client libraries are outside.
pub mod Dlq
pub mod Retry
pub mod Progress
pub mod Consumer
pub mod Partitions
mod Tests
