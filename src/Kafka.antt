-- ===== src/Kafka.antt =====
-- src/kafka-consumer.js: the batches of the consumer and the ingestion modes of the topics.
pub mod Modes
pub mod Consumer
pub mod Buffered
mod Examples
