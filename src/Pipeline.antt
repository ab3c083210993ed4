-- ===== src/Pipeline.antt =====
-- The usage pipeline: src/modules/usage-events, src/infra/outbox and src/modules/usage-pipeline.
pub mod Kafka
pub mod Outbox
pub mod Ingestion
pub mod Validation
pub mod Aggregation
pub mod DeadLetters
mod Tests
