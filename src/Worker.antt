-- ===== src/Worker.antt =====
-- internal/worker: the consumer of the queues.
pub mod Consumer
pub mod Retry
pub mod Bulkhead
pub mod Processor
