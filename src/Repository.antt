-- ===== src/Repository.antt =====
-- internal/repository: one module per file. A method of a repository is an action of the database;
-- the transaction that it runs in is the action around it.
pub mod Db
pub mod Page
pub mod Account
pub mod Ledger
pub mod Sms
pub mod Outbox
pub mod OutboxRelay
pub mod Idempotency
pub mod ProcessedConsumer
pub mod Success
