-- ===== src/Database/Rows.antt =====
-- The rows of the tables: the *_model.go files of internal/repository, ledgerModel of db.go and
-- processedConsumerEventModel of processed_consumer.go, over the schema of
-- migrations/000001_init_schema.up.sql.
use arvan.Prelude.{ℕ, String, Option, List}
use arvan.Prelude.Int.{ℤ}
use arvan.Domain.{
  Uuid, Time, Runes, MessageType, Encoding, SmsStatus, OutboxStatus, EventType, LedgerReason,
  PayloadBytes, Snapshot,
}

pub record AccountModel : Type 0 where
  pub id : Uuid
  pub token_hash : String
  pub balance : ℤ
  pub created_at : Time

pub record LedgerModel : Type 0 where
  pub id : Uuid
  pub account_id : Uuid
  pub delta : ℤ
  pub reason : LedgerReason
  pub ref_id : Option Uuid
  pub created_at : Time

pub record SmsMessageModel : Type 0 where
  pub id : Uuid
  pub account_id : Uuid
  pub to_number : Runes
  pub body : Runes
  pub encoding : Encoding
  pub message_type : MessageType
  pub status : SmsStatus
  pub cost : ℤ
  pub idempotency_key : Option String
  pub created_at : Time
  pub sent_at : Option Time

pub record OutboxEventModel : Type 0 where
  pub id : Uuid
  pub aggregate_id : Uuid
  pub event_type : EventType
  pub payload : PayloadBytes
  pub status : OutboxStatus
  pub locked_until : Option Time
  pub published_at : Option Time
  pub retry_count : ℕ
  pub created_at : Time

pub record IdempotencyKeyModel : Type 0 where
  pub id : Uuid
  pub account_id : Uuid
  pub idempotency_key : String
  pub response_snapshot : Snapshot
  pub created_at : Time

pub record ProcessedConsumerEventModel : Type 0 where
  pub message_id : Uuid
  pub processed_at : Time

-- The rows that are committed, or that a transaction sees, in the order of their insertion.
pub record Tables : Type 0 where
  pub accounts : List AccountModel
  pub account_ledger : List LedgerModel
  pub sms_messages : List SmsMessageModel
  pub outbox_events : List OutboxEventModel
  pub idempotency_keys : List IdempotencyKeyModel
  pub processed_consumer_events : List ProcessedConsumerEventModel
