-- ===== src/Domain/Types.antt =====
-- internal/domain: account.go, ledger.go, sms.go, outbox.go, and the records of idempotency.go.
use arvan.Prelude.{ℕ, String, Option, List, [], ◌∷◌}
use arvan.Prelude.Int.{ℤ, pos}

abbrev pub Uuid : Type 0
Uuid = ℕ

abbrev pub Time : Type 0
Time = ℕ

abbrev pub Runes : Type 0
Runes = List ℕ

-- A message_type is any text of the client's; two values are known.
pub data MessageType : Type 0 where
  standard express : MessageType
  other_type : String → MessageType

pub data Encoding : Type 0 where
  gsm7 ucs2 : Encoding

pub data SmsStatus : Type 0 where
  accepted sent failed dead_lettered : SmsStatus

-- The text of the status that a response has.
abbrev pub sms_status_accepted : String
sms_status_accepted = "accepted"

pub data OutboxStatus : Type 0 where
  pending published failed : OutboxStatus

pub data EventType : Type 0 where
  sms_send_requested : EventType

pub data LedgerReason : Type 0 where
  topup send refund : LedgerReason

abbrev pub sms_cost_per_message : ℤ
sms_cost_per_message = pos 1

pub record Account : Type 0 where
  pub id : Uuid
  pub token_hash : String
  pub balance : ℤ
  pub created_at : Time

-- `id` is uuid.Nil, 0, where the caller leaves it to the repository.
pub record LedgerEntry : Type 0 where
  pub id : Uuid
  pub account_id : Uuid
  pub delta : ℤ
  pub reason : LedgerReason
  pub ref_id : Option Uuid
  pub created_at : Time

pub record SmsMessage : Type 0 where
  pub id : Uuid
  pub account_id : Uuid
  pub to_number : Runes
  pub body : Runes
  pub encoding : Encoding
  pub message_type : MessageType
  pub status : SmsStatus
  pub cost : ℤ
  pub idempotency_key : Option String
  pub created_at : Time
  pub sent_at : Option Time

pub record SendSmsInput : Type 0 where
  pub to : Runes
  pub body : Runes
  pub message_type : MessageType
  pub idempotency_key : Option String

pub record SendSmsResult : Type 0 where
  pub message_id : Uuid
  pub status : String

pub record SmsSendPayload : Type 0 where
  pub message_id : String
  pub account_id : String
  pub to : Runes
  pub body : Runes
  pub message_type : MessageType
  pub trace_context : List (String × String)

-- The bytes of a payload, by what json.Unmarshal makes of them.
pub data PayloadBytes : Type 0 where
  encoded : SmsSendPayload → PayloadBytes
  malformed : PayloadBytes

pub record OutboxEvent : Type 0 where
  pub id : Uuid
  pub aggregate_id : Uuid
  pub event_type : EventType
  pub payload : PayloadBytes
  pub status : OutboxStatus

pub record OutboxEventRecord : Type 0 where
  pub id : Uuid
  pub aggregate_id : Uuid
  pub event_type : EventType
  pub payload : PayloadBytes
  pub status : OutboxStatus
  pub locked_until : Option Time
  pub published_at : Option Time
  pub retry_count : ℕ
  pub created_at : Time

pub record IdempotencyResponse : Type 0 where
  pub message_id : String
  pub status : String

-- The bytes of a response snapshot: none at all, a JSON object as its members, whose values are texts, or
-- anything that json.Unmarshal refuses.
pub data Snapshot : Type 0 where
  no_bytes unreadable : Snapshot
  json_object : List (String × String) → Snapshot

-- {}
abbrev pub placeholder : Snapshot
placeholder = json_object []

-- What json.Marshal makes of a response, by the tags of its fields.
abbrev pub response : IdempotencyResponse → Snapshot
response resp = json_object (("message_id", resp.message_id) ∷ ("status", resp.status) ∷ [])

pub record IdempotencyRecord : Type 0 where
  pub id : Uuid
  pub account_id : Uuid
  pub key : String
  pub response_snapshot : Snapshot
  pub created_at : Time

-- What the worker asks of the operator.
pub record SendRequest : Type 0 where
  pub message_id : String
  pub account_id : String
  pub to : Runes
  pub body : Runes

-- The queues of internal/broker.
pub data Queue : Type 0 where
  express_queue standard_queue dead_letter_queue : Queue
