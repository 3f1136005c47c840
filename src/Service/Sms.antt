-- ===== src/Service/Sms.antt =====
-- internal/service/sms.go: the validation of a request and the transaction that accepts it.
pub mod Caching
pub mod Agreement
pub mod Sparing
pub mod Charge
pub mod Acceptance
pub mod Replay
pub mod Held
pub mod Resent
pub mod Success
pub mod Liveness
use arvan.Prelude.{
  ⊤, ℕ, zero, suc, String, Bool, true, false, Option, none, some, List, [], ◌∷◌, ◌&&◌, ◌||◌, ◌==◌,
  leb, str_eq, if◌then◌else◌,
}
use arvan.Prelude.Int.{ℤ, ltb_ℤ, negate}
use arvan.Domain.{
  Uuid, Runes, MessageType, standard, express, other_type, Encoding, accepted, sms_status_accepted,
  OutboxStatus, pending, EventType, sms_send_requested, sms_cost_per_message, send as send_reason,
  LedgerEntry, SmsMessage, SendSmsInput, SendSmsResult, SmsSendPayload, encoded, OutboxEvent,
  IdempotencyRecord, IdempotencyResponse, Result, ok, err, invalid_request, invalid_phone_number,
  invalid_message_type, insufficient_balance, idempotency_in_progress, internal,
}
use arvan.Domain.Validation.{validate_e164, validate_single_page_body}
use arvan.Domain.Idempotency.{parse_idempotency_response, marshal_idempotency_response}
use arvan.Database.{
  Env, Exec, pure, raise, raise_if, attempt, lift, ◌>>=◌, ◌>>◌, new_uuid, transaction,
}
use arvan.Repository.Account
use arvan.Repository.Ledger
use arvan.Repository.Sms
use arvan.Repository.Outbox
use arvan.Repository.Idempotency
use arvan.Cache

-- unicode.IsSpace, which strings.TrimSpace removes at both ends.
abbrev is_space : ℕ → Bool
is_space r =
    (leb 0x09 r && leb r 0x0d)
    || (r == 0x20 || r == 0x85 || r == 0xa0 || r == 0x1680)
    || (leb 0x2000 r && leb r 0x200a)
    || (r == 0x2028 || r == 0x2029 || r == 0x202f || r == 0x205f || r == 0x3000)

-- `strings.TrimSpace(s) == ""`: nothing is left just when every rune is a space.
unfoldable pub blank : Runes → Bool
blank [] = true
blank (r ∷ rs) = if is_space r then blank rs else false

unfoldable pub known_type : MessageType → Bool
known_type standard = true
known_type express = true
known_type (other_type _) = false

unfoldable pub validate_send_input : SendSmsInput → Result Encoding
unfolding blank known_type
validate_send_input input =
    if blank input.to || blank input.body
    then err invalid_request
    else if validate_e164 input.to
    then (if known_type input.message_type
        then validate_single_page_body input.body
        else err invalid_message_type)
    else err invalid_phone_number

-- `input.IdempotencyKey != nil && *input.IdempotencyKey != ""`, with the key.
unfoldable pub active_key : Option String → Option String
active_key none = none
active_key (some key) = if str_eq key "" then none else some key

abbrev pub send_entry : Uuid → Uuid → LedgerEntry
send_entry account_id message_id = record {
  id = zero;
  account_id = account_id;
  delta = negate sms_cost_per_message;
  reason = send_reason;
  ref_id = some message_id;
  created_at = zero;
}

abbrev pub accepted_result : Uuid → SendSmsResult
accepted_result message_id = record { message_id = message_id; status = sms_status_accepted }

module _ (env : Env) where
  -- The response of an earlier request under the key, once its identifier is parsed.
  unfoldable pub replay_as : String → Option Uuid → Exec SendSmsResult
  replay_as status none = raise internal
  replay_as status (some id) = pure (record { message_id = id; status = status })

  unfoldable pub replay : Option IdempotencyResponse → Exec SendSmsResult
  unfolding replay_as
  replay none = raise idempotency_in_progress
  replay (some cached) = replay_as cached.status (env.uuid_parse cached.message_id)

  unfoldable pub store_snapshot : Uuid → Option String → SendSmsResult → Exec ⊤
  store_snapshot account_id none result = pure tt
  store_snapshot account_id (some key) result =
      Idempotency.update_snapshot env account_id key
        (marshal_idempotency_response env.uuid_string result)

  -- The rows that an accepted request adds.
  abbrev pub message : Uuid → SendSmsInput → Encoding → Uuid → SmsMessage
  message account_id input encoding message_id = record {
    id = message_id;
    account_id = account_id;
    to_number = input.to;
    body = input.body;
    encoding = encoding;
    message_type = input.message_type;
    status = accepted;
    cost = sms_cost_per_message;
    idempotency_key = active_key input.idempotency_key;
    created_at = zero;
    sent_at = none;
  }

  abbrev pub send_event : Uuid → SendSmsInput → Uuid → Uuid → OutboxEvent
  send_event account_id input message_id outbox_id = record {
    id = outbox_id;
    aggregate_id = message_id;
    event_type = sms_send_requested;
    payload = encoded (record {
      message_id = env.uuid_string message_id;
      account_id = env.uuid_string account_id;
      to = input.to;
      body = input.body;
      message_type = input.message_type;
      trace_context = env.trace_context;
    });
    status = pending;
  }

  -- The rows of an accepted request, behind the deduction.
  unfoldable pub record_send : Uuid → SendSmsInput → Encoding → Uuid → Uuid → Exec SendSmsResult
  record_send account_id input encoding message_id outbox_id = do
    Ledger.create env (send_entry account_id message_id)
    Sms.create env (message account_id input encoding message_id)
    Outbox.create env (send_event account_id input message_id outbox_id)
    store_snapshot account_id (active_key input.idempotency_key) (accepted_result message_id)
    pure (accepted_result message_id)

  -- The transaction from the lock of the account on.
  unfoldable pub charge : Uuid → SendSmsInput → Encoding → Uuid → Uuid → Exec SendSmsResult
  charge account_id input encoding message_id outbox_id = do
    locked_balance ← Account.lock_account_for_update env account_id
    raise_if (ltb_ℤ locked_balance sms_cost_per_message) insufficient_balance
    Account.deduct_locked_balance env account_id sms_cost_per_message
    record_send account_id input encoding message_id outbox_id

  -- A claimed key goes on to the charge, and any other is answered from its record.
  unfoldable pub charge_or_replay :
      Uuid → SendSmsInput → Encoding → Uuid → Uuid → IdempotencyRecord × Bool → Exec SendSmsResult
  charge_or_replay account_id input encoding message_id outbox_id (existing, true) =
      charge account_id input encoding message_id outbox_id
  charge_or_replay account_id input encoding message_id outbox_id (existing, false) =
      replay (parse_idempotency_response existing.response_snapshot)

  -- The transaction, by the key of the request.
  unfoldable pub send_tx :
      Uuid → SendSmsInput → Encoding → Uuid → Uuid → Option String → Exec SendSmsResult
  send_tx account_id input encoding message_id outbox_id none =
      charge account_id input encoding message_id outbox_id
  send_tx account_id input encoding message_id outbox_id (some key) =
      Idempotency.claim_or_get env account_id key
      >>= charge_or_replay account_id input encoding message_id outbox_id

  -- The cache is written behind the commit, and its error is dropped.
  unfoldable pub cache_response : Uuid → Option String → SendSmsResult → Exec ⊤
  cache_response account_id none result = pure tt
  cache_response account_id (some key) result =
      if env.cache_enabled
      then (attempt (
            Cache.set env account_id key
              (record { message_id = env.uuid_string result.message_id; status = result.status }))
          >> pure tt)
      else pure tt

  -- The request behind its validation.
  unfoldable pub accept : Uuid → SendSmsInput → Encoding → Exec SendSmsResult
  accept account_id input encoding = do
    message_id ← new_uuid env
    outbox_id ← new_uuid env
    result ←
        transaction env (
          send_tx account_id input encoding message_id outbox_id (active_key input.idempotency_key))
    cache_response account_id (active_key input.idempotency_key) result
    pure result

  unfoldable pub send : Uuid → SendSmsInput → Exec SendSmsResult
  send account_id input = do
    encoding ← lift (validate_send_input input)
    accept account_id input encoding

  unfoldable pub get : Uuid → Uuid → Exec SmsMessage
  get account_id message_id = Sms.get_by_account_and_id env account_id message_id

  unfoldable pub list : Uuid → ℤ → Option Uuid → Exec (List SmsMessage)
  list account_id limit cursor = Sms.list_by_account env account_id limit cursor
