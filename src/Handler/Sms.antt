-- ===== src/Handler/Sms.antt =====
-- internal/handler/sms.go.
use mathlib.Core.List.{map}
use arvan.Prelude.{String, Option, none, some, List}
use arvan.Prelude.Int.{ℤ, pos_part}
use arvan.Domain.{
  Uuid, Runes, MessageType, SmsMessage, SendSmsInput, SendSmsResult, Error, invalid_request,
  invalid_message_type, invalid_phone_number, message_too_long, insufficient_balance,
  idempotency_in_progress, not_found, invalid_cursor, Result, ok, err,
}
use arvan.Database.{Env, Exec, pure, attempt, ◌>>=◌}
use arvan.Repository.Page.Walk.{next_cursor}
use arvan.Service.Sms
use arvan.Handler.{
  Reply, failure, accepted_as, sms_page, sms_is, SmsItem, bad_request, missing_account, parse_limit,
  parse_cursor, cursor_text,
}

pub record SendSmsRequest : Type 0 where
  pub to : Runes
  pub body : Runes
  pub message_type : MessageType

unfoldable pub send_error : Error → Reply
send_error invalid_request = bad_request "to and body are required"
send_error invalid_message_type = bad_request "message_type must be standard or express"
send_error invalid_phone_number = bad_request "to must be a valid E.164 phone number"
send_error message_too_long = bad_request "body exceeds single-page SMS limit"
send_error insufficient_balance = failure 402 "insufficient_balance" "insufficient balance"
send_error idempotency_in_progress =
    failure 409 "idempotency_in_progress"
      "request with this idempotency key is still in progress; retry later"
send_error not_found = failure 404 "not_found" "account not found"
send_error e = failure 500 "internal_error" "failed to send sms"

unfoldable pub get_error : Error → Reply
get_error not_found = failure 404 "not_found" "message not found"
get_error e = failure 500 "internal_error" "failed to get sms message"

abbrev pub input_of : SendSmsRequest → Option String → SendSmsInput
input_of req key = record {
  to = req.to;
  body = req.body;
  message_type = req.message_type;
  idempotency_key = key;
}

module _ (env : Env) where
  unfoldable pub send_reply : Result SendSmsResult → Reply
  unfolding send_error
  send_reply (ok result) = accepted_as (env.uuid_string result.message_id) result.status
  send_reply (err e) = send_error e

  -- smsMessageResponse
  unfoldable pub sms_item : SmsMessage → SmsItem
  sms_item msg = record {
    id = env.uuid_string msg.id;
    to = msg.to_number;
    body = msg.body;
    encoding = msg.encoding;
    message_type = msg.message_type;
    status = msg.status;
    cost = msg.cost;
    created_at = msg.created_at;
    sent_at = msg.sent_at;
  }

  unfoldable pub get_reply : Result SmsMessage → Reply
  unfolding get_error sms_item
  get_reply (ok msg) = sms_is (sms_item msg)
  get_reply (err e) = get_error e

  unfoldable pub list_reply : ℤ → Result (List SmsMessage) → Reply
  unfolding sms_item
  list_reply limit (ok messages) =
      sms_page (map sms_item messages)
        (cursor_text env (next_cursor (λ (m : SmsMessage). m.id) (pos_part limit) messages))
  list_reply limit (err invalid_cursor) = bad_request "invalid cursor"
  list_reply limit (err e) = failure 500 "internal_error" "failed to list sms messages"

  -- SMSHandler.Send: the body, and the key that the middleware left.
  unfoldable pub send : Option Uuid → Option SendSmsRequest → Option String → Exec Reply
  send none body key = pure missing_account
  send (some account_id) none key = pure (bad_request "invalid request body")
  send (some account_id) (some req) key = do
    result ← attempt (Sms.send env account_id (input_of req key))
    pure (send_reply result)

  unfoldable pub list_from : Uuid → ℤ → Option (Option Uuid) → Exec Reply
  list_from account_id limit none = pure (bad_request "invalid cursor")
  list_from account_id limit (some cursor) = do
    messages ← attempt (Sms.list env account_id limit cursor)
    pure (list_reply limit messages)

  -- SMSHandler.List: the limit and the cursor of the query.
  unfoldable pub list : (String → Option ℤ) → Option Uuid → String → String → Exec Reply
  unfolding list_from
  list scan none limit cursor = pure missing_account
  list scan (some account_id) limit cursor =
      list_from account_id (parse_limit scan limit) (parse_cursor env cursor)

  unfoldable pub get_parsed : Uuid → Option Uuid → Exec Reply
  get_parsed account_id none = pure (bad_request "invalid message id")
  get_parsed account_id (some message_id) = do
    msg ← attempt (Sms.get env account_id message_id)
    pure (get_reply msg)

  -- SMSHandler.Get: the id of the path.
  unfoldable pub get : Option Uuid → String → Exec Reply
  unfolding get_parsed
  get none id = pure missing_account
  get (some account_id) id = get_parsed account_id (env.uuid_parse id)
