-- ===== src/Worker/Processor.antt =====
-- internal/worker/processor.go: what becomes of one delivery.
pub mod Status
pub mod Calls
use arvan.Prelude.{
  ⊤, ℕ, zero, String, Bool, true, false, not, Option, none, some, List, [], ◌∷◌, if◌then◌else◌,
}
use arvan.Prelude.Int.{ℤ, pos, ltb_ℤ, leb_ℤ}
use arvan.Domain.{
  Uuid, SmsStatus, accepted, sent, failed, dead_lettered, SmsMessage, SmsSendPayload, PayloadBytes,
  encoded, malformed, SendRequest, Queue, dead_letter_queue, Error, not_found, Result, ok, err,
}
use arvan.Database.{
  Env, Session, Exec, pure, raise, lift, attempt, ◌>>=◌, ◌>>◌, published_to, dispatch, transaction,
}
use arvan.Operator
use arvan.Operator.{SendResult, is_permanent}
use arvan.Repository.Sms
use arvan.Repository.ProcessedConsumer
use arvan.Worker.Retry.{Table, delivery_attempt_count}

-- What the worker reads of an amqp.Delivery.
pub record Delivery : Type 0 where
  pub body : PayloadBytes
  pub headers : Table
  pub redelivered : Bool

pub record Config : Type 0 where
  pub max_delivery_attempts : ℤ
  -- whether SetDLQPublisher was called
  pub has_dlq : Bool

-- deliveryClaim
pub data Claim : Type 0 where
  acquired already_done in_progress resume : Claim

-- How the delivery is answered to the broker.
pub data Answer : Type 0 where
  acked requeued : Answer

unfoldable pub is_final : SmsStatus → Bool
is_final accepted = false
is_final sent = true
is_final failed = true
is_final dead_lettered = true

unfoldable pub should_dead_letter : Config → Delivery → Bool
unfolding delivery_attempt_count
should_dead_letter cfg d =
    if leb_ℤ cfg.max_delivery_attempts (pos 0)
    then false
    else leb_ℤ cfg.max_delivery_attempts (delivery_attempt_count d.headers d.redelivered)

unfoldable pub send_request : SmsSendPayload → SendRequest
send_request payload = record {
  message_id = payload.message_id;
  account_id = payload.account_id;
  to = payload.to;
  body = payload.body;
}

module _ (env : Env) where
  -- The publication to the dead-letter queue, which the broker confirms or not.
  unfoldable pub publish_to_dlq : PayloadBytes → Exec ⊤
  publish_to_dlq body = dispatch env (published_to dead_letter_queue body)

  unfoldable pub dead_letter_tx : Uuid → Uuid → Exec ⊤
  dead_letter_tx account_id message_id = do
    Sms.mark_dead_lettered_if_accepted env account_id message_id
    ProcessedConsumer.mark_processed_if_new env message_id
    pure tt

  unfoldable pub dead_letter : Config → Uuid → Uuid → PayloadBytes → Exec ⊤
  dead_letter cfg account_id message_id body = do
    transaction env (dead_letter_tx account_id message_id)
    if cfg.has_dlq then publish_to_dlq body else pure tt

  -- The status that the second look at the message finds, once the claim is taken by another.
  unfoldable pub claim_taken : Bool → Result SmsMessage → Exec Claim
  claim_taken redelivered (err not_found) = pure already_done
  claim_taken redelivered (err e) = raise e
  claim_taken redelivered (ok msg) =
      pure
        (if is_final msg.status then already_done else if redelivered then resume else in_progress)

  unfoldable pub claim_inserted : Uuid → Uuid → Bool → Bool → Exec Claim
  unfolding claim_taken
  claim_inserted account_id message_id redelivered true = pure acquired
  claim_inserted account_id message_id redelivered false = do
    again ← attempt (Sms.get_by_account_and_id env account_id message_id)
    claim_taken redelivered again

  -- The status that the first look finds.
  unfoldable pub claim_found : Uuid → Uuid → Bool → Result SmsMessage → Exec Claim
  unfolding claim_inserted
  claim_found account_id message_id redelivered (err not_found) = pure already_done
  claim_found account_id message_id redelivered (err e) = raise e
  claim_found account_id message_id redelivered (ok msg) =
      if is_final msg.status
      then pure already_done
      else (ProcessedConsumer.mark_processed_if_new env message_id
          >>= claim_inserted account_id message_id redelivered)

  unfoldable pub claim_tx : Uuid → Uuid → Bool → Exec Claim
  unfolding claim_found
  claim_tx account_id message_id redelivered = do
    msg ← attempt (Sms.get_by_account_and_id env account_id message_id)
    claim_found account_id message_id redelivered msg

  unfoldable pub claim_delivery : Uuid → Uuid → Bool → Exec Claim
  claim_delivery account_id message_id redelivered =
      transaction env (claim_tx account_id message_id redelivered)

  unfoldable pub release_claim : Uuid → Exec ⊤
  release_claim message_id = ProcessedConsumer.delete_claim env message_id

  unfoldable pub mark_sent : Uuid → Uuid → Exec ⊤
  mark_sent account_id message_id =
      transaction env (Sms.mark_sent_if_accepted env account_id message_id >> pure tt)

  unfoldable pub mark_failed : Uuid → Uuid → Exec ⊤
  mark_failed account_id message_id =
      transaction env (Sms.mark_failed_if_accepted env account_id message_id >> pure tt)

  -- An error of the last step asks for another delivery.
  abbrev requeue_on_error : Result ⊤ → Exec Answer
  requeue_on_error (ok _) = pure acked
  requeue_on_error (err e) = pure requeued

  abbrev or_requeue : Exec ⊤ → Exec Answer
  or_requeue m = attempt m >>= requeue_on_error

  -- Behind the operator's reply; a resumed delivery stands for a reply without error.
  unfoldable pub finish_send : Uuid → Uuid → Result ⊤ → Exec Answer
  finish_send account_id message_id (ok _) = or_requeue (mark_sent account_id message_id)
  finish_send account_id message_id (err e) =
      if is_permanent e
      then or_requeue (mark_failed account_id message_id)
      else (attempt (release_claim message_id) >> pure requeued)

  unfoldable pub proceed : SmsSendPayload → Uuid → Uuid → Result Claim → Exec Answer
  unfolding finish_send
  proceed payload account_id message_id (err e) = pure requeued
  proceed payload account_id message_id (ok already_done) = pure acked
  proceed payload account_id message_id (ok in_progress) = pure requeued
  proceed payload account_id message_id (ok resume) = finish_send account_id message_id (ok tt)
  proceed payload account_id message_id (ok acquired) = do
    reply ← attempt (Operator.send env (send_request payload) >> pure tt)
    finish_send account_id message_id reply

  -- The delivery of a readable payload.
  unfoldable pub process : Config → Delivery → SmsSendPayload → Uuid → Uuid → Exec Answer
  unfolding proceed
  process cfg d payload account_id message_id =
      if should_dead_letter cfg d
      then or_requeue (dead_letter cfg account_id message_id d.body)
      else (attempt (claim_delivery account_id message_id d.redelivered)
          >>= proceed payload account_id message_id)

  unfoldable pub parsed :
      Config → Delivery → SmsSendPayload → Option Uuid → Option Uuid → Exec Answer
  unfolding process
  parsed cfg d payload none account = pure acked
  parsed cfg d payload (some message_id) none = pure acked
  parsed cfg d payload (some message_id) (some account_id) =
      process cfg d payload account_id message_id

  unfoldable pub decoded : Config → Delivery → PayloadBytes → Exec Answer
  unfolding parsed
  decoded cfg d malformed = pure acked
  decoded cfg d (encoded payload) =
      parsed cfg d payload (env.uuid_parse payload.message_id) (env.uuid_parse payload.account_id)

  -- handleDelivery
  unfoldable pub handle_delivery : Config → Delivery → Exec Answer
  unfolding decoded
  handle_delivery cfg d = decoded cfg d d.body
