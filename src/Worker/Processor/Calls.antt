-- ===== src/Worker/Processor/Calls.antt =====
-- The calls of the operator in internal/worker/processor.go: the parts of a delivery that make none.
pub mod Once
pub mod Claimed
use arvan.Prelude.{
  ⊤, ℕ, suc, Bool, true, false, Option, none, some, List, [], ◌∷◌, ◌≡◌, refl, inl, inr, arith, ◌≤◌,
  if◌then◌else◌,
}
use arvan.Prelude.Lists.{has}
use arvan.Domain.{
  Uuid, PayloadBytes, malformed, encoded, SmsSendPayload, SmsMessage, dead_letter_queue, Error,
  not_found, Result, ok, err,
}
use arvan.Database.{
  Tables, published_to, Outcome, done, refused, lost, Env, Exec, Session, pure, raise, attempt,
  ◌>>=◌, ◌>>◌, continue, settle, finish, enclose, time_now, statement, transaction,
}
use arvan.Database.Keeps.{Keeps, Keeps-bind, Keeps-pure, Keeps-attempt}
use arvan.Database.Laws.{Yields, Yields-bind, Yields-if, Ends, transaction-Ends, statement-Yields}
use arvan.Database.Silent.{
  Silent-dispatch, operator_calls, Silent, Silent-statement, Silent-translate, Silent-bind,
  Silent-pure, Silent-raise, Silent-attempt, Silent-if, Silent-transaction,
}
use arvan.Database.Sql.{first, translate, with_domain_errors}
use arvan.Database.Sql.Laws.{Keeps-first}
use arvan.Repository.Sms
use arvan.Repository.Sms.{by_account_and_id, update_accepted, set_sent}
use arvan.Repository.ProcessedConsumer
use arvan.Repository.ProcessedConsumer.{by_message_id, insert_if_new}
use arvan.Operator
use arvan.Operator.Laws.{send-calls}
use arvan.Worker.Processor.{
  Delivery, Config, Claim, Answer, acked, requeued, acquired, already_done, in_progress, resume,
  is_final, should_dead_letter, send_request, dead_letter, dead_letter_tx, publish_to_dlq,
  claim_taken, claim_inserted, claim_found, claim_tx, claim_delivery, mark_sent, mark_failed,
  release_claim, requeue_on_error, or_requeue, finish_send, proceed, process, parsed, decoded,
  handle_delivery,
}

module _ (env : Env) where
  read-Silent : (a m : Uuid) → Silent operator_calls (Sms.get_by_account_and_id env a m)
  unfolding Sms.get_by_account_and_id
  read-Silent a m =
      Silent-bind _ (λ model. pure (Sms.to_domain_sms model))
        (Silent-translate _
          (Silent-statement env (first (λ t. t.sms_messages) (by_account_and_id a m))))
        (λ model. Silent-pure (Sms.to_domain_sms model))

  claim-Silent : (m : Uuid) → Silent operator_calls (ProcessedConsumer.mark_processed_if_new env m)
  unfolding ProcessedConsumer.mark_processed_if_new
  claim-Silent m =
      Silent-bind (time_now env) _ (record { at = λ s. refl })
        λ now. Silent-statement env (insert_if_new (record { message_id = m; processed_at = now }))

  mark_sent-Silent : (a m : Uuid) → Silent operator_calls (mark_sent env a m)
  unfolding mark_sent Sms.mark_sent_if_accepted
  mark_sent-Silent a m = Silent-transaction env _ (
      Silent-bind (Sms.mark_sent_if_accepted env a m) (λ _. pure tt)
        (Silent-bind (time_now env) _ (record { at = λ s. refl })
          λ now. Silent-statement env (update_accepted a m (set_sent now)))
        (λ _. Silent-pure tt))

  mark_failed-Silent : (a m : Uuid) → Silent operator_calls (mark_failed env a m)
  unfolding mark_failed Sms.mark_failed_if_accepted
  mark_failed-Silent a m = Silent-transaction env _ (
      Silent-bind (Sms.mark_failed_if_accepted env a m) (λ _. pure tt) (Silent-statement env _)
        (λ _. Silent-pure tt))

  dead_letter_tx-Silent : (a m : Uuid) → Silent operator_calls (dead_letter_tx env a m)
  unfolding dead_letter_tx Sms.mark_dead_lettered_if_accepted
  dead_letter_tx-Silent a m =
      Silent-bind (Sms.mark_dead_lettered_if_accepted env a m) _ (Silent-statement env _) (λ _.
        Silent-bind (ProcessedConsumer.mark_processed_if_new env m) (λ _. pure tt) (claim-Silent m)
          (λ _. Silent-pure tt))

  pub dead_letter-Silent :
      (cfg : Config) (a m : Uuid) (body : PayloadBytes)
      → Silent operator_calls (dead_letter env cfg a m body)
  unfolding dead_letter publish_to_dlq operator_calls
  dead_letter-Silent cfg a m body =
      Silent-bind _ _ (Silent-transaction env _ (dead_letter_tx-Silent a m)) (λ _.
        Silent-if cfg.has_dlq _ _
          (Silent-dispatch env (published_to dead_letter_queue body) (λ es. refl)) (Silent-pure tt))

  claim_taken-Silent :
      (redelivered : Bool) (r : Result SmsMessage)
      → Silent operator_calls (claim_taken env redelivered r)
  unfolding claim_taken
  claim_taken-Silent redelivered (ok msg) = Silent-pure _
  claim_taken-Silent redelivered (err not_found) = Silent-pure _
  claim_taken-Silent redelivered (err e) = Silent-raise e

  claim_inserted-Silent :
      (a m : Uuid) (redelivered b : Bool)
      → Silent operator_calls (claim_inserted env a m redelivered b)
  unfolding claim_inserted
  claim_inserted-Silent a m redelivered true = Silent-pure acquired
  claim_inserted-Silent a m redelivered false =
      Silent-bind _ _ (Silent-attempt _ (read-Silent a m)) (claim_taken-Silent redelivered)

  claim_found-Silent :
      (a m : Uuid) (redelivered : Bool) (r : Result SmsMessage)
      → Silent operator_calls (claim_found env a m redelivered r)
  unfolding claim_found
  claim_found-Silent a m redelivered (err not_found) = Silent-pure _
  claim_found-Silent a m redelivered (err e) = Silent-raise e
  claim_found-Silent a m redelivered (ok msg) =
      Silent-if (is_final msg.status) _ _ (Silent-pure already_done)
        (Silent-bind _ _ (claim-Silent m) (claim_inserted-Silent a m redelivered))

  pub claim_delivery-Silent :
      (a m : Uuid) (redelivered : Bool) → Silent operator_calls (claim_delivery env a m redelivered)
  unfolding claim_delivery claim_tx
  claim_delivery-Silent a m redelivered =
      Silent-transaction env _
        (Silent-bind _ _ (Silent-attempt _ (read-Silent a m)) (claim_found-Silent a m redelivered))

  requeue-Silent : (r : Result ⊤) → Silent operator_calls (requeue_on_error env r)
  requeue-Silent (ok _) = Silent-pure _
  requeue-Silent (err e) = Silent-pure _

  pub or_requeue-Silent :
      (x : Exec ⊤) → Silent operator_calls x → Silent operator_calls (or_requeue env x)
  or_requeue-Silent x k = Silent-bind (attempt x) _ (Silent-attempt x k) requeue-Silent

  pub finish_send-Silent :
      (a m : Uuid) (r : Result ⊤) → Silent operator_calls (finish_send env a m r)
  unfolding finish_send release_claim ProcessedConsumer.delete_claim
  finish_send-Silent a m (ok _) = or_requeue-Silent _ (mark_sent-Silent a m)
  finish_send-Silent a m (err e) =
      Silent-if (Operator.is_permanent e) _ _ (or_requeue-Silent _ (mark_failed-Silent a m)) (
        Silent-bind (attempt (release_claim env m)) _ (Silent-attempt _ (Silent-statement env _))
          (λ _. Silent-pure requeued))
