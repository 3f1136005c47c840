-- ===== src/Worker/Processor/Status.antt =====
-- handleDelivery of internal/worker/processor.go and the messages whose status is final.
use arvan.Prelude.{⊤, Bool, true, false, Option, none, some, ◌≡◌, refl, arith, if◌then◌else◌}
use arvan.Prelude.Lists.{find, find-update_kept}
use arvan.Domain.{
  Uuid, PayloadBytes, malformed, encoded, SmsSendPayload, SmsMessage, SmsStatus, failed,
  dead_lettered, dead_letter_queue, not_found, Result, ok, err,
}
use arvan.Database.{
  SmsMessageModel, ProcessedConsumerEventModel, Tables, Env, Exec, Session, pure, attempt, ◌>>◌,
  time_now, published_to, statement,
}
use arvan.Database.Keeps.{
  Keeps-dispatch, Keeps, Keeps-bind, Keeps-if, Keeps-pure, Keeps-raise, Keeps-attempt,
  Keeps-statement, Keeps-transaction,
}
use arvan.Database.Sql.Laws.{Keeps-first}
use arvan.Operator
use arvan.Operator.Laws.{send-tables}
use arvan.Repository.Sms
use arvan.Repository.Sms.{by_account_and_id, accepted_row, set_status, set_sent, update_accepted}
use arvan.Repository.ProcessedConsumer
use arvan.Repository.ProcessedConsumer.{insert_if_new, delete_where_message}
use arvan.Worker.Processor.{
  Delivery, Config, Claim, acquired, already_done, requeued, in_progress, resume, is_final, acked,
  send_request, should_dead_letter, dead_letter, dead_letter_tx, publish_to_dlq, claim_taken,
  claim_inserted, claim_found, claim_tx, claim_delivery, mark_sent, mark_failed, release_claim,
  requeue_on_error, or_requeue, finish_send, proceed, process, parsed, decoded, handle_delivery,
}

kept_if :
    (b : Bool) (x y : Result Bool × Tables) (t : Tables)
    → x.1.sms_messages ≡ t.sms_messages
    → y.1.sms_messages ≡ t.sms_messages
    → (if b then x else y).1.sms_messages ≡ t.sms_messages
kept_if true x y t h k = h
kept_if false x y t h k = k

insert-messages :
    (e : ProcessedConsumerEventModel) (t : Tables)
    → (insert_if_new e t).1.sms_messages ≡ t.sms_messages
unfolding insert_if_new
insert-messages e t = kept_if _ _ _ t refl refl

module _ (env : Env) (account_id message_id : Uuid) (row : SmsMessageModel)
    (final : is_final row.status ≡ true) where
  -- The message is there, as it was.
  abbrev pub There : Tables → Type 0
  There t = find (by_account_and_id account_id message_id) t.sms_messages ≡ some row

  not_accepted : (a m : Uuid) → accepted_row a m row ≡ false
  unfolding is_final
  not_accepted a m = ground (arith, final)

  update-There :
      (a m : Uuid) (f : SmsMessageModel → SmsMessageModel) (t : Tables)
      → ((x : SmsMessageModel)
          → by_account_and_id account_id message_id (f x)
            ≡ by_account_and_id account_id message_id x)
      → There t
      → There (update_accepted a m f t).1
  unfolding update_accepted
  update-There a m f t same h =
      find-update_kept (by_account_and_id account_id message_id) (accepted_row a m) f t.sms_messages
        row same (not_accepted a m) h

  read-There : (a m : Uuid) → Keeps There (Sms.get_by_account_and_id env a m)
  unfolding Sms.get_by_account_and_id
  read-There a m =
      Keeps-bind _ _ (Keeps-first env (λ t. t.sms_messages) (by_account_and_id a m))
        (λ model. Keeps-pure (Sms.to_domain_sms model))

  mark_sent-There : (a m : Uuid) → Keeps There (Sms.mark_sent_if_accepted env a m)
  unfolding Sms.mark_sent_if_accepted
  mark_sent-There a m =
      Keeps-bind (time_now env) _ (record { at = λ s h. h })
        λ now.
          Keeps-statement env (update_accepted a m (set_sent now))
            (λ t. update-There a m (set_sent now) t (λ x. refl))

  set_status-There :
      (a m : Uuid) (status : SmsStatus)
      → Keeps There (statement env (update_accepted a m (set_status status)))
  set_status-There a m status =
      Keeps-statement env (update_accepted a m (set_status status))
        (λ t. update-There a m (set_status status) t (λ x. refl))

  -- A new claim is another table's row.
  claim-There : (m : Uuid) → Keeps There (ProcessedConsumer.mark_processed_if_new env m)
  unfolding ProcessedConsumer.mark_processed_if_new
  claim-There m =
      Keeps-bind (time_now env) _ (record { at = λ s h. h })
        λ now.
          Keeps-statement env (insert_if_new (record { message_id = m; processed_at = now }))
            (λ t h. rw (insert-messages (record { message_id = m; processed_at = now }) t, h))

  release-There : (m : Uuid) → Keeps There (release_claim env m)
  unfolding release_claim ProcessedConsumer.delete_claim delete_where_message
  release-There m = Keeps-statement env (delete_where_message m) (λ t h. h)

  mark_sent_tx-There : (a m : Uuid) → Keeps There (mark_sent env a m)
  unfolding mark_sent
  mark_sent_tx-There a m = Keeps-transaction env _ (
      Keeps-bind (Sms.mark_sent_if_accepted env a m) (λ _. pure tt) (mark_sent-There a m)
        (λ _. Keeps-pure tt))

  mark_failed-There : (a m : Uuid) → Keeps There (mark_failed env a m)
  unfolding mark_failed Sms.mark_failed_if_accepted
  mark_failed-There a m = Keeps-transaction env _ (
      Keeps-bind (Sms.mark_failed_if_accepted env a m) (λ _. pure tt) (set_status-There a m failed)
        (λ _. Keeps-pure tt))

  dead_letter_tx-There : (a m : Uuid) → Keeps There (dead_letter_tx env a m)
  unfolding dead_letter_tx Sms.mark_dead_lettered_if_accepted
  dead_letter_tx-There a m =
      Keeps-bind (Sms.mark_dead_lettered_if_accepted env a m) _ (set_status-There a m dead_lettered)
        (λ _.
          Keeps-bind (ProcessedConsumer.mark_processed_if_new env m) (λ _. pure tt) (claim-There m)
            (λ _. Keeps-pure tt))

  publish-There : (body : PayloadBytes) → Keeps There (publish_to_dlq env body)
  unfolding publish_to_dlq
  publish-There body = Keeps-dispatch env (published_to dead_letter_queue body)

  dead_letter-There :
      (cfg : Config) (a m : Uuid) (body : PayloadBytes) → Keeps There (dead_letter env cfg a m body)
  unfolding dead_letter
  dead_letter-There cfg a m body =
      Keeps-bind _ _ (Keeps-transaction env _ (dead_letter_tx-There a m))
        (λ _. Keeps-if cfg.has_dlq _ _ (publish-There body) (Keeps-pure tt))

  claim_taken-There :
      (redelivered : Bool) (r : Result SmsMessage) → Keeps There (claim_taken env redelivered r)
  unfolding claim_taken
  claim_taken-There redelivered (ok msg) = Keeps-pure _
  claim_taken-There redelivered (err not_found) = Keeps-pure _
  claim_taken-There redelivered (err e) = Keeps-raise e

  claim_inserted-There :
      (a m : Uuid) (redelivered b : Bool) → Keeps There (claim_inserted env a m redelivered b)
  unfolding claim_inserted
  claim_inserted-There a m redelivered true = Keeps-pure acquired
  claim_inserted-There a m redelivered false =
      Keeps-bind _ _ (Keeps-attempt _ (read-There a m)) (claim_taken-There redelivered)

  claim_found-There :
      (a m : Uuid) (redelivered : Bool) (r : Result SmsMessage)
      → Keeps There (claim_found env a m redelivered r)
  unfolding claim_found
  claim_found-There a m redelivered (err not_found) = Keeps-pure _
  claim_found-There a m redelivered (err e) = Keeps-raise e
  claim_found-There a m redelivered (ok msg) =
      Keeps-if (is_final msg.status) _ _ (Keeps-pure already_done)
        (Keeps-bind _ _ (claim-There m) (claim_inserted-There a m redelivered))

  claim_delivery-There :
      (a m : Uuid) (redelivered : Bool) → Keeps There (claim_delivery env a m redelivered)
  unfolding claim_delivery claim_tx
  claim_delivery-There a m redelivered =
      Keeps-transaction env _
        (Keeps-bind _ _ (Keeps-attempt _ (read-There a m)) (claim_found-There a m redelivered))

  requeue-There : (r : Result ⊤) → Keeps There (requeue_on_error env r)
  requeue-There (ok _) = Keeps-pure _
  requeue-There (err e) = Keeps-pure _

  or_requeue-There : (x : Exec ⊤) → Keeps There x → Keeps There (or_requeue env x)
  or_requeue-There x k = Keeps-bind (attempt x) _ (Keeps-attempt x k) requeue-There

  finish_send-There : (a m : Uuid) (r : Result ⊤) → Keeps There (finish_send env a m r)
  unfolding finish_send
  finish_send-There a m (ok _) = or_requeue-There _ (mark_sent_tx-There a m)
  finish_send-There a m (err e) =
      Keeps-if (Operator.is_permanent e) _ _ (or_requeue-There _ (mark_failed-There a m)) (
        Keeps-bind (attempt (release_claim env m)) _ (Keeps-attempt _ (release-There m))
          (λ _. Keeps-pure requeued))

  call-There : (payload : SmsSendPayload) → Keeps There (Operator.send env (send_request payload))
  call-There payload = record { at = λ s h. rw (send-tables env (send_request payload) s, h) }

  proceed-There :
      (payload : SmsSendPayload) (a m : Uuid) (r : Result Claim)
      → Keeps There (proceed env payload a m r)
  unfolding proceed
  proceed-There payload a m (err e) = Keeps-pure requeued
  proceed-There payload a m (ok already_done) = Keeps-pure acked
  proceed-There payload a m (ok in_progress) = Keeps-pure requeued
  proceed-There payload a m (ok resume) = finish_send-There a m (ok tt)
  proceed-There payload a m (ok acquired) =
      Keeps-bind (attempt (Operator.send env (send_request payload) >> pure tt)) _
        (Keeps-attempt _ (
          Keeps-bind (Operator.send env (send_request payload)) (λ _. pure tt) (call-There payload)
            (λ _. Keeps-pure tt)))
        (finish_send-There a m)

  process-There :
      (cfg : Config) (d : Delivery) (payload : SmsSendPayload) (a m : Uuid)
      → Keeps There (process env cfg d payload a m)
  unfolding process
  process-There cfg d payload a m =
      Keeps-if (should_dead_letter cfg d) _ _
        (or_requeue-There _ (dead_letter-There cfg a m d.body))
        (Keeps-bind (attempt (claim_delivery env a m d.redelivered)) _
          (Keeps-attempt _ (claim_delivery-There a m d.redelivered)) (proceed-There payload a m))

  parsed-There :
      (cfg : Config) (d : Delivery) (payload : SmsSendPayload) (m a : Option Uuid)
      → Keeps There (parsed env cfg d payload m a)
  unfolding parsed
  parsed-There cfg d payload none a = Keeps-pure acked
  parsed-There cfg d payload (some m) none = Keeps-pure acked
  parsed-There cfg d payload (some m) (some a) = process-There cfg d payload a m

  decoded-There :
      (cfg : Config) (d : Delivery) (body : PayloadBytes) → Keeps There (decoded env cfg d body)
  unfolding decoded
  decoded-There cfg d malformed = Keeps-pure acked
  decoded-There cfg d (encoded payload) = parsed-There cfg d payload _ _

  handle_delivery-There : (cfg : Config) (d : Delivery) → Keeps There (handle_delivery env cfg d)
  unfolding handle_delivery
  handle_delivery-There cfg d = decoded-There cfg d d.body

-- Whatever the outcomes of the statements and the replies of the operator, a message whose status
-- is sent, failed or dead_lettered is unchanged by the handling of any delivery, of its own or of
-- another message.
pub handle_delivery-final :
    (env : Env) (cfg : Config) (d : Delivery) (s : Session) (account_id message_id : Uuid)
    (row : SmsMessageModel)
    → is_final row.status ≡ true
    → find (by_account_and_id account_id message_id) s.tables.sms_messages ≡ some row
    → find
        (by_account_and_id account_id message_id)
        (handle_delivery env cfg d s).1.tables.sms_messages
      ≡ some row
handle_delivery-final env cfg d s account_id message_id row final h =
    (handle_delivery-There env account_id message_id row final cfg d).at s h
