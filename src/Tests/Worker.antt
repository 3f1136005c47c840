-- ===== src/Tests/Worker.antt =====
-- Runs of the worker and of the relay at concrete inputs.
use arvan.Prelude.{true, false, none, some, [], ◌∷◌, ◌≡◌, ◌≤◌, refl, arith}
use arvan.Prelude.Int.{pos}
use arvan.Domain.{
  standard_queue, pending, published, sms_send_requested, express_queue, standard, gsm7, accepted,
  sent, encoded, SmsSendPayload,
}
use arvan.Worker.Processor.{
  Delivery, Config, is_final, should_dead_letter, process, handle_delivery,
}
use arvan.Worker.Processor.Status.{handle_delivery-final}
use arvan.Worker.Processor.Calls.Once.{handle_delivery-once}
use arvan.Worker.Processor.Calls.Claimed.{is_claimed, process-claimed}
use arvan.Worker.Retry.{empty, get}
use arvan.Worker.Retry.Laws.{unrecorded-kept}
use arvan.Worker.Bulkhead.{Bulkhead, acquire, release, sem, new_bulkhead}
use arvan.Worker.Bulkhead.Laws.{
  IsWithin, Steps, here, acquired, reachable-IsWithin, release-acquire, acquire-other,
}
use arvan.Database.Silent.{operator_calls}
use arvan.Repository.Sms.{by_account_and_id}
use arvan.Prelude.Lists.{find}
use arvan.Relay.{
  poll_once, publish_all, publish_event, publish_unpublished, publish_payload, publish,
  queue_for_message_type, mark_confirmed, mark_published_with_retry, retry_mark, after_publish,
}
use arvan.Relay.Once.{publish_event-published}
use arvan.Relay.Publication.{Publishes, publish_event-Publishes}
use arvan.Repository.OutboxRelay.{
  to_domain_outbox, claim_pending_batch, pending_batch, lock_batch, lock_rows, is_published,
  mark_published, marked_or_published, update_pending,
}
use arvan.Worker.Processor.{
  decoded, parsed, claim_delivery, claim_tx, claim_found, claim_inserted, claim_taken, proceed,
  finish_send, mark_sent,
}
use arvan.Worker.Retry.{delivery_attempt_count, x_death_count, count_deaths}
use arvan.Repository.Sms.{
  get_by_account_and_id, to_domain_sms, mark_sent_if_accepted, update_accepted,
}
use arvan.Repository.ProcessedConsumer.{mark_processed_if_new, insert_if_new}
use arvan.Prelude.{List}
use arvan.Domain.{SmsStatus}
use arvan.Database.{
  statement, transaction, dispatch, Session, SmsMessageModel, OutboxEventModel, published_to,
}
use arvan.Tests.{uuid_text, env, tables, session}

-- A message that the operator has, and a delivery of it.
abbrev sent_row : SmsMessageModel
sent_row = record {
  id = 3;
  account_id = 7;
  to_number = [];
  body = [];
  encoding = gsm7;
  message_type = standard;
  status = sent;
  cost = pos 1;
  idempotency_key = none;
  created_at = 1;
  sent_at = some 2;
}

abbrev pub payload : SmsSendPayload
payload = record {
  message_id = uuid_text 3;
  account_id = uuid_text 7;
  to = [];
  body = [];
  message_type = standard;
  trace_context = [];
}

abbrev delivery : Delivery
delivery = record { body = encoded payload; headers = empty; redelivered = true }

abbrev config : Config
config = record { max_delivery_attempts = pos 5; has_dlq = true }

abbrev worker_session : SmsMessageModel → Session
worker_session row = record session {
  tables = record tables {
    sms_messages = row ∷ [];
    processed_consumer_events = record { message_id = 3; processed_at = 1 } ∷ [];
  };
}

handle_delivery-final_example :
    find
      (by_account_and_id 7 3)
      (handle_delivery env config delivery (worker_session sent_row)).1.tables.sms_messages
    ≡ some sent_row
unfolding is_final
handle_delivery-final_example =
    handle_delivery-final env config delivery (worker_session sent_row) 7 3 sent_row refl refl

process-claimed_example :
    operator_calls
      (process env config delivery payload 7 3
        (worker_session (record sent_row { status = accepted }))).1.effects
    ≡ 0
unfolding is_claimed operator_calls
process-claimed_example =
    process-claimed env config delivery payload 7 3
      (worker_session (record sent_row { status = accepted })) refl

handle_delivery-once_example :
    operator_calls (handle_delivery env config delivery session).1.effects ≤ 1
unfolding operator_calls
handle_delivery-once_example = handle_delivery-once env config delivery session

abbrev bulkhead : Bulkhead
bulkhead = record {
  express = record { taken = 0; capacity = 20 };
  standard = record { taken = 49; capacity = 50 };
}

abbrev full_bulkhead : Bulkhead
full_bulkhead = record bulkhead { standard = record { taken = 50; capacity = 50 } }

takes : acquire standard_queue bulkhead ≡ some full_bulkhead
unfolding acquire
takes = refl

one_taken : Steps (new_bulkhead (pos 0) (pos 2)) (record {
  express = record { taken = 0; capacity = 20 };
  standard = record { taken = 1; capacity = 2 };
})
unfolding acquire new_bulkhead
one_taken = acquired standard_queue here refl

reachable-IsWithin_example : IsWithin (record {
  express = record { taken = 0; capacity = 20 };
  standard = record { taken = 1; capacity = 2 };
})
reachable-IsWithin_example = reachable-IsWithin (pos 0) (pos 2) _ one_taken

slot_comes_back : release standard_queue full_bulkhead ≡ bulkhead
slot_comes_back = release-acquire standard_queue bulkhead full_bulkhead takes

other_class_left : sem express_queue full_bulkhead ≡ sem express_queue bulkhead
other_class_left = acquire-other standard_queue express_queue bulkhead full_bulkhead refl takes

unrecorded-kept_example : should_dead_letter config delivery ≡ false
unfolding get
unrecorded-kept_example = unrecorded-kept config delivery (omega arith) refl

abbrev pub event_row : OutboxEventModel
event_row = record {
  id = 4;
  aggregate_id = 3;
  event_type = sms_send_requested;
  payload = encoded payload;
  status = pending;
  locked_until = none;
  published_at = none;
  retry_count = 0;
  created_at = 1;
}

abbrev relay_session : Session
relay_session = record session { tables = record tables { outbox_events = event_row ∷ [] } }

publish_event-Publishes_example :
    Publishes env 101
      (to_domain_outbox event_row)
      relay_session
      (publish_event env (to_domain_outbox event_row) relay_session).1
publish_event-Publishes_example =
    publish_event-Publishes env (to_domain_outbox event_row) relay_session

-- The relay publishes the pending event and marks it.
polls :
    (poll_once env (pos 10) 30 relay_session).1.effects
    ≡ published_to standard_queue (encoded payload) ∷ []
unfolding poll_once claim_pending_batch transaction statement pending_batch lock_batch lock_rows
    to_domain_outbox publish_all publish_event is_published publish_unpublished publish_payload
    publish queue_for_message_type mark_confirmed mark_published_with_retry retry_mark
    mark_published marked_or_published update_pending after_publish dispatch
polls = refl

abbrev published_row : OutboxEventModel
published_row = record event_row { status = published; published_at = some 2 }

publish_event-published_example :
    (publish_event env
      (to_domain_outbox event_row)
      (record session { tables = record tables { outbox_events = published_row ∷ [] } })).1.effects
    ≡ []
unfolding to_domain_outbox
publish_event-published_example =
    publish_event-published env (to_domain_outbox event_row) published_row
      (record session { tables = record tables { outbox_events = published_row ∷ [] } }) refl refl

abbrev statuses : List SmsMessageModel → List SmsStatus
statuses [] = []
statuses (m ∷ rest) = m.status ∷ statuses rest

-- A redelivered message that is accepted and claimed is marked as sent; the operator is not called.
abbrev resumed : Session
resumed =
    (handle_delivery env config delivery (worker_session (record sent_row { status = accepted }))).1

resumes : (resumed.effects ≡ []) × (statuses resumed.tables.sms_messages ≡ sent ∷ [])
unfolding handle_delivery decoded parsed process should_dead_letter delivery_attempt_count
    x_death_count count_deaths get claim_delivery claim_tx claim_found claim_inserted claim_taken
    proceed finish_send mark_sent is_final transaction statement get_by_account_and_id to_domain_sms
    mark_processed_if_new insert_if_new mark_sent_if_accepted update_accepted
resumes = (refl, refl)
