-- ===== src/Service/Sms/Charge.antt =====
-- What the transaction of a send does to the rows once the key of the request is out of the way.
use arvan.Prelude.{String, Option, none, some, ◌≡◌, refl, List, [], ◌∷◌, ◌++◌}
use arvan.Prelude.Int.{◌-ℤ◌, ◌≤ℤ◌, ltb_ℤ, negate, int64}
use arvan.Prelude.Lists.{find, update}
use arvan.Domain.{
  Uuid, Encoding, pending, SendSmsInput, SendSmsResult, sms_cost_per_message, insufficient_balance,
}
use arvan.Domain.Idempotency.{marshal_idempotency_response}
use arvan.Database.{
  AccountModel, LedgerModel, SmsMessageModel, OutboxEventModel, IdempotencyKeyModel, Tables, Env,
  Session,
}
use arvan.Database.Laws.{Yields, Yields-bind, Yields-weaken, raise_if-Yields}
use arvan.Repository.Account.{by_id, save}
use arvan.Repository.Account.Laws.{lock_account_for_update-Yields, deduct_locked_balance-Yields}
use arvan.Repository.Sms.{to_domain_sms}
use arvan.Repository.Ledger.Laws as LedgerLaws
use arvan.Repository.Sms.Laws as SmsLaws
use arvan.Repository.Outbox.Laws as OutboxLaws
use arvan.Repository.Idempotency.{by_account_and_key, set_snapshot}
use arvan.Repository.Idempotency.Laws.{update_snapshot-Yields}
use arvan.Service.Sms.{
  active_key, send_entry, accepted_result, message, send_event, store_snapshot, record_send, charge,
}

module _ (env : Env) where
  -- The keys after the snapshot of an accepted request was stored.
  abbrev pub stored :
      Uuid → Option String → SendSmsResult → List IdempotencyKeyModel → List IdempotencyKeyModel
  stored account_id none result keys = keys
  stored account_id (some key) result keys =
      update (by_account_and_key account_id key)
        (set_snapshot (marshal_idempotency_response env.uuid_string result)) keys

  store_snapshot-Yields :
      (account_id : Uuid) (key : Option String) (result : SendSmsResult) (s : Session)
      → Yields
          (λ _ t. t.tables ≡ record s.tables {
            idempotency_keys = stored account_id key result s.tables.idempotency_keys;
          })
          (store_snapshot env account_id key result s)
  unfolding store_snapshot
  store_snapshot-Yields account_id none result s = record { holds = refl }
  store_snapshot-Yields account_id (some key) result s =
      update_snapshot-Yields env account_id key
        (marshal_idempotency_response env.uuid_string result) s

  module _ (account_id : Uuid) (input : SendSmsInput) (encoding : Encoding)
      (message_id outbox_id : Uuid) where
    -- Three rows that name one another, and the snapshot, are added to the tables.
    pub record Recorded (t u : Tables) : Type 0 where
      pub entry : LedgerModel
      pub sms : SmsMessageModel
      pub event : OutboxEventModel
      pub rows : u ≡ record t {
        account_ledger = t.account_ledger ++ entry ∷ [];
        sms_messages = t.sms_messages ++ sms ∷ [];
        outbox_events = t.outbox_events ++ event ∷ [];
        idempotency_keys =
            stored account_id
              (active_key input.idempotency_key)
              (accepted_result message_id)
              t.idempotency_keys;
      }
      pub entry_account : entry.account_id ≡ account_id
      pub entry_delta : entry.delta ≡ negate sms_cost_per_message
      pub entry_ref : entry.ref_id ≡ some message_id
      pub sms_content :
          to_domain_sms sms ≡ record (message env account_id input encoding message_id) {
            created_at = sms.created_at;
          }
      pub event_aggregate : event.aggregate_id ≡ message_id
      pub event_payload :
          event.payload ≡ (send_event env account_id input message_id outbox_id).payload
      pub event_status : event.status ≡ pending
      pub event_unlocked : event.locked_until ≡ none

    -- The tables `u` are `t` with one message charged: the balance covered the cost and is lower by
    -- it, and the rows of the message are there.
    pub record Charged (t u : Tables) : Type 0 where
      pub row : AccountModel
      pub at_id : find (by_id account_id) t.accounts ≡ some row
      pub funded : sms_cost_per_message ≤ℤ row.balance
      pub recorded :
          Recorded
            (record t {
              accounts =
                  save
                    (record row { balance = int64 (row.balance -ℤ sms_cost_per_message) })
                    t.accounts;
            })
            u

    record_send-Yields :
        (s : Session)
        → Yields
            (λ r t. (r ≡ accepted_result message_id) × Recorded s.tables t.tables)
            (record_send env account_id input encoding message_id outbox_id s)
    unfolding record_send
    record_send-Yields s =
        Yields-bind (LedgerLaws.create-Yields env (send_entry account_id message_id) s)
          λ _ s1 entry.
            Yields-bind
              (SmsLaws.create-Yields env (message env account_id input encoding message_id) s1)
              λ _ s2 sms.
                Yields-bind
                  (OutboxLaws.create-Yields env
                    (send_event env account_id input message_id outbox_id) s2)
                  λ _ s3 event.
                    Yields-bind
                      (store_snapshot-Yields account_id (active_key input.idempotency_key)
                        (accepted_result message_id) s3)
                      λ _ s4 keys. record {
                        holds = (
                          refl,
                          record {
                            entry = entry.row;
                            sms = sms.row;
                            event = event.row;
                            rows = rw (keys, event.rows, sms.rows, entry.rows);
                            entry_account = entry.account_id;
                            entry_delta = entry.delta;
                            entry_ref = entry.ref_id;
                            sms_content = sms.content;
                            event_aggregate = event.aggregate_id;
                            event_payload = event.payload;
                            event_status = event.status;
                            event_unlocked = event.unlocked;
                          },
                        );
                      }

    pub charge-Yields :
        (s : Session)
        → Yields
            (λ r t. (r ≡ accepted_result message_id) × Charged s.tables t.tables)
            (charge env account_id input encoding message_id outbox_id s)
    unfolding charge
    charge-Yields s =
        Yields-bind (lock_account_for_update-Yields env account_id s)
          λ locked s1 (row0, at_id0, locked_is, same).
            Yields-bind
              (raise_if-Yields (ltb_ℤ locked sms_cost_per_message) insufficient_balance s1)
              λ _ s2 (passed, same2).
                Yields-bind (deduct_locked_balance-Yields env account_id sms_cost_per_message s2)
                  λ left s3 (row, at_id, funded, left_is, positive, deducted).
                    Yields-weaken (record_send-Yields s3) λ r s4 (r_is, recorded). (
                      r_is,
                      record {
                        row = row;
                        at_id = rw (same2, same) at at_id;
                        funded = funded;
                        recorded = rw (deducted, left_is, same2, same) at recorded;
                      },
                    )
