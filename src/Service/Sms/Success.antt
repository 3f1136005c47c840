-- ===== src/Service/Sms/Success.antt =====
-- SMSService.Send of internal/service/sms.go where every statement is done.
use arvan.Prelude.{
  ⊤, ℕ, suc, true, false, String, Option, none, some, ◌≡◌, refl, List, [], ◌∷◌, ◌++◌, arith, ◌==◌,
}
use arvan.Prelude.Int.{ℤ, pos, ◌-ℤ◌, ◌≤ℤ◌, ltb_ℤ, int64, negate, IsInt64, int64_difference}
use arvan.Prelude.Lists.{find, has, count}
use arvan.Domain.{
  Uuid, Encoding, SendSmsInput, SendSmsResult, sms_cost_per_message, insufficient_balance,
  send as send_reason,
}
use arvan.Domain.Idempotency.{marshal_idempotency_response}
use arvan.Database.{
  AccountModel, LedgerModel, SmsMessageModel, IdempotencyKeyModel, Tables, done, Env, Session, pure,
}
use arvan.Database.Success.{
  Succeeds, Succeeds-ok, Succeeds-bind, Succeeds-weaken, statement-Succeeds,
}
use arvan.Repository.Account.{by_id}
use arvan.Repository.Ledger
use arvan.Repository.Ledger.{insert_ledger}
use arvan.Repository.Outbox.{event_by_id}
use arvan.Repository.Idempotency.{by_account_and_key}
use arvan.Repository.Success.{
  inserted_entry, saved-has, Succeeds-passed, lock-Succeeds, deduct-Succeeds,
}
use arvan.Repository.Success.Inserts.{
  create_sms-Succeeds, create_event-Succeeds, update_snapshot-Succeeds,
}
use arvan.Service.Sms.{
  active_key, send_entry, accepted_result, message, send_event, store_snapshot, record_send, charge,
}

-- No row has an identifier that will be drawn.
pub record HasFreshIds (env : Env) (t : Tables) : Type 0 where
  pub ledger : (n : ℕ) → has (λ (e : LedgerModel). e.id == env.new_uuid n) t.account_ledger ≡ false
  pub messages :
      (n : ℕ) → has (λ (m : SmsMessageModel). m.id == env.new_uuid n) t.sms_messages ≡ false
  pub events : (n : ℕ) → has (event_by_id (env.new_uuid n)) t.outbox_events ≡ false
  pub keys :
      (n : ℕ) → has (λ (m : IdempotencyKeyModel). m.id == env.new_uuid n) t.idempotency_keys ≡ false

-- Nobody has claimed the key, where there is one.
abbrev pub IsUnclaimed : Uuid → Option String → Tables → Type 0
IsUnclaimed account_id none t = ⊤
IsUnclaimed account_id (some key) t =
    has (by_account_and_key account_id key) t.idempotency_keys ≡ false

-- The row of the key is there, where there is a key.
abbrev pub IsClaimed : Uuid → Option String → List IdempotencyKeyModel → Type 0
IsClaimed account_id none keys = ⊤
IsClaimed account_id (some key) keys = (count (by_account_and_key account_id key) keys == 0) ≡ false

-- The cost comes off a balance that covers it.
covered :
    (balance : ℤ)
    → IsInt64 balance
    → sms_cost_per_message ≤ℤ balance
    → pos 0 ≤ℤ int64 (balance -ℤ sms_cost_per_message)
covered balance fits funded =
    let (is_sum, positive, _) =
      int64_difference balance sms_cost_per_message fits (omega arith) funded in
    rw is_sum positive

module _ (env : Env) (all_done : (n : ℕ) → env.outcome n ≡ done) (account_id : Uuid)
    (input : SendSmsInput) (encoding : Encoding) where
  record_entry-Succeeds :
      (message_id : Uuid) (s : Session)
      → ((n : ℕ)
          → has (λ (e : LedgerModel). e.id == env.new_uuid n) s.tables.account_ledger ≡ false)
      → has (by_id account_id) s.tables.accounts ≡ true
      → Succeeds
          (λ _ u.
            (e : LedgerModel) × (u
              ≡ record s.tables { account_ledger = s.tables.account_ledger ++ e ∷ [] }))
          (Ledger.create env (send_entry account_id message_id) s)
  unfolding Ledger.create Ledger.entry_id
  record_entry-Succeeds message_id s fresh there =
      let row : LedgerModel = record {
        id = env.new_uuid s.step;
        account_id = account_id;
        delta = negate sms_cost_per_message;
        reason = send_reason;
        ref_id = some message_id;
        created_at = env.now (suc s.step);
      } in
      Succeeds-weaken
        (statement-Succeeds env all_done (insert_ledger row) (record s { step = suc (suc s.step) })
          tt _ (inserted_entry row s.tables (fresh s.step) there))
        (λ _ u (_, e). (row, e))

  store_snapshot-Succeeds :
      (key : Option String) (result : SendSmsResult) (s : Session)
      → IsClaimed account_id key s.tables.idempotency_keys
      → Succeeds (λ _ _. ⊤) (store_snapshot env account_id key result s)
  unfolding store_snapshot
  store_snapshot-Succeeds none result s claimed = Succeeds-ok _ tt s tt
  store_snapshot-Succeeds (some key) result s claimed =
      update_snapshot-Succeeds env all_done account_id key
        (marshal_idempotency_response env.uuid_string result) s claimed

  module _ (message_id outbox_id : Uuid) where
    -- What the charge relies on.
    pub record Ready (t : Tables) : Type 0 where
      pub ledger :
          (n : ℕ) → has (λ (e : LedgerModel). e.id == env.new_uuid n) t.account_ledger ≡ false
      pub sms : has (λ (m : SmsMessageModel). m.id == message_id) t.sms_messages ≡ false
      pub event : has (event_by_id outbox_id) t.outbox_events ≡ false
      pub key : IsClaimed account_id (active_key input.idempotency_key) t.idempotency_keys

    record_send-Succeeds :
        (s : Session)
        → Ready s.tables
        → has (by_id account_id) s.tables.accounts ≡ true
        → Succeeds
            (λ r _. r ≡ accepted_result message_id)
            (record_send env account_id input encoding message_id outbox_id s)
    unfolding record_send
    record_send-Succeeds s ready there =
        Succeeds-bind _ _ (record_entry-Succeeds message_id s ready.ledger there) λ _ s1 (e, t1).
          Succeeds-bind _ _
            (create_sms-Succeeds env all_done (message env account_id input encoding message_id) s1
              (rw t1 ready.sms) (rw t1 there))
            λ _ s2 (m, t2).
              Succeeds-bind _ _
                (create_event-Succeeds env all_done
                  (send_event env account_id input message_id outbox_id) s2
                  (rw (t2, t1) ready.event))
                λ _ s3 (o, t3).
                  Succeeds-bind (λ _. pure (accepted_result message_id)) _
                    (store_snapshot-Succeeds (active_key input.idempotency_key)
                      (accepted_result message_id) s3 (rw (t3, t2, t1) ready.key))
                    (λ _ s4 _. Succeeds-ok _ _ s4 refl)

    pub charge-Succeeds :
        (row : AccountModel) (s : Session)
        → find (by_id account_id) s.tables.accounts ≡ some row
        → sms_cost_per_message ≤ℤ row.balance
        → IsInt64 row.balance
        → Ready s.tables
        → Succeeds
            (λ r _. r ≡ accepted_result message_id)
            (charge env account_id input encoding message_id outbox_id s)
    unfolding charge
    charge-Succeeds row s at funded fits ready =
        Succeeds-bind _ _ (lock-Succeeds env all_done account_id row s at)
          λ locked s1 (is_balance, t1).
            Succeeds-bind _ _
              (Succeeds-passed insufficient_balance (ltb_ℤ locked sms_cost_per_message) s1
                (rw is_balance (ground arith)))
              λ _ s2 t2.
                Succeeds-bind _ _
                  (deduct-Succeeds env all_done account_id sms_cost_per_message row s2
                    (rw (t2, t1) at) funded (covered row.balance fits funded))
                  λ left s3 t3.
                    record_send-Succeeds s3
                      (record {
                        ledger = λ n. rw (t3, t2, t1) (ready.ledger n);
                        sms = rw (t3, t2, t1) ready.sms;
                        event = rw (t3, t2, t1) ready.event;
                        key = rw (t3, t2, t1) ready.key;
                      })
                      (rw (t3, t2, t1)
                        (saved-has account_id row
                          (record row { balance = int64 (row.balance -ℤ sms_cost_per_message) })
                          s.tables.accounts at refl))
