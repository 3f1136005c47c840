-- ===== src/Repository/Success/Inserts.antt =====
-- The methods of the repositories where every statement is done: messages, events and keys.
use arvan.Prelude.{
  zero, ==_refl, eq_refl, ⊤, ℕ, true, false, none, ◌≡◌, refl, suc, [], ◌∷◌, ◌++◌, ◌==◌, String,
}
use arvan.Prelude.Lists.{has, count}
use arvan.Domain.{Uuid, SmsMessage, OutboxEvent, Snapshot, placeholder, not_found, Result, ok}
use arvan.Database.{
  SmsMessageModel, OutboxEventModel, IdempotencyKeyModel, Tables, done, Env, Session, Exec,
}
use arvan.Database.Sql.{unchanged}
use arvan.Database.Success.{
  Succeeds, Succeeds-ok, Succeeds-bind, Succeeds-weaken, statement-Succeeds,
}
use arvan.Repository.Account.{by_id}
use arvan.Repository.Sms
use arvan.Repository.Sms.{insert_sms}
use arvan.Repository.Outbox
use arvan.Repository.Outbox.{insert_outbox, event_by_id}
use arvan.Repository.Idempotency
use arvan.Repository.Idempotency.{by_account_and_key, insert_key, write_snapshot, set_snapshot}
use arvan.Repository.Success.{Succeeds-passed}

inserted_sms :
    (m : SmsMessageModel) (t : Tables)
    → has (λ (e : SmsMessageModel). e.id == m.id) t.sms_messages ≡ false
    → has (by_id m.account_id) t.accounts ≡ true
    → insert_sms m t ≡ (ok tt, record t { sms_messages = t.sms_messages ++ m ∷ [] })
unfolding insert_sms
inserted_sms m t h k = rw (h, k)

inserted_event :
    (m : OutboxEventModel) (t : Tables)
    → has (event_by_id m.id) t.outbox_events ≡ false
    → insert_outbox m t ≡ (ok tt, record t { outbox_events = t.outbox_events ++ m ∷ [] })
unfolding insert_outbox
inserted_event m t h = rw h

inserted_key :
    (m : IdempotencyKeyModel) (t : Tables)
    → has (λ (e : IdempotencyKeyModel). e.id == m.id) t.idempotency_keys ≡ false
    → has (by_account_and_key m.account_id m.idempotency_key) t.idempotency_keys ≡ false
    → has (by_id m.account_id) t.accounts ≡ true
    → insert_key m t ≡ (ok tt, record t { idempotency_keys = t.idempotency_keys ++ m ∷ [] })
unfolding insert_key
inserted_key m t h k there = rw (h, k, there)

-- An error that is handled as a value, where there is none.
attempt-Succeeds :
    {A B : Type 0} (P : A → Tables → Type 0) (Q : B → Tables → Type 0) (f : Result A → Exec B)
    (r : Result A × Session)
    → Succeeds P r
    → ((a : A) (t : Session) → P a t.tables → Succeeds Q (f (ok a) t))
    → Succeeds Q (f r.0 r.1)
attempt-Succeeds P Q f r h k = rw h.runs (k h.answer h.left h.holds)

module _ (env : Env) (all_done : (n : ℕ) → env.outcome n ≡ done) where
  -- A message whose identifier is free, of an account that is there.
  pub create_sms-Succeeds :
      (msg : SmsMessage) (s : Session)
      → has (λ (m : SmsMessageModel). m.id == msg.id) s.tables.sms_messages ≡ false
      → has (by_id msg.account_id) s.tables.accounts ≡ true
      → Succeeds
          (λ _ u.
            (m : SmsMessageModel) × (u
              ≡ record s.tables { sms_messages = s.tables.sms_messages ++ m ∷ [] }))
          (Sms.create env msg s)
  unfolding Sms.create
  create_sms-Succeeds msg s free there =
      let row : SmsMessageModel = record {
        id = msg.id;
        account_id = msg.account_id;
        to_number = msg.to_number;
        body = msg.body;
        encoding = msg.encoding;
        message_type = msg.message_type;
        status = msg.status;
        cost = msg.cost;
        idempotency_key = msg.idempotency_key;
        created_at = env.now s.step;
        sent_at = none;
      } in
      Succeeds-weaken
        (statement-Succeeds env all_done (insert_sms row) (record s { step = suc s.step }) tt _
          (inserted_sms row s.tables free there))
        (λ _ u (_, e). (row, e))

  -- An event whose identifier is free.
  pub create_event-Succeeds :
      (event : OutboxEvent) (s : Session)
      → has (event_by_id event.id) s.tables.outbox_events ≡ false
      → Succeeds
          (λ _ u.
            (e : OutboxEventModel) × (u
              ≡ record s.tables { outbox_events = s.tables.outbox_events ++ e ∷ [] }))
          (Outbox.create env event s)
  unfolding Outbox.create
  create_event-Succeeds event s free =
      let row : OutboxEventModel = record {
        id = event.id;
        aggregate_id = event.aggregate_id;
        event_type = event.event_type;
        payload = event.payload;
        status = event.status;
        locked_until = none;
        published_at = none;
        retry_count = zero;
        created_at = env.now s.step;
      } in
      Succeeds-weaken
        (statement-Succeeds env all_done (insert_outbox row) (record s { step = suc s.step }) tt _
          (inserted_event row s.tables free))
        (λ _ u (_, e). (row, e))

  -- The snapshot of a key that is there.
  pub update_snapshot-Succeeds :
      (account_id : Uuid) (key : String) (snapshot : Snapshot) (s : Session)
      → (count (by_account_and_key account_id key) s.tables.idempotency_keys == 0) ≡ false
      → Succeeds (λ _ _. ⊤) (Idempotency.update_snapshot env account_id key snapshot s)
  unfolding Idempotency.update_snapshot write_snapshot
  update_snapshot-Succeeds account_id key snapshot s there =
      Succeeds-bind _ _
        (statement-Succeeds env all_done (write_snapshot account_id key snapshot) s
          (count (by_account_and_key account_id key) s.tables.idempotency_keys) _ refl)
        (λ affected t (is_count, _).
          Succeeds-weaken (Succeeds-passed not_found (affected == 0) t (rw is_count there))
            (λ _ _ _. tt))

  -- A key that nobody has claimed, of an account that is there.
  pub claim-Succeeds :
      (account_id : Uuid) (key : String) (s : Session)
      → ((n : ℕ)
          → has (λ (m : IdempotencyKeyModel). m.id == env.new_uuid n) s.tables.idempotency_keys
            ≡ false)
      → has (by_account_and_key account_id key) s.tables.idempotency_keys ≡ false
      → has (by_id account_id) s.tables.accounts ≡ true
      → Succeeds
          (λ claim u.
            (claim.1 ≡ true)
            × ((m : IdempotencyKeyModel) × (by_account_and_key account_id key m ≡ true)
                × (u ≡ record s.tables { idempotency_keys = s.tables.idempotency_keys ++ m ∷ [] })))
          (Idempotency.claim_or_get env account_id key s)
  unfolding Idempotency.claim_or_get Idempotency.claimed_or_existing
  claim-Succeeds account_id key s fresh free there =
      Succeeds-bind _ _
        (statement-Succeeds env all_done unchanged (record s { step = suc s.step }) tt s.tables
          refl)
        λ _ t (_, same).
          let row : IdempotencyKeyModel = record {
            id = env.new_uuid s.step;
            account_id = account_id;
            idempotency_key = key;
            response_snapshot = placeholder;
            created_at = env.now t.step;
          } in
          attempt-Succeeds _ _ (Idempotency.claimed_or_existing env row t.tables) _
            (statement-Succeeds env all_done (insert_key row) (record t { step = suc t.step }) tt _
              (inserted_key row t.tables (rw same (fresh s.step)) (rw same free) (rw same there)))
            (λ _ u (_, e).
              Succeeds-ok _ _ u
                (refl, (row, rw (==_refl account_id, eq_refl key) refl, rw (e, same) refl)))
