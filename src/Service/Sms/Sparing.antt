-- ===== src/Service/Sms/Sparing.antt =====
-- The transaction of a send leaves the cache of responses alone.
use arvan.Prelude.{⊤, suc, String, Bool, true, false, Option, none, some, ◌==◌, refl}
use arvan.Prelude.Int.{ℤ}
use arvan.Domain.{
  Uuid, Time, placeholder, LedgerEntry, SmsMessage, OutboxEvent, Snapshot, Encoding, SendSmsInput,
  SendSmsResult, IdempotencyRecord, IdempotencyResponse, duplicated_key, Result, ok, err,
}
use arvan.Database.{
  IdempotencyKeyModel, Tables, Env, Exec, ◌>>=◌, pure, attempt, new_uuid, time_now, statement,
}
use arvan.Database.Spares.{
  Spares, Spares-statement, Spares-translate, Spares-pure, Spares-raise, Spares-attempt,
  Spares-bind, Spares-raise_if, Spares-if,
}
use arvan.Database.Sql.{unchanged}
use arvan.Repository.Account as Account
use arvan.Repository.Ledger as Ledger
use arvan.Repository.Sms as Sms
use arvan.Repository.Outbox as Outbox
use arvan.Repository.Idempotency as Idempotency
use arvan.Service.Sms.{
  replay_as, replay, store_snapshot, record_send, charge, charge_or_replay, send_tx,
}

-- The row of a claim.
abbrev claim_row : Uuid → String → Uuid → Time → IdempotencyKeyModel
claim_row account_id key id now = record {
  id = id;
  account_id = account_id;
  idempotency_key = key;
  response_snapshot = placeholder;
  created_at = now;
}

module _ (env : Env) where
  account_by_id-Spares : (id : Uuid) → Spares (Account.account_by_id env id)
  unfolding Account.account_by_id
  account_by_id-Spares id = Spares-translate _ (Spares-statement env _)

  lock-Spares : (id : Uuid) → Spares (Account.lock_account_for_update env id)
  unfolding Account.lock_account_for_update
  lock-Spares id = Spares-bind _ _ (account_by_id-Spares id) (λ model. Spares-pure model.balance)

  deduct-Spares : (id : Uuid) (cost : ℤ) → Spares (Account.deduct_locked_balance env id cost)
  unfolding Account.deduct_locked_balance
  deduct-Spares id cost = Spares-bind _ _ (account_by_id-Spares id) λ model.
      Spares-bind _ _ (Spares-raise_if _ _)
        λ _. Spares-bind _ _ (Spares-statement env _) (λ _. Spares-pure _)

  new_uuid-Spares : Spares (new_uuid env)
  new_uuid-Spares = record { at = λ s. refl }

  time_now-Spares : Spares (time_now env)
  time_now-Spares = record { at = λ s. refl }

  replay_as-Spares : (status : String) (id : Option Uuid) → Spares (replay_as env status id)
  unfolding replay_as
  replay_as-Spares status none = Spares-raise _
  replay_as-Spares status (some id) = Spares-pure _

  sms-Spares : (msg : SmsMessage) → Spares (Sms.create env msg)
  unfolding Sms.create
  sms-Spares msg = record { at = λ s. (Spares-statement env _).at (record s { step = suc s.step }) }

  outbox-Spares : (event : OutboxEvent) → Spares (Outbox.create env event)
  unfolding Outbox.create
  outbox-Spares event = record {
    at = λ s. (Spares-statement env _).at (record s { step = suc s.step });
  }

  entry_id-Spares : (id : Uuid) → Spares (Ledger.entry_id env id)
  unfolding Ledger.entry_id
  entry_id-Spares id =
      Spares-if (id == 0) (new_uuid env) (pure id) (record { at = λ s. refl }) (Spares-pure id)

  ledger-Spares : (entry : LedgerEntry) → Spares (Ledger.create env entry)
  unfolding Ledger.create
  ledger-Spares entry =
      Spares-bind (Ledger.entry_id env entry.id) _ (entry_id-Spares entry.id)
        λ id. record { at = λ s. (Spares-statement env _).at (record s { step = suc s.step }) }

  find-Spares :
      (account_id : Uuid) (key : String)
      → Spares (Idempotency.find_by_account_and_key env account_id key)
  unfolding Idempotency.find_by_account_and_key
  find-Spares account_id key =
      Spares-bind _ _ (Spares-translate _ (Spares-statement env _)) (λ model. Spares-pure _)

  claimed_or_existing-Spares :
      (model : IdempotencyKeyModel) (savepoint : Tables) (r : Result ⊤)
      → Spares (Idempotency.claimed_or_existing env model savepoint r)
  unfolding Idempotency.claimed_or_existing
  claimed_or_existing-Spares model savepoint (ok _) = Spares-pure _
  claimed_or_existing-Spares model savepoint (err duplicated_key) =
      Spares-bind {A = ⊤} (statement env (λ t. (ok tt, savepoint))) _
        (Spares-statement env (λ t. (ok tt, savepoint)))
        λ _.
          Spares-bind _ _ (find-Spares model.account_id model.idempotency_key)
            (λ existing. Spares-pure (existing, false))
  claimed_or_existing-Spares model savepoint (err e) = Spares-raise e

  -- The insertion, from the session behind the savepoint on.
  abbrev inserting : Uuid → String → Uuid → Exec (IdempotencyRecord × Bool)
  inserting account_id key id s =
      let model = claim_row account_id key id (env.now s.step) in
      (attempt (statement env (Idempotency.insert_key model))
          >>= Idempotency.claimed_or_existing env model s.tables)
        (record s { step = suc s.step })

  inserting-Spares :
      (account_id : Uuid) (key : String) (id : Uuid) → Spares (inserting account_id key id)
  inserting-Spares account_id key id = record {
    at = λ s.
        let model = claim_row account_id key id (env.now s.step) in
        (Spares-bind (attempt (statement env (Idempotency.insert_key model))) _
            (Spares-attempt _ (Spares-statement env (Idempotency.insert_key model)))
            (claimed_or_existing-Spares model s.tables)).at
          (record s { step = suc s.step });
  }

  claim-Spares :
      (account_id : Uuid) (key : String) → Spares (Idempotency.claim_or_get env account_id key)
  unfolding Idempotency.claim_or_get
  claim-Spares account_id key =
      Spares-bind (new_uuid env) _ (record { at = λ s. refl })
        λ id.
          Spares-bind {A = ⊤} (statement env unchanged) (λ _. inserting account_id key id)
            (Spares-statement env unchanged) (λ _. inserting-Spares account_id key id)

  update-Spares :
      (account_id : Uuid) (key : String) (snapshot : Snapshot)
      → Spares (Idempotency.update_snapshot env account_id key snapshot)
  unfolding Idempotency.update_snapshot
  update-Spares account_id key snapshot =
      Spares-bind _ _ (Spares-statement env _) (λ affected. Spares-raise_if _ _)

  store-Spares :
      (account_id : Uuid) (key : Option String) (r : SendSmsResult)
      → Spares (store_snapshot env account_id key r)
  unfolding store_snapshot
  store-Spares account_id none r = Spares-pure tt
  store-Spares account_id (some key) r = update-Spares account_id key _

  replay-Spares : (cached : Option IdempotencyResponse) → Spares (replay env cached)
  unfolding replay
  replay-Spares none = Spares-raise _
  replay-Spares (some cached) = replay_as-Spares cached.status (env.uuid_parse cached.message_id)

  module _ (account_id : Uuid) (input : SendSmsInput) (encoding : Encoding)
      (message_id outbox_id : Uuid) where
    charge-Spares : Spares (charge env account_id input encoding message_id outbox_id)
    unfolding charge record_send
    charge-Spares = Spares-bind _ _ (lock-Spares account_id) λ balance.
        Spares-bind _ _ (Spares-raise_if _ _) λ _. Spares-bind _ _ (deduct-Spares account_id _) λ _.
          Spares-bind _ _ (ledger-Spares _) λ _. Spares-bind _ _ (sms-Spares _) λ _.
            Spares-bind _ _ (outbox-Spares _)
              λ _. Spares-bind _ _ (store-Spares account_id _ _) (λ _. Spares-pure _)

    charge_or_replay-Spares :
        (claim : IdempotencyRecord × Bool)
        → Spares (charge_or_replay env account_id input encoding message_id outbox_id claim)
    unfolding charge_or_replay
    charge_or_replay-Spares (existing, true) = charge-Spares
    charge_or_replay-Spares (existing, false) = replay-Spares _

    pub send_tx-Spares :
        (key : Option String)
        → Spares (send_tx env account_id input encoding message_id outbox_id key)
    unfolding send_tx
    send_tx-Spares none = charge-Spares
    send_tx-Spares (some key) =
        Spares-bind _ _ (claim-Spares account_id key) charge_or_replay-Spares
