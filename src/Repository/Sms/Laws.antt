-- ===== src/Repository/Sms/Laws.antt =====
-- What the methods of the message repository do to the rows.
use arvan.Prelude.{◌≡◌, refl, Bool, none, some, [], ◌∷◌, ◌++◌, ltb, arith}
use arvan.Prelude.Lists.{find, count, update}
use arvan.Domain.{Uuid, SmsMessage, ok}
use arvan.Database.{SmsMessageModel, Tables, Env, Session, time_now, statement}
use arvan.Database.Laws.{Yields, Yields-bind, Yields-weaken, statement-Yields}
use arvan.Database.Sql.Laws.{first-Yields}
use arvan.Repository.Sms.{
  insert_sms, to_domain_sms, by_account_and_id, accepted_row, update_accepted, create,
  get_by_account_and_id,
}

insert_sms-ok :
    (m : SmsMessageModel) (t : Tables) {u : Tables}
    → insert_sms m t ≡ (ok tt, u)
    → u ≡ record t { sms_messages = t.sms_messages ++ m ∷ [] }
unfolding insert_sms
insert_sms-ok m t h = ground arith

-- The rows after a message was appended: it is the message given, but for the time of its creation,
-- and it is not yet sent.
pub record Appended (msg : SmsMessage) (t u : Tables) : Type 0 where
  pub row : SmsMessageModel
  pub rows : u ≡ record t { sms_messages = t.sms_messages ++ row ∷ [] }
  pub content : to_domain_sms row ≡ record msg { created_at = row.created_at; sent_at = none }

module _ (env : Env) where
  pub create-Yields :
      (msg : SmsMessage) (s : Session)
      → Yields (λ _ t. Appended msg s.tables t.tables) (create env msg s)
  unfolding create to_domain_sms
  create-Yields msg s =
      let m : SmsMessageModel = record {
        id = msg.id;
        account_id = msg.account_id;
        to_number = msg.to_number;
        body = msg.body;
        encoding = msg.encoding;
        message_type = msg.message_type;
        status = msg.status;
        cost = msg.cost;
        idempotency_key = msg.idempotency_key;
        created_at = env.now s.step;
        sent_at = none;
      } in
      Yields-weaken (statement-Yields env (insert_sms m) (time_now env s).1)
        λ _ t saved. record { row = m; rows = insert_sms-ok m s.tables saved; content = refl }

  pub get_by_account_and_id-Yields :
      (account_id message_id : Uuid) (s : Session)
      → Yields
          (λ msg t.
            (row : SmsMessageModel) × (find
                (by_account_and_id account_id message_id)
                s.tables.sms_messages
              ≡ some row)
            × (msg ≡ to_domain_sms row)
            × (t.tables ≡ s.tables))
          (get_by_account_and_id env account_id message_id s)
  unfolding get_by_account_and_id
  get_by_account_and_id-Yields account_id message_id s =
      Yields-bind
        (first-Yields env (λ t. t.sms_messages) (by_account_and_id account_id message_id) s)
        (λ row t (at_id, same). record { holds = (row, at_id, refl, same) })

  -- What an UPDATE of the accepted row answers and leaves.
  abbrev pub Updated :
      Uuid → Uuid → (SmsMessageModel → SmsMessageModel) → Tables → Bool → Tables → Type 0
  Updated account_id message_id change t done u =
      (done ≡ ltb 0 (count (accepted_row account_id message_id) t.sms_messages))
      × (u ≡ record t {
        sms_messages = update (accepted_row account_id message_id) change t.sms_messages;
      })

  update_accepted-Yields :
      (account_id message_id : Uuid) (change : SmsMessageModel → SmsMessageModel) (s : Session)
      → Yields
          (λ done t. Updated account_id message_id change s.tables done t.tables)
          (statement env (update_accepted account_id message_id change) s)
  unfolding update_accepted
  update_accepted-Yields account_id message_id change s =
      Yields-weaken (statement-Yields env (update_accepted account_id message_id change) s)
        (λ done t h. (ground arith, ground arith))
