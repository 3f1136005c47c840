-- ===== src/Repository/Sms.antt =====
-- internal/repository/sms.go: the insertion of a message, the read inside a transaction, and the
-- three guarded changes of status.
pub mod Laws
use arvan.Prelude.{
  ⊤, ℕ, Bool, true, false, Option, none, some, List, [], ◌∷◌, ◌++◌, ◌&&◌, ltb, ◌==◌, if◌then◌else◌,
}
use arvan.Prelude.Lists.{has, count, update}
use arvan.Domain.{
  Uuid, SmsMessage, SmsStatus, accepted, sent, failed, dead_lettered, Result, ok, err,
  duplicated_key, driver_error,
}
use arvan.Database.{SmsMessageModel, Tables, Env, Exec, pure, ◌>>=◌, time_now, statement}
use arvan.Database.Sql.{first, with_domain_errors}
use arvan.Prelude.Int.{ℤ}
use arvan.Repository.Page.{list_mapped}
use arvan.Repository.Account.{by_id}

unfoldable pub to_domain_sms : SmsMessageModel → SmsMessage
to_domain_sms m = record {
  id = m.id;
  account_id = m.account_id;
  to_number = m.to_number;
  body = m.body;
  encoding = m.encoding;
  message_type = m.message_type;
  status = m.status;
  cost = m.cost;
  idempotency_key = m.idempotency_key;
  created_at = m.created_at;
  sent_at = m.sent_at;
}

-- The INSERT of a message: `id` is the key and `account_id` refers to an account.
unfoldable pub insert_sms : SmsMessageModel → Tables → Result ⊤ × Tables
insert_sms m t =
    if has (λ (e : SmsMessageModel). e.id == m.id) t.sms_messages
    then (err duplicated_key, t)
    else if has (by_id m.account_id) t.accounts
    then (ok tt, record t { sms_messages = t.sms_messages ++ m ∷ [] })
    else (err driver_error, t)

-- "id = ? AND account_id = ?"
abbrev pub by_account_and_id : Uuid → Uuid → SmsMessageModel → Bool
by_account_and_id account_id message_id m = (m.id == message_id) && (m.account_id == account_id)

abbrev pub is_accepted : SmsStatus → Bool
is_accepted accepted = true
is_accepted _ = false

-- "account_id = ?"
abbrev pub of_account : Uuid → SmsMessageModel → Bool
of_account account_id m = m.account_id == account_id

-- "id = ? AND account_id = ? AND status = ?" with the status 'accepted'
abbrev pub accepted_row : Uuid → Uuid → SmsMessageModel → Bool
accepted_row account_id message_id m =
    by_account_and_id account_id message_id m && is_accepted m.status

abbrev pub set_status : SmsStatus → SmsMessageModel → SmsMessageModel
set_status status m = record m { status = status }

abbrev pub set_sent : ℕ → SmsMessageModel → SmsMessageModel
set_sent now m = record m { status = sent; sent_at = some now }

-- An UPDATE of the accepted row, and whether it affected one.
unfoldable pub update_accepted :
    Uuid → Uuid → (SmsMessageModel → SmsMessageModel) → Tables → Result Bool × Tables
update_accepted account_id message_id change t = (
  ok (ltb 0 (count (accepted_row account_id message_id) t.sms_messages)),
  record t { sms_messages = update (accepted_row account_id message_id) change t.sms_messages },
)

module _ (env : Env) where
  unfoldable pub create : SmsMessage → Exec ⊤
  create msg = do
    now ← time_now env
    statement env (
        insert_sms (record {
          id = msg.id;
          account_id = msg.account_id;
          to_number = msg.to_number;
          body = msg.body;
          encoding = msg.encoding;
          message_type = msg.message_type;
          status = msg.status;
          cost = msg.cost;
          idempotency_key = msg.idempotency_key;
          created_at = now;
          sent_at = none;
        }))

  -- GetByAccountAndIDTx
  unfoldable pub get_by_account_and_id : Uuid → Uuid → Exec SmsMessage
  get_by_account_and_id account_id message_id = do
    model ←
        with_domain_errors
          (statement env (first (λ t. t.sms_messages) (by_account_and_id account_id message_id)))
    pure (to_domain_sms model)

  unfoldable pub mark_sent_if_accepted : Uuid → Uuid → Exec Bool
  mark_sent_if_accepted account_id message_id = do
    now ← time_now env
    statement env (update_accepted account_id message_id (set_sent now))

  unfoldable pub mark_dead_lettered_if_accepted : Uuid → Uuid → Exec Bool
  mark_dead_lettered_if_accepted account_id message_id =
      statement env (update_accepted account_id message_id (set_status dead_lettered))

  unfoldable pub mark_failed_if_accepted : Uuid → Uuid → Exec Bool
  mark_failed_if_accepted account_id message_id =
      statement env (update_accepted account_id message_id (set_status failed))

  unfoldable pub list_by_account : Uuid → ℤ → Option Uuid → Exec (List SmsMessage)
  list_by_account account_id limit cursor =
      list_mapped env (λ (m : SmsMessageModel). m.created_at) (λ m. m.id) (λ t. t.sms_messages)
        (of_account account_id) to_domain_sms limit cursor
