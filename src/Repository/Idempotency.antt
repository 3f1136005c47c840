-- ===== src/Repository/Idempotency.antt =====
-- internal/repository/idempotency.go: the claim of a key behind a savepoint, and its snapshot.
pub mod Laws
pub mod Stored
use arvan.Prelude.{
  ⊤, ℕ, String, Bool, true, false, [], ◌∷◌, ◌++◌, ◌&&◌, ◌||◌, ◌==◌, str_eq, if◌then◌else◌,
}
use arvan.Prelude.Lists.{has, count, update}
use arvan.Domain.{
  Uuid, IdempotencyRecord, Snapshot, placeholder, Result, ok, err, duplicated_key, driver_error,
  not_found,
}
use arvan.Database.{
  IdempotencyKeyModel, Tables, Env, Exec, pure, raise, raise_if, attempt, ◌>>=◌, ◌>>◌, new_uuid,
  time_now, statement,
}
use arvan.Database.Sql.{first, unchanged, with_domain_errors}
use arvan.Repository.Account.{by_id}

unfoldable pub to_domain_idempotency : IdempotencyKeyModel → IdempotencyRecord
to_domain_idempotency m = record {
  id = m.id;
  account_id = m.account_id;
  key = m.idempotency_key;
  response_snapshot = m.response_snapshot;
  created_at = m.created_at;
}

-- "account_id = ? AND idempotency_key = ?"
abbrev pub by_account_and_key : Uuid → String → IdempotencyKeyModel → Bool
by_account_and_key account_id key m = (m.account_id == account_id) && str_eq m.idempotency_key key

-- The INSERT of a key: `id` is the key of the table, (account_id, idempotency_key) is unique, and
-- `account_id` refers to an account.
unfoldable pub insert_key : IdempotencyKeyModel → Tables → Result ⊤ × Tables
insert_key m t =
    if has (λ (e : IdempotencyKeyModel). e.id == m.id) t.idempotency_keys
      || has (by_account_and_key m.account_id m.idempotency_key) t.idempotency_keys
    then (err duplicated_key, t)
    else if has (by_id m.account_id) t.accounts
    then (ok tt, record t { idempotency_keys = t.idempotency_keys ++ m ∷ [] })
    else (err driver_error, t)

abbrev pub set_snapshot : Snapshot → IdempotencyKeyModel → IdempotencyKeyModel
set_snapshot snapshot m = record m { response_snapshot = snapshot }

-- The UPDATE of a snapshot, and how many rows it affected.
unfoldable pub write_snapshot : Uuid → String → Snapshot → Tables → Result ℕ × Tables
write_snapshot account_id key snapshot t = (
  ok (count (by_account_and_key account_id key) t.idempotency_keys),
  record t {
    idempotency_keys =
        update (by_account_and_key account_id key) (set_snapshot snapshot) t.idempotency_keys;
  },
)

-- The rows at the savepoint.
abbrev pub rows_now : Exec Tables
rows_now s = (ok s.tables, s)

module _ (env : Env) where
  -- FindByAccountAndKeyTx
  unfoldable pub find_by_account_and_key : Uuid → String → Exec IdempotencyRecord
  find_by_account_and_key account_id key = do
    model ←
        with_domain_errors
          (statement env (first (λ t. t.idempotency_keys) (by_account_and_key account_id key)))
    pure (to_domain_idempotency model)

  -- How the insertion ended: claimed, already there, or another error.
  unfoldable pub claimed_or_existing :
      IdempotencyKeyModel → Tables → Result ⊤ → Exec (IdempotencyRecord × Bool)
  unfolding find_by_account_and_key
  claimed_or_existing model savepoint (ok _) = pure (to_domain_idempotency model, true)
  claimed_or_existing model savepoint (err duplicated_key) = do
    statement env (λ t. (ok tt, savepoint))
    existing ← find_by_account_and_key model.account_id model.idempotency_key
    pure (existing, false)
  claimed_or_existing model savepoint (err e) = raise e

  unfoldable pub claim_or_get : Uuid → String → Exec (IdempotencyRecord × Bool)
  unfolding claimed_or_existing
  claim_or_get account_id key = do
    id ← new_uuid env
    statement env unchanged
    savepoint ← rows_now
    now ← time_now env
    let model : IdempotencyKeyModel = record {
      id = id;
      account_id = account_id;
      idempotency_key = key;
      response_snapshot = placeholder;
      created_at = now;
    }
    inserted ← attempt (statement env (insert_key model))
    claimed_or_existing model savepoint inserted

  unfoldable pub update_snapshot : Uuid → String → Snapshot → Exec ⊤
  update_snapshot account_id key snapshot = do
    affected ← statement env (write_snapshot account_id key snapshot)
    raise_if (affected == 0) not_found
