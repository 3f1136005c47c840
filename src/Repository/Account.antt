-- ===== src/Repository/Account.antt =====
-- internal/repository/account.go and account_model.go.
pub mod Laws
use arvan.Prelude.{
  ⊤, ℕ, String, Bool, true, false, List, [], ◌∷◌, ◌++◌, ◌==◌, str_eq, ◌||◌, if◌then◌else◌,
}
use arvan.Prelude.Int.{ℤ, pos, ◌+ℤ◌, ◌-ℤ◌, ltb_ℤ, int64}
use arvan.Prelude.Lists.{has}
use arvan.Domain.{
  Uuid, Account, Result, ok, err, duplicated_key, driver_error, record_not_found,
  insufficient_balance,
}
use arvan.Database.{
  AccountModel, Tables, Env, Exec, pure, raise, raise_if, attempt, ◌>>=◌, ◌>>◌, new_uuid, time_now,
  statement,
}
use arvan.Database.Sql.{first, with_domain_errors}

abbrev pub by_id : Uuid → AccountModel → Bool
by_id id a = a.id == id

abbrev pub by_token_hash : String → AccountModel → Bool
by_token_hash hash a = str_eq a.token_hash hash

unfoldable pub to_domain_account : AccountModel → Account
to_domain_account m = record {
  id = m.id;
  token_hash = m.token_hash;
  balance = m.balance;
  created_at = m.created_at;
}

-- gorm's Save: the row of that key is written, or inserted where there is none.
abbrev pub save : AccountModel → List AccountModel → List AccountModel
save m [] = m ∷ []
save m (a ∷ rest) = if a.id == m.id then m ∷ rest else a ∷ save m rest

-- The UPDATE of an account; the column `balance` is declared with CHECK (balance >= 0).
unfoldable pub save_account : AccountModel → Tables → Result ⊤ × Tables
save_account m t =
    if ltb_ℤ m.balance (pos 0)
    then (err driver_error, t)
    else (ok tt, record t { accounts = save m t.accounts })

-- The INSERT of an account: `id` is the key and `token_hash` is unique.
unfoldable pub insert_account : AccountModel → Tables → Result ⊤ × Tables
insert_account m t =
    if has (by_id m.id) t.accounts || has (by_token_hash m.token_hash) t.accounts
    then (err duplicated_key, t)
    else (ok tt, record t { accounts = t.accounts ++ m ∷ [] })

module _ (env : Env) where
  -- The SELECT … FOR UPDATE of a transaction, and the plain SELECT.
  unfoldable pub account_by_id : Uuid → Exec AccountModel
  unfolding statement
  account_by_id account_id =
      with_domain_errors (statement env (first (λ t. t.accounts) (by_id account_id)))

  unfoldable pub find_by_token_hash : String → Exec Account
  unfolding statement
  find_by_token_hash token_hash = do
    model ← with_domain_errors (statement env (first (λ t. t.accounts) (by_token_hash token_hash)))
    pure (to_domain_account model)

  unfoldable pub create_account : String → Exec Account
  create_account token_hash = do
    id ← new_uuid env
    now ← time_now env
    let model : AccountModel = record {
      id = id;
      token_hash = token_hash;
      balance = pos 0;
      created_at = now;
    }
    statement env (insert_account model)
    pure (to_domain_account model)

  -- The account that was found, or a new one; any other error of the search is returned.
  unfoldable pub create_if_missing : String → Result AccountModel → Exec Account
  create_if_missing token_hash (ok model) = pure (to_domain_account model)
  create_if_missing token_hash (err record_not_found) = create_account token_hash
  create_if_missing token_hash (err e) = raise e

  unfoldable pub upsert_by_token_hash : String → Exec Account
  unfolding create_if_missing create_account to_domain_account
  upsert_by_token_hash token_hash = do
    model ← attempt (statement env (first (λ t. t.accounts) (by_token_hash token_hash)))
    create_if_missing token_hash model

  unfoldable pub get_balance : Uuid → Exec ℤ
  unfolding account_by_id
  get_balance account_id = do model ← account_by_id account_id; pure model.balance

  unfoldable pub lock_and_add_balance : Uuid → ℤ → Exec ℤ
  unfolding account_by_id
  lock_and_add_balance account_id amount = do
    model ← account_by_id account_id
    let balance = int64 (model.balance +ℤ amount)
    statement env (save_account (record model { balance = balance }))
    pure balance

  unfoldable pub lock_account_for_update : Uuid → Exec ℤ
  unfolding account_by_id
  lock_account_for_update account_id = do model ← account_by_id account_id; pure model.balance

  unfoldable pub deduct_locked_balance : Uuid → ℤ → Exec ℤ
  unfolding account_by_id
  deduct_locked_balance account_id cost = do
    model ← account_by_id account_id
    raise_if (ltb_ℤ model.balance cost) insufficient_balance
    let balance = int64 (model.balance -ℤ cost)
    statement env (save_account (record model { balance = balance }))
    pure balance

  unfoldable pub lock_and_deduct_balance : Uuid → ℤ → Exec ℤ
  unfolding lock_account_for_update deduct_locked_balance
  lock_and_deduct_balance account_id cost =
      lock_account_for_update account_id >> deduct_locked_balance account_id cost
