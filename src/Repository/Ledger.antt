-- ===== src/Repository/Ledger.antt =====
-- internal/repository/ledger.go: the insertion of an entry, and the pages of an account's entries.
pub mod Laws
use arvan.Prelude.{⊤, Bool, Option, List, [], ◌∷◌, ◌++◌, ◌==◌, if◌then◌else◌}
use arvan.Prelude.Lists.{has}
use arvan.Domain.{Uuid, LedgerEntry, Result, ok, err, duplicated_key, driver_error}
use arvan.Database.{LedgerModel, Tables, Env, Exec, pure, ◌>>=◌, new_uuid, time_now, statement}
use arvan.Prelude.Int.{ℤ}
use arvan.Repository.Account.{by_id}
use arvan.Repository.Page.{list_mapped}

unfoldable pub to_domain_ledger : LedgerModel → LedgerEntry
to_domain_ledger m = record {
  id = m.id;
  account_id = m.account_id;
  delta = m.delta;
  reason = m.reason;
  ref_id = m.ref_id;
  created_at = m.created_at;
}

-- "account_id = ?"
abbrev pub of_account : Uuid → LedgerModel → Bool
of_account account_id m = m.account_id == account_id

-- The INSERT of an entry: `id` is the key and `account_id` refers to an account.
unfoldable pub insert_ledger : LedgerModel → Tables → Result ⊤ × Tables
insert_ledger m t =
    if has (λ (e : LedgerModel). e.id == m.id) t.account_ledger
    then (err duplicated_key, t)
    else if has (by_id m.account_id) t.accounts
    then (ok tt, record t { account_ledger = t.account_ledger ++ m ∷ [] })
    else (err driver_error, t)

module _ (env : Env) where
  -- uuid.Nil asks for a new identifier.
  unfoldable pub entry_id : Uuid → Exec Uuid
  entry_id id = if id == 0 then new_uuid env else pure id

  unfoldable pub create : LedgerEntry → Exec ⊤
  unfolding entry_id
  create entry = do
    id ← entry_id entry.id
    now ← time_now env
    statement env (
        insert_ledger (record {
          id = id;
          account_id = entry.account_id;
          delta = entry.delta;
          reason = entry.reason;
          ref_id = entry.ref_id;
          created_at = now;
        }))

  unfoldable pub list_by_account : Uuid → ℤ → Option Uuid → Exec (List LedgerEntry)
  list_by_account account_id limit cursor =
      list_mapped env (λ (m : LedgerModel). m.created_at) (λ m. m.id) (λ t. t.account_ledger)
        (of_account account_id) to_domain_ledger limit cursor
