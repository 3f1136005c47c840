-- ===== src/Service/Account.antt =====
-- internal/service/account.go, and EnsureBalance of internal/seed/seed.go.
pub mod Success
pub mod Credit
use arvan.Prelude.{ℕ, Option, List, zero, Bool, true, false, none, if◌then◌else◌}
use arvan.Prelude.Int.{ℤ, pos, ◌-ℤ◌, leb_ℤ, int64}
use arvan.Domain.{Uuid, topup as topup_reason, LedgerEntry, invalid_amount}
use arvan.Database.{Env, Exec, pure, raise_if, ◌>>=◌, ◌>>◌, transaction}
use arvan.Repository.Account
use arvan.Repository.Ledger

abbrev pub topup_entry : Uuid → ℤ → LedgerEntry
topup_entry account_id amount = record {
  id = zero;
  account_id = account_id;
  delta = amount;
  reason = topup_reason;
  ref_id = none;
  created_at = zero;
}

module _ (env : Env) where
  unfoldable pub topup_tx : Uuid → ℤ → Exec ℤ
  topup_tx account_id amount = do
    balance ← Account.lock_and_add_balance env account_id amount
    Ledger.create env (topup_entry account_id amount)
    pure balance

  unfoldable pub topup : Uuid → ℤ → Exec ℤ
  topup account_id amount = do
    raise_if (leb_ℤ amount (pos 0)) invalid_amount
    transaction env (topup_tx account_id amount)

  unfoldable pub get_balance : Uuid → Exec ℤ
  get_balance account_id = Account.get_balance env account_id

  unfoldable pub list_ledger : Uuid → ℤ → Option Uuid → Exec (List LedgerEntry)
  list_ledger account_id limit cursor = Ledger.list_by_account env account_id limit cursor

  unfoldable pub ensure_balance : Uuid → ℤ → Exec ℤ
  ensure_balance account_id target = do
    balance ← get_balance account_id
    if leb_ℤ target balance then pure balance else topup account_id (int64 (target -ℤ balance))
