-- ===== src/Accounting.antt =====
-- The books of the gateway: the balance of an account against the sum of its ledger entries, over
-- the operations of internal/service and the creation of accounts.
pub mod Posting
pub mod Operations
pub mod Opening
pub mod Seeding
pub mod History
use arvan.Prelude.{Option, none, some, List, [], ◌∷◌, ◌==◌, ◌≡◌, if◌then◌else◌}
use arvan.Prelude.Int.{ℤ, pos, ◌+ℤ◌, ◌≤ℤ◌, IsInt64}
use arvan.Prelude.Lists.{find}
use arvan.Domain.{Uuid}
use arvan.Database.{AccountModel, LedgerModel, Tables}
use arvan.Repository.Account.{by_id}

abbrev pub balance_or_zero : Option AccountModel → ℤ
balance_or_zero none = pos 0
balance_or_zero (some row) = row.balance

-- The balance of an account, and 0 where there is none.
abbrev pub balance_of : Uuid → Tables → ℤ
balance_of id t = balance_or_zero (find (by_id id) t.accounts)

-- The sum of the entries of an account.
abbrev pub ledger_sum : Uuid → List LedgerModel → ℤ
ledger_sum id [] = pos 0
ledger_sum id (e ∷ rest) = (if e.account_id == id then e.delta else pos 0) +ℤ ledger_sum id rest

-- Every balance is the sum of the account's entries, is not negative, and fits its column.
pub record Reconciled (t : Tables) : Type 0 where
  pub balanced : (id : Uuid) → balance_of id t ≡ ledger_sum id t.account_ledger
  pub positive : (id : Uuid) → pos 0 ≤ℤ balance_of id t
  pub fits : (id : Uuid) → IsInt64 (balance_of id t)
