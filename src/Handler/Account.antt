-- ===== src/Handler/Account.antt =====
-- internal/handler/account.go.
use mathlib.Core.List.{map}
use arvan.Prelude.{String, Option, none, some, List}
use arvan.Prelude.Int.{ℤ, pos_part}
use arvan.Domain.{
  Uuid, LedgerEntry, Error, invalid_amount, not_found, invalid_cursor, Result, ok, err,
}
use arvan.Database.{Env, Exec, pure, attempt, ◌>>=◌}
use arvan.Repository.Page.Walk.{next_cursor}
use arvan.Service.Account
use arvan.Handler.{
  Reply, failure, balance_is, ledger_page, LedgerItem, bad_request, missing_account, parse_limit,
  parse_cursor, cursor_text,
}

unfoldable pub topup_error : Error → Reply
topup_error invalid_amount = bad_request "amount must be positive"
topup_error not_found = failure 404 "not_found" "account not found"
topup_error e = failure 500 "internal_error" "failed to top up account"

unfoldable pub topup_reply : Result ℤ → Reply
unfolding topup_error
topup_reply (ok balance) = balance_is balance
topup_reply (err e) = topup_error e

unfoldable pub balance_reply : Result ℤ → Reply
balance_reply (ok balance) = balance_is balance
balance_reply (err not_found) = failure 404 "not_found" "account not found"
balance_reply (err e) = failure 500 "internal_error" "failed to get balance"

module _ (env : Env) where
  abbrev ref_text : Option Uuid → Option String
  ref_text none = none
  ref_text (some id) = some (env.uuid_string id)

  unfoldable pub ledger_item : LedgerEntry → LedgerItem
  ledger_item entry = record {
    id = env.uuid_string entry.id;
    delta = entry.delta;
    reason = entry.reason;
    created_at = entry.created_at;
    ref_id = ref_text entry.ref_id;
  }

  unfoldable pub ledger_reply : ℤ → Result (List LedgerEntry) → Reply
  unfolding ledger_item
  ledger_reply limit (ok entries) =
      ledger_page (map ledger_item entries)
        (cursor_text env (next_cursor (λ (e : LedgerEntry). e.id) (pos_part limit) entries))
  ledger_reply limit (err invalid_cursor) = bad_request "invalid cursor"
  ledger_reply limit (err e) = failure 500 "internal_error" "failed to list ledger"

  -- AccountHandler.Topup: the amount of the body.
  unfoldable pub topup : Option Uuid → Option ℤ → Exec Reply
  topup none body = pure missing_account
  topup (some account_id) none = pure (bad_request "invalid request body")
  topup (some account_id) (some amount) = do
    balance ← attempt (Account.topup env account_id amount)
    pure (topup_reply balance)

  -- AccountHandler.GetBalance
  unfoldable pub get_balance : Option Uuid → Exec Reply
  get_balance none = pure missing_account
  get_balance (some account_id) = do
    balance ← attempt (Account.get_balance env account_id)
    pure (balance_reply balance)

  unfoldable pub ledger_from : Uuid → ℤ → Option (Option Uuid) → Exec Reply
  ledger_from account_id limit none = pure (bad_request "invalid cursor")
  ledger_from account_id limit (some cursor) = do
    entries ← attempt (Account.list_ledger env account_id limit cursor)
    pure (ledger_reply limit entries)

  -- AccountHandler.ListLedger: the limit and the cursor of the query.
  unfoldable pub list_ledger : (String → Option ℤ) → Option Uuid → String → String → Exec Reply
  unfolding ledger_from
  list_ledger scan none limit cursor = pure missing_account
  list_ledger scan (some account_id) limit cursor =
      ledger_from account_id (parse_limit scan limit) (parse_cursor env cursor)
