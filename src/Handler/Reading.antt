-- ===== src/Handler/Reading.antt =====
-- What SMSHandler.Get of internal/handler/sms.go and GetBalance of account.go show of the rows.
use arvan.Prelude.{◌⊎◌, inl, inr, ◌≤◌, String, Option, none, some, ◌≡◌, refl, arith}
use arvan.Prelude.Int.{ℤ}
use arvan.Prelude.Lists.{find}
use arvan.Domain.{Uuid, SmsMessage, Error, Result, ok, err}
use arvan.Database.{AccountModel, SmsMessageModel, Tables, Env, Session}
use arvan.Database.Laws.{OnOk, Yields, Yields-bind}
use arvan.Database.Success.{Succeeds, Succeeds-ok}
use arvan.Repository.Account.{by_id}
use arvan.Repository.Account as Accounts
use arvan.Repository.Account.Laws.{account_by_id-Yields}
use arvan.Repository.Sms.{by_account_and_id, to_domain_sms}
use arvan.Repository.Sms.Laws.{get_by_account_and_id-Yields}
use arvan.Service.Sms
use arvan.Service.Account
use arvan.Handler.{Reply, balance_is, sms_is, status_of}
use arvan.Handler.Sms.{get_error, get_reply, sms_item, get_parsed, get}
use arvan.Handler.Account.{balance_reply, get_balance}
use arvan.Api.Reads.{get-Keeps, get_balance-Keeps}

get_error-status : (e : Error) → 400 ≤ status_of (get_error e)
unfolding get_error status_of
get_error-status e = ground arith

balance_error-status : (e : Error) → 400 ≤ status_of (balance_reply (err e))
unfolding balance_reply status_of
balance_error-status e = ground arith

module _ (env : Env) (account_id : Uuid) where
  -- The message of the account with the identifier, or an error.
  abbrev pub ShowsMessage : Option Uuid → Tables → Reply → Type 0
  ShowsMessage id t reply =
      (400 ≤ status_of reply)
      ⊎ ((message_id : Uuid) × (row : SmsMessageModel) × (id ≡ some message_id)
          × (find (by_account_and_id account_id message_id) t.sms_messages ≡ some row)
          × (reply ≡ sms_is (sms_item env (to_domain_sms row))))

  get_reply-Shows :
      (message_id : Uuid) (t : Tables) (r : Result SmsMessage × Session)
      → OnOk
          (λ msg u.
            (row : SmsMessageModel) × (find (by_account_and_id account_id message_id) t.sms_messages
              ≡ some row)
            × (msg ≡ to_domain_sms row)
            × (u.tables ≡ t))
          r
      → ShowsMessage (some message_id) t (get_reply env r.0)
  unfolding get_reply
  get_reply-Shows message_id t (ok msg, s) (row, at_id, is_row, _) =
      inr (message_id, row, refl, at_id, rw is_row refl)
  get_reply-Shows message_id t (err e, s) h = inl (get_error-status e)

  get_parsed-Shows :
      (id : Option Uuid) (s : Session)
      → Succeeds
          (λ reply u. ShowsMessage id s.tables reply × (u ≡ s.tables))
          (get_parsed env account_id id s)
  unfolding get_parsed status_of Sms.get
  get_parsed-Shows none s = Succeeds-ok _ _ s (inl (omega arith), refl)
  get_parsed-Shows (some message_id) s =
      let found = Sms.get env account_id message_id s in
      Succeeds-ok _ (get_reply env found.0) found.1 (
        get_reply-Shows message_id s.tables found
            (get_by_account_and_id-Yields env account_id message_id s).holds,
        (get-Keeps {P = λ t. t ≡ s.tables} env account_id message_id).at s refl,
      )

  -- Whatever the environment does, GET /v1/sms/:id changes nothing, and answers an error or the message
  -- with that identifier of the account that asks, never another account's.
  pub get-Shows :
      (id : String) (s : Session)
      → Succeeds
          (λ reply u. ShowsMessage (env.uuid_parse id) s.tables reply × (u ≡ s.tables))
          (get env (some account_id) id s)
  unfolding get
  get-Shows id s = get_parsed-Shows (env.uuid_parse id) s

  -- The balance of the account, or an error.
  abbrev pub ShowsBalance : Tables → Reply → Type 0
  ShowsBalance t reply =
      (400 ≤ status_of reply)
      ⊎ ((row : AccountModel) × (find (by_id account_id) t.accounts ≡ some row)
          × (reply ≡ balance_is row.balance))

  balance_reply-Shows :
      (t : Tables) (r : Result ℤ × Session)
      → OnOk
          (λ b _.
            (row : AccountModel) × (find (by_id account_id) t.accounts ≡ some row)
            × (b ≡ row.balance))
          r
      → ShowsBalance t (balance_reply r.0)
  unfolding balance_reply
  balance_reply-Shows t (ok b, s) (row, at_id, is_balance) = inr (row, at_id, rw is_balance refl)
  balance_reply-Shows t (err e, s) h = inl (balance_error-status e)

  balance-Yields :
      (s : Session)
      → Yields
          (λ b _.
            (row : AccountModel) × (find (by_id account_id) s.tables.accounts ≡ some row)
            × (b ≡ row.balance))
          (Account.get_balance env account_id s)
  unfolding Account.get_balance Accounts.get_balance
  balance-Yields s =
      Yields-bind (account_by_id-Yields env account_id s)
        (λ row t (at_id, _). record { holds = (row, at_id, refl) })

  -- Whatever the environment does, GET /v1/account/balance changes nothing, and answers an error or the
  -- balance of the account that asks.
  pub get_balance-Shows :
      (s : Session)
      → Succeeds
          (λ reply u. ShowsBalance s.tables reply × (u ≡ s.tables))
          (get_balance env (some account_id) s)
  unfolding get_balance
  get_balance-Shows s =
      let found = Account.get_balance env account_id s in
      Succeeds-ok _ (balance_reply found.0) found.1 (
        balance_reply-Shows s.tables found (balance-Yields s).holds,
        (get_balance-Keeps {P = λ t. t ≡ s.tables} env account_id).at s refl,
      )
