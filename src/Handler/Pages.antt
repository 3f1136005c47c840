-- ===== src/Handler/Pages.antt =====
-- What ListLedger of internal/handler/account.go and List of internal/handler/sms.go show of the rows.
use arvan.Prelude.{◌⊎◌, inl, inr, ◌≤◌, Option, none, some, List, ◌≡◌, refl, arith}
use arvan.Prelude.Int.{ℤ}
use arvan.Domain.{Uuid, LedgerEntry, SmsMessage, Error, Result, ok, err}
use arvan.Database.{LedgerModel, SmsMessageModel, Tables, Env, Session}
use arvan.Database.Laws.{OnOk}
use arvan.Database.Success.{Succeeds, Succeeds-ok}
use arvan.Repository.Page.{page_limit}
use arvan.Repository.Page.Own.{ShowsOwn}
use arvan.Repository.Ledger
use arvan.Repository.Ledger.{to_domain_ledger}
use arvan.Repository.Sms
use arvan.Repository.Sms.{to_domain_sms}
use arvan.Service.Account as Accounts
use arvan.Service.Sms as Messages
use arvan.Service.Listing.{list_ledger-ShowsOwn, list-ShowsOwn}
use arvan.Handler.{Reply, status_of}
use arvan.Handler.Account.{ledger_reply, ledger_from}
use arvan.Handler.Sms.{list_reply, list_from}
use arvan.Api.Reads.{list_ledger-Keeps, list-Keeps}

module _ (env : Env) where
  ledger_error-status : (limit : ℤ) (e : Error) → 400 ≤ status_of (ledger_reply env limit (err e))
  unfolding ledger_reply status_of
  ledger_error-status limit e = ground arith

  list_error-status : (limit : ℤ) (e : Error) → 400 ≤ status_of (list_reply env limit (err e))
  unfolding list_reply status_of
  list_error-status limit e = ground arith

  -- An error, or a rendered page of so many rows at most, all of them of the account.
  abbrev pub ShowsEntries : Uuid → ℤ → Tables → Reply → Type 0
  ShowsEntries account_id limit t reply =
      (400 ≤ status_of reply)
      ⊎ ((entries : List LedgerEntry) × (reply ≡ ledger_reply env limit (ok entries))
          × ShowsOwn env (λ (m : LedgerModel). m.created_at) (λ m. m.id) (λ t. t.account_ledger)
              (Ledger.of_account account_id) to_domain_ledger (page_limit limit) t entries)

  abbrev pub ShowsMessages : Uuid → ℤ → Tables → Reply → Type 0
  ShowsMessages account_id limit t reply =
      (400 ≤ status_of reply)
      ⊎ ((messages : List SmsMessage) × (reply ≡ list_reply env limit (ok messages))
          × ShowsOwn env (λ (m : SmsMessageModel). m.created_at) (λ m. m.id) (λ t. t.sms_messages)
              (Sms.of_account account_id) to_domain_sms (page_limit limit) t messages)

  -- A page that is answered has the property, and is rendered; an error is one.
  rendered :
      {B : Type 0} (Q : List B → Type 0) (t : Tables) (render : Result (List B) → Reply)
      (r : Result (List B) × Session)
      → ((e : Error) → 400 ≤ status_of (render (err e)))
      → OnOk (λ page u. Q page × (u.tables ≡ t)) r
      → (400 ≤ status_of (render r.0))
        ⊎ ((page : List B) × (render r.0 ≡ render (ok page)) × Q page)
  rendered Q t render (ok page, u) fails (shown, _) = inr (page, refl, shown)
  rendered Q t render (err e, u) fails h = inl (fails e)

  pub ledger_from-Shows :
      (account_id : Uuid) (limit : ℤ) (cursor : Option (Option Uuid)) (s : Session)
      → Succeeds
          (λ reply u. ShowsEntries account_id limit s.tables reply × (u ≡ s.tables))
          (ledger_from env account_id limit cursor s)
  unfolding ledger_from status_of
  ledger_from-Shows account_id limit none s = Succeeds-ok _ _ s (inl (omega arith), refl)
  ledger_from-Shows account_id limit (some cursor) s =
      let found = Accounts.list_ledger env account_id limit cursor s in
      Succeeds-ok _ (ledger_reply env limit found.0) found.1 (
        rendered _ s.tables (ledger_reply env limit) found (ledger_error-status limit)
            (list_ledger-ShowsOwn env account_id limit cursor s).holds,
        (list_ledger-Keeps {P = λ t. t ≡ s.tables} env account_id limit cursor).at s refl,
      )

  pub list_from-Shows :
      (account_id : Uuid) (limit : ℤ) (cursor : Option (Option Uuid)) (s : Session)
      → Succeeds
          (λ reply u. ShowsMessages account_id limit s.tables reply × (u ≡ s.tables))
          (list_from env account_id limit cursor s)
  unfolding list_from status_of
  list_from-Shows account_id limit none s = Succeeds-ok _ _ s (inl (omega arith), refl)
  list_from-Shows account_id limit (some cursor) s =
      let found = Messages.list env account_id limit cursor s in
      Succeeds-ok _ (list_reply env limit found.0) found.1 (
        rendered _ s.tables (list_reply env limit) found (list_error-status limit)
            (list-ShowsOwn env account_id limit cursor s).holds,
        (list-Keeps {P = λ t. t ≡ s.tables} env account_id limit cursor).at s refl,
      )
