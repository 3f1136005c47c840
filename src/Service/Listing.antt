-- ===== src/Service/Listing.antt =====
-- ListLedger of internal/service/account.go and List of internal/service/sms.go, for a client that
-- follows the cursors while nothing else is written.
use mathlib.Core.List.{map}
use arvan.Prelude.{Option, ℕ, ◌<◌, none, ◌≡◌, refl}
use arvan.Prelude.Int.{ℤ}
use arvan.Prelude.Lists.{length, select}
use arvan.Domain.{Uuid, LedgerEntry, SmsMessage}
use arvan.Database.{LedgerModel, SmsMessageModel, Env, Session, done}
use arvan.Database.Success.{Succeeds}
use arvan.Repository.Page.{page_limit, newest_first}
use arvan.Repository.Page.Order.{HasDistinctIds}
use arvan.Database.Laws.{Yields}
use arvan.Repository.Page.Own.{ShowsOwn, list_mapped-Yields}
use arvan.Repository.Page.Walk.{walk}
use arvan.Repository.Page.Complete.{list_mapped-walk}
use arvan.Repository.Ledger
use arvan.Repository.Ledger.{to_domain_ledger}
use arvan.Repository.Sms
use arvan.Repository.Sms.{to_domain_sms}
use arvan.Service.Account.{list_ledger}
use arvan.Service.Sms.{list}

-- Where every statement is done and no two entries have one id: a client that asks for a page of the
-- ledger, with any limit, and then with the cursor of each full page for the next, reads all the
-- entries of the account, each once, newest first, by no more requests than there are entries and one.
pub list_ledger-walk :
    (env : Env) (account_id : Uuid) (limit : ℤ) (requests : ℕ) (s : Session)
    → ((n : ℕ) → env.outcome n ≡ done)
    → HasDistinctIds (λ (m : LedgerModel). m.created_at) (λ m. m.id) s.tables.account_ledger
    → length s.tables.account_ledger < requests
    → Succeeds
        (λ r u.
          (r
            ≡ map to_domain_ledger (
                newest_first
                  (λ (m : LedgerModel). m.created_at)
                  (λ m. m.id)
                  (select (Ledger.of_account account_id) s.tables.account_ledger)))
          × (u ≡ s.tables))
        (walk
          (list_ledger env account_id limit)
          (λ (e : LedgerEntry). e.id)
          (page_limit limit)
          requests
          none
          s)
unfolding list_ledger Ledger.list_by_account to_domain_ledger
list_ledger-walk env account_id limit requests s all_done distinct enough =
    list_mapped-walk env all_done _ _ (λ t. t.account_ledger) _ limit to_domain_ledger (λ e. e.id)
      requests s (λ m. refl) distinct enough

-- Where every statement is done and no two messages have one id: a client that asks for a page of
-- the messages, with any limit, and then with the cursor of each full page for the next, reads all
-- the messages of the account, each once, newest first, by no more requests than there are messages
-- and one.
pub list-walk :
    (env : Env) (account_id : Uuid) (limit : ℤ) (requests : ℕ) (s : Session)
    → ((n : ℕ) → env.outcome n ≡ done)
    → HasDistinctIds (λ (m : SmsMessageModel). m.created_at) (λ m. m.id) s.tables.sms_messages
    → length s.tables.sms_messages < requests
    → Succeeds
        (λ r u.
          (r
            ≡ map to_domain_sms (
                newest_first
                  (λ (m : SmsMessageModel). m.created_at)
                  (λ m. m.id)
                  (select (Sms.of_account account_id) s.tables.sms_messages)))
          × (u ≡ s.tables))
        (walk
          (list env account_id limit)
          (λ (m : SmsMessage). m.id)
          (page_limit limit)
          requests
          none
          s)
unfolding list Sms.list_by_account to_domain_sms
list-walk env account_id limit requests s all_done distinct enough =
    list_mapped-walk env all_done _ _ (λ t. t.sms_messages) _ limit to_domain_sms (λ m. m.id)
      requests s (λ m. refl) distinct enough

-- Whatever the environment does, a page of the ledger that is answered has at most as many entries as
-- its limit, which is 20 where it is not positive and 100 at most, all of them rows of the account that
-- asks, and nothing changes.
pub list_ledger-ShowsOwn :
    (env : Env) (account_id : Uuid) (limit : ℤ) (cursor : Option Uuid) (s : Session)
    → Yields
        (λ page u.
          ShowsOwn env
            (λ (m : LedgerModel). m.created_at)
            (λ m. m.id)
            (λ t. t.account_ledger)
            (Ledger.of_account account_id)
            to_domain_ledger
            (page_limit limit)
            s.tables
            page
          × (u.tables ≡ s.tables))
        (list_ledger env account_id limit cursor s)
unfolding list_ledger Ledger.list_by_account
list_ledger-ShowsOwn env account_id limit cursor s =
    list_mapped-Yields env _ _ (λ t. t.account_ledger) (Ledger.of_account account_id)
      to_domain_ledger limit cursor s

-- Whatever the environment does, a page of messages that is answered has at most as many as its limit,
-- which is 20 where it is not positive and 100 at most, all of them rows of the account that asks, and
-- nothing changes.
pub list-ShowsOwn :
    (env : Env) (account_id : Uuid) (limit : ℤ) (cursor : Option Uuid) (s : Session)
    → Yields
        (λ page u.
          ShowsOwn env
            (λ (m : SmsMessageModel). m.created_at)
            (λ m. m.id)
            (λ t. t.sms_messages)
            (Sms.of_account account_id)
            to_domain_sms
            (page_limit limit)
            s.tables
            page
          × (u.tables ≡ s.tables))
        (list env account_id limit cursor s)
unfolding list Sms.list_by_account
list-ShowsOwn env account_id limit cursor s =
    list_mapped-Yields env _ _ (λ t. t.sms_messages) (Sms.of_account account_id) to_domain_sms limit
      cursor s
