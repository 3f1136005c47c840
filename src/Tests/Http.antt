-- ===== src/Tests/Http.antt =====
-- Requests at concrete inputs.
use arvan.Prelude.{true, none, some, ◌≡◌, refl, arith, [], ◌∷◌}
use arvan.Prelude.Int.{pos}
use arvan.Prelude.Lists.{select}
use mathlib.Core.List.{map}
use arvan.Domain.{LedgerEntry, SmsMessage, standard}
use arvan.Database.{LedgerModel, SmsMessageModel}
use arvan.Database.Success.{Succeeds}
use arvan.Repository.Page.{page_limit, newest_first}
use arvan.Repository.Page.Walk.{walk}
use arvan.Repository.Ledger
use arvan.Repository.Ledger.{to_domain_ledger}
use arvan.Repository.Sms
use arvan.Repository.Sms.{to_domain_sms}
use arvan.Service.Account.{list_ledger}
use arvan.Service.Sms.{list}
use arvan.Service.Listing.{list_ledger-walk, list-walk, list_ledger-ShowsOwn, list-ShowsOwn}
use arvan.Database.Laws.{Yields}
use arvan.Repository.Page.Own.{ShowsOwn}
use arvan.Handler.{parse_limit}
use arvan.Handler.Sms.{SendSmsRequest}
use arvan.Handler.Sms as Messages
use arvan.Handler.Account as Accounts
use arvan.Handler.Laws.{
  IsLimit, parse_limit_bounds, SendReplies, send-Replies, TopupReplies, topup-Replies,
}
use arvan.Middleware.{idempotency}
use arvan.Middleware.Stored.{Says, idempotency-Says}
use arvan.RateLimit.{AllowResult}
use arvan.Domain.{Uuid, Result, ok}
use arvan.Api.{send_sms, v1}
use arvan.Api.Served.{Served, v1-Served}
use arvan.Handler.Reading.{ShowsMessage, get-Shows, ShowsBalance, get_balance-Shows}
use arvan.Middleware.Agreed.{AsStored, idempotency-AsStored}
use arvan.Service.Sms.Held.{send_all}
use arvan.Tests.{env, session, input, uuid-parses, uuid-prints}

list_ledger-walk_example :
    Succeeds
      (λ r u.
        (r
          ≡ map to_domain_ledger (
              newest_first
                (λ (m : LedgerModel). m.created_at)
                (λ m. m.id)
                (select (Ledger.of_account 7) session.tables.account_ledger)))
        × (u ≡ session.tables))
      (walk
        (list_ledger env 7 (pos 1))
        (λ (e : LedgerEntry). e.id)
        (page_limit (pos 1))
        2
        none
        session)
list_ledger-walk_example =
    list_ledger-walk env 7 (pos 1) 2 session (λ n. refl) ((λ a none_left. absurd none_left), tt)
      (omega arith)

list-walk_example :
    Succeeds
      (λ r u.
        (r
          ≡ map to_domain_sms (
              newest_first
                (λ (m : SmsMessageModel). m.created_at)
                (λ m. m.id)
                (select (Sms.of_account 7) session.tables.sms_messages)))
        × (u ≡ session.tables))
      (walk (list env 7 (pos 50)) (λ (m : SmsMessage). m.id) (page_limit (pos 50)) 1 none session)
list-walk_example = list-walk env 7 (pos 50) 1 session (λ n. refl) tt (omega arith)

parse_limit_bounds_example : IsLimit (parse_limit (λ raw. some (pos 250)) "250")
parse_limit_bounds_example = parse_limit_bounds (λ raw. some (pos 250)) "250"

abbrev request : SendSmsRequest
request = record { to = input.to; body = input.body; message_type = standard }

send-Replies_example :
    Succeeds
      (SendReplies env (some 7) (some request) (some "k") session)
      (Messages.send env (some 7) (some request) (some "k") session)
send-Replies_example = send-Replies env (some 7) (some request) (some "k") session

topup-Replies_example :
    Succeeds
      (TopupReplies env (some 7) (some (pos 3)) session)
      (Accounts.topup env (some 7) (some (pos 3)) session)
topup-Replies_example = topup-Replies env (some 7) (some (pos 3)) session

idempotency-Says_example :
    Succeeds
      (λ v t. Says 7 "xx" session v × (t ≡ session.tables))
      (idempotency env "xx" (some 7) session)
idempotency-Says_example = idempotency-Says env 7 "xx" session

idempotency-AsStored_example :
    Succeeds
      (λ v t.
        AsStored env 7 "xx" (send_all env ((7, input) ∷ (7, input) ∷ []) session).tables v
        × (t ≡ (send_all env ((7, input) ∷ (7, input) ∷ []) session).tables))
      (idempotency env "xx" (some 7) (send_all env ((7, input) ∷ (7, input) ∷ []) session))
idempotency-AsStored_example =
    idempotency-AsStored env uuid-parses uuid-prints ((7, input) ∷ (7, input) ∷ []) 7 "xx" session
      refl

abbrev always : Uuid → Result AllowResult
always account_id = ok (record { allowed = true; retry_after = 0 })

v1-Served_example :
    Succeeds (Served env (λ raw. none) "h" (some always) (send_sms "xx" (some request)) session) (
      v1 env
        (λ raw. none)
        (λ token. "h")
        (some always)
        "token"
        (send_sms "xx" (some request))
        session)
v1-Served_example =
    v1-Served env (λ raw. none) (λ token. "h") (some always) "token" (send_sms "xx" (some request))
      session

get-Shows_example :
    Succeeds
      (λ reply u.
        ShowsMessage env 7 (env.uuid_parse "xx") session.tables reply × (u ≡ session.tables))
      (Messages.get env (some 7) "xx" session)
get-Shows_example = get-Shows env 7 "xx" session

get_balance-Shows_example :
    Succeeds
      (λ reply u. ShowsBalance env 7 session.tables reply × (u ≡ session.tables))
      (Accounts.get_balance env (some 7) session)
get_balance-Shows_example = get_balance-Shows env 7 session

list_ledger-ShowsOwn_example :
    Yields
      (λ page u.
        ShowsOwn env
          (λ (m : LedgerModel). m.created_at)
          (λ m. m.id)
          (λ t. t.account_ledger)
          (Ledger.of_account 7)
          to_domain_ledger
          (page_limit (pos 5))
          session.tables
          page
        × (u.tables ≡ session.tables))
      (list_ledger env 7 (pos 5) none session)
list_ledger-ShowsOwn_example = list_ledger-ShowsOwn env 7 (pos 5) none session

list-ShowsOwn_example :
    Yields
      (λ page u.
        ShowsOwn env
          (λ (m : SmsMessageModel). m.created_at)
          (λ m. m.id)
          (λ t. t.sms_messages)
          (Sms.of_account 7)
          to_domain_sms
          (page_limit (pos 5))
          session.tables
          page
        × (u.tables ≡ session.tables))
      (list env 7 (pos 5) none session)
list-ShowsOwn_example = list-ShowsOwn env 7 (pos 5) none session
