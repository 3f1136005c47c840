-- ===== src/Api/Handled.antt =====
-- What the handlers behind the middleware of cmd/api/main.go answer and leave.
use arvan.Prelude.{◌≡◌, refl, ◌⊎◌, inl, inr, arith, String, Option, some, subst}
use arvan.Prelude.Int.{ℤ}
use arvan.Domain.{Uuid, IdempotencyResponse}
use arvan.Database.{Env, Session, Tables}
use arvan.Database.Success.{Succeeds, Succeeds-ok, Succeeds-bind, Succeeds-weaken}
use arvan.Service.Sms.{active_key}
use arvan.Middleware.{
  Verdict, passed, invalid_key, lookup_failed, in_progress, answered, idempotency,
}
use arvan.Middleware.Stored.{IsStored, Says, idempotency-Says}
use arvan.Handler.{Reply, accepted_as, status_of, parse_limit}
use arvan.Handler.Account as Accounts
use arvan.Handler.Sms as Messages
use arvan.Handler.Sms.{SendSmsRequest}
use arvan.Handler.Laws.{Refuses, SendReplies, send-Replies, TopupReplies, topup-Replies}
use arvan.Api.{
  Route, topup, balance, ledger, send_sms, list_sms, get_sms, behind_idempotency, handle,
}
use arvan.Handler.Reading.{ShowsMessage, get-Shows, ShowsBalance, get_balance-Shows}
use arvan.Handler.Pages.{ShowsEntries, ledger_from-Shows, ShowsMessages, list_from-Shows}

module _ (env : Env) (scan : String → Option ℤ) where
  -- What a request of an account answers and leaves, by its route.
  abbrev pub Handled : Uuid → Route → Session → Reply → Tables → Type 0
  Handled account_id (topup body) s reply u = TopupReplies env (some account_id) body s reply u
  Handled account_id (send_sms key body) s reply u =
      ((resp : IdempotencyResponse) × IsStored account_id key s resp
        × (reply ≡ accepted_as resp.message_id resp.status)
        × (u ≡ s.tables))
      ⊎ Refuses s.tables reply u
      ⊎ ((s' : Session) × (s'.tables ≡ s.tables)
          × SendReplies env (some account_id) body (active_key (some key)) s' reply u)
  Handled account_id balance s reply u = ShowsBalance env account_id s.tables reply × (u ≡ s.tables)
  Handled account_id (ledger limit cursor) s reply u =
      ShowsEntries env account_id (parse_limit scan limit) s.tables reply × (u ≡ s.tables)
  Handled account_id (list_sms limit cursor) s reply u =
      ShowsMessages env account_id (parse_limit scan limit) s.tables reply × (u ≡ s.tables)
  Handled account_id (get_sms id) s reply u =
      ShowsMessage env account_id (env.uuid_parse id) s.tables reply × (u ≡ s.tables)

  behind_idempotency-Handled :
      (account_id : Uuid) (key : String) (body : Option SendSmsRequest) (s u : Session)
      (v : Verdict)
      → Says account_id key s v
      → u.tables ≡ s.tables
      → Succeeds
          (Handled account_id (send_sms key body) s)
          (behind_idempotency env scan account_id body v u)
  unfolding behind_idempotency status_of
  behind_idempotency-Handled account_id key body s u (passed k) is_key same =
      Succeeds-weaken
        (subst
          (λ k'.
            Succeeds (SendReplies env (some account_id) body k' u)
              (Messages.send env (some account_id) body k u))
          is_key (send-Replies env (some account_id) body k u))
        (λ reply t h. inr (inr (u, same, h)))
  behind_idempotency-Handled account_id key body s u invalid_key _ same =
      Succeeds-ok _ _ u (inr (inl (omega arith, inl same)))
  behind_idempotency-Handled account_id key body s u lookup_failed _ same =
      Succeeds-ok _ _ u (inr (inl (omega arith, inl same)))
  behind_idempotency-Handled account_id key body s u in_progress _ same =
      Succeeds-ok _ _ u (inr (inl (omega arith, inl same)))
  behind_idempotency-Handled account_id key body s u (answered resp) stored same =
      Succeeds-ok _ _ u (inl (resp, stored, refl, same))

  pub handle-Handled :
      (account_id : Uuid) (route : Route) (s : Session)
      → Succeeds (Handled account_id route s) (handle env scan account_id route s)
  unfolding handle Accounts.list_ledger Messages.list
  handle-Handled account_id (topup body) s = topup-Replies env (some account_id) body s
  handle-Handled account_id balance s = get_balance-Shows env account_id s
  handle-Handled account_id (ledger limit cursor) s = ledger_from-Shows env account_id _ _ s
  handle-Handled account_id (send_sms key body) s =
      Succeeds-bind (behind_idempotency env scan account_id body)
        (idempotency env key (some account_id) s) (idempotency-Says env account_id key s)
        (λ v u (says, same). behind_idempotency-Handled account_id key body s u v says same)
  handle-Handled account_id (list_sms limit cursor) s = list_from-Shows env account_id _ _ s
  handle-Handled account_id (get_sms id) s = get-Shows env account_id id s
