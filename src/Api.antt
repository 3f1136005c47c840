-- ===== src/Api.antt =====
-- The routes under /v1 of cmd/api/main.go: who asks, whether the account may ask now, and the handler
-- of the route, the Idempotency middleware before the one that sends.
pub mod Reads
pub mod Handled
pub mod Served
use arvan.Prelude.{String, Option, none, some}
use arvan.Prelude.Int.{ℤ}
use arvan.Domain.{Uuid, IdempotencyResponse, Result}
use arvan.Database.{Env, Exec, pure, ◌>>=◌}
use arvan.RateLimit.{AllowResult}
use arvan.Middleware.{
  Verdict, passed, invalid_key, lookup_failed, in_progress, answered, idempotency,
}
use arvan.Middleware.Gates.{Answer, Turn, goes_on, aborts, plain, account_token, rate_limit}
use arvan.Handler.{Reply, failure, accepted_as, bad_request}
use arvan.Handler.Account
use arvan.Handler.Sms
use arvan.Handler.Sms.{SendSmsRequest}

-- A request, with what gin makes of it: the body, none where it is not valid, the texts of the query
-- and the path, and the Idempotency-Key header.
pub data Route : Type 0 where
  topup : Option ℤ → Route
  balance : Route
  ledger : String → String → Route
  send_sms : String → Option SendSmsRequest → Route
  list_sms : String → String → Route
  get_sms : String → Route

module _ (env : Env) (scan : String → Option ℤ) where
  -- SMSHandler.Send, where the Idempotency middleware lets the request through.
  unfoldable pub behind_idempotency : Uuid → Option SendSmsRequest → Verdict → Exec Reply
  behind_idempotency account_id body (passed key) = Sms.send env (some account_id) body key
  behind_idempotency account_id body invalid_key = pure (bad_request "invalid idempotency key")
  behind_idempotency account_id body lookup_failed =
      pure (failure 500 "internal_error" "failed to check idempotency key")
  behind_idempotency account_id body in_progress =
      pure (failure 409 "idempotency_in_progress" "idempotency request in progress")
  behind_idempotency account_id body (answered resp) =
      pure (accepted_as resp.message_id resp.status)

  unfoldable pub handle : Uuid → Route → Exec Reply
  unfolding behind_idempotency
  handle account_id (topup body) = Account.topup env (some account_id) body
  handle account_id balance = Account.get_balance env (some account_id)
  handle account_id (ledger limit cursor) =
      Account.list_ledger env scan (some account_id) limit cursor
  handle account_id (send_sms key body) =
      idempotency env key (some account_id) >>= behind_idempotency account_id body
  handle account_id (list_sms limit cursor) = Sms.list env scan (some account_id) limit cursor
  handle account_id (get_sms id) = Sms.get env (some account_id) id

  unfoldable pub routed : Route → Turn Uuid → Exec Answer
  unfolding handle
  routed route (aborts answer) = pure answer
  routed route (goes_on account_id) = do reply ← handle account_id route; pure (plain reply)

  -- The limiter is there where it is enabled.
  unfoldable pub limited : Option (Uuid → Result AllowResult) → Turn Uuid → Turn Uuid
  limited limiter (aborts answer) = aborts answer
  limited none (goes_on account_id) = goes_on account_id
  limited (some allow) (goes_on account_id) = rate_limit account_id (allow account_id)

  -- The group, by the token of the request.
  unfoldable pub v1 :
      (String → String) → Option (Uuid → Result AllowResult) → String → Route → Exec Answer
  unfolding limited routed
  v1 sha256_hex limiter token route = do
    turn ← account_token env sha256_hex token
    routed route (limited limiter turn)
