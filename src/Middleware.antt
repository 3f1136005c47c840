-- ===== src/Middleware.antt =====
-- internal/middleware/idempotency.go and the lookup behind it, internal/idempotency/lookup.go. The
-- header is the empty text where it is missing; the account is there where authentication ran.
pub mod Agreed
pub mod Gates
pub mod Stored
pub mod RetryAfter
use arvan.Prelude.{zero, String, Option, none, some, str_eq, if◌then◌else◌}
use arvan.Domain.{
  Uuid, IdempotencyRecord, IdempotencyResponse, response, not_found, Result, ok, err,
}
use arvan.Domain.Idempotency.{parse_idempotency_response}
use arvan.Database.{Env, Exec, pure, attempt, ◌>>=◌}
use arvan.Cache
use arvan.Repository.Idempotency.{find_by_account_and_key}

-- What becomes of the request: the next handler sees it with a key or without one, or it is answered
-- here.
pub data Verdict : Type 0 where
  passed : Option String → Verdict
  invalid_key lookup_failed in_progress : Verdict
  answered : IdempotencyResponse → Verdict

module _ (env : Env) where
  -- A hit of the cache stands for the record; a miss and an error go to the database.
  unfoldable pub cached_or_stored :
      Uuid → String → Result (Option IdempotencyResponse) → Exec IdempotencyRecord
  cached_or_stored account_id key (ok (some resp)) = pure (record {
    id = zero;
    account_id = account_id;
    key = key;
    response_snapshot = response resp;
    created_at = zero;
  })
  cached_or_stored account_id key _ = find_by_account_and_key env account_id key

  -- CompositeLookup.FindByAccountAndKey
  unfoldable pub lookup : Uuid → String → Exec IdempotencyRecord
  lookup account_id key =
      if env.cache_enabled
      then (attempt (Cache.get env account_id key) >>= cached_or_stored account_id key)
      else find_by_account_and_key env account_id key

  -- The snapshot of the record, where it can be read.
  unfoldable pub replayed : Option IdempotencyResponse → Verdict
  replayed none = in_progress
  replayed (some resp) = answered resp

  unfoldable pub verdict_of : String → Result IdempotencyRecord → Exec Verdict
  verdict_of key (err not_found) = pure (passed (some key))
  verdict_of key (err e) = pure lookup_failed
  verdict_of key (ok rec) = pure (replayed (parse_idempotency_response rec.response_snapshot))

  unfoldable pub valid_key : String → Option Uuid → Exec Verdict
  valid_key key none = pure (passed (some key))
  valid_key key (some account_id) = attempt (lookup account_id key) >>= verdict_of key

  unfoldable pub checked_key : String → Option Uuid → Option Uuid → Exec Verdict
  checked_key key none account = pure invalid_key
  checked_key key (some _) account = valid_key key account

  -- Idempotency
  unfoldable pub idempotency : String → Option Uuid → Exec Verdict
  idempotency key account =
      if str_eq key "" then pure (passed none) else checked_key key (env.uuid_parse key) account
