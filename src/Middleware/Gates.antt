-- ===== src/Middleware/Gates.antt =====
-- internal/middleware/auth.go and ratelimit.go: who a request is from, and whether it goes on.
use arvan.Prelude.{ℕ, ◌+◌, ◌-◌, ◌/◌, String, Option, none, some, str_eq, if◌then◌else◌, not, ltb}
use arvan.Domain.{Uuid, Account, not_found, Result, ok, err}
use arvan.Database.{Env, Exec, pure, attempt, ◌>>=◌}
use arvan.Repository.Account.{find_by_token_hash}
use arvan.RateLimit.{AllowResult, second}
use arvan.Handler.{Reply, failure}

-- What is written to the client, with the Retry-After header.
pub record Answer : Type 0 where
  pub reply : Reply
  pub retry_after : Option ℕ

-- The request goes on with a value, or is answered here.
pub data Turn (A : Type 0) : Type 0 where
  goes_on : A → Turn A
  aborts : Answer → Turn A

abbrev pub plain : Reply → Answer
plain reply = record { reply = reply; retry_after = none }

-- writeUnauthorized
abbrev pub unauthorized_with : String → Turn Uuid
unauthorized_with message = aborts (plain (failure 401 "unauthorized" message))

unfoldable pub resolved : Result Account → Turn Uuid
resolved (ok account) = goes_on account.id
resolved (err not_found) = unauthorized_with "invalid account token"
resolved (err e) = aborts (plain (failure 500 "internal_error" "failed to resolve account"))

-- AccountToken, by the header and the hash of internal/domain/token.go: `sha256_hex` is sha256.Sum256
-- behind hex.EncodeToString.
unfoldable pub account_token : Env → (String → String) → String → Exec (Turn Uuid)
unfolding resolved
account_token env sha256_hex token =
    if str_eq token ""
    then pure (unauthorized_with "missing X-Account-Token header")
    else (do account ← attempt (find_by_token_hash env (sha256_hex token)); pure (resolved account))

-- math.Ceil(d.Seconds()), which is exact below 2 ^ 22 seconds, where a float64 tells the nanoseconds of
-- a second apart.
abbrev pub ceil_seconds : ℕ → ℕ
ceil_seconds duration = (duration + (second - 1)) / second

abbrev pub at_least_one : ℕ → ℕ
at_least_one seconds = if ltb seconds 1 then 1 else seconds

-- RateLimit, by what the limiter answered for the account.
unfoldable pub rate_limit : Uuid → Result AllowResult → Turn Uuid
rate_limit account_id (err e) =
    aborts (plain (failure 500 "internal_error" "rate limit check failed"))
rate_limit account_id (ok result) =
    if not result.allowed
    then aborts (record {
      reply = failure 429 "rate_limit_exceeded" "too many requests";
      retry_after = some (at_least_one (ceil_seconds result.retry_after));
    })
    else goes_on account_id
