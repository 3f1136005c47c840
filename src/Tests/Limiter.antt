-- ===== src/Tests/Limiter.antt =====
-- The rate limiter at concrete inputs.
use arvan.Prelude.{ℕ, ◌≤◌, ◌+◌, ◌*◌, ◌≡◌, refl, arith, true, false, none, some, List, [], ◌∷◌}
use arvan.Prelude.Lists.{length, select}
use arvan.Domain.{ok}
use arvan.RateLimit.{
  RedisLimiter, AllowResult, Answers, SortedSet, nothing_stored, second, allow, executed, pipeline,
  decide, retry_after, least_score,
}
use arvan.RateLimit.Admission.{Request, serve_all, in_window}
use arvan.RateLimit.Bound.{serve_all-bound}
use arvan.Handler.{failure}
use arvan.Middleware.Gates.{aborts, rate_limit}
use arvan.Middleware.RetryAfter.{allow-RetryAfter}

abbrev limiter : RedisLimiter
limiter = record { window = second; limit = 1 }

abbrev same : ℕ → ℕ
same n = n

abbrev fine : Answers
fine = record { broken_after = none; removes = true; ranges = true; later = 5 }

abbrev requests : List Request
requests = record { at = 3; answers = fine } ∷ record { at = 5; answers = fine } ∷ []

serve_all-bound_example :
    length (
      select
        (in_window same limiter 6)
        (serve_all same limiter requests (record { set = nothing_stored; admitted = [] })).admitted)
    ≤ limiter.limit
serve_all-bound_example =
    serve_all-bound same limiter (λ m n h. h) 2 requests 6 (omega arith, (omega arith, tt))
      (omega arith)

abbrev left : SortedSet
left = record {
  entries = record { member = 3; score = 3 } ∷ [];
  expires = some (5 + (second + second));
}

abbrev rejection : AllowResult
rejection = record { allowed = false; retry_after = 1000000000 }

abbrev taken : SortedSet
taken = record { entries = record { member = 3; score = 3 } ∷ []; expires = none }

rejects : allow same limiter fine 5 taken ≡ (ok rejection, left)
unfolding allow executed pipeline decide retry_after least_score
rejects = refl

allow-RetryAfter_example :
    (seconds : ℕ) × (rate_limit 7 (ok rejection)
      ≡ aborts (record {
        reply = failure 429 "rate_limit_exceeded" "too many requests";
        retry_after = some seconds;
      }))
    × (1 ≤ seconds)
    × (fine.ranges ≡ true
        → (oldest : ℕ) → least_score left.entries ≡ some oldest
        → oldest + limiter.window ≤ fine.later + seconds * second)
    × (fine.ranges ≡ false → limiter.window ≤ seconds * second)
allow-RetryAfter_example = allow-RetryAfter same limiter 7 fine 5 taken left rejection rejects refl

-- Two requests of one nanosecond share a member, and both are let through by a limit of one.
shared_member :
    (serve_all same limiter
      (record { at = 5; answers = fine } ∷ record { at = 5; answers = fine } ∷ [])
      (record { set = nothing_stored; admitted = [] })).admitted
    ≡ 5 ∷ 5 ∷ []
unfolding allow executed pipeline decide
shared_member = refl
