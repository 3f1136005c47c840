-- ===== src/Middleware/RetryAfter.antt =====
-- The Retry-After header of internal/middleware/ratelimit.go, by the answer of the limiter.
use arvan.Prelude.Lists.{length}
use arvan.Prelude.{
  inl, inr, ⊤, subst, leb, ℕ, ◌≤◌, ◌+◌, ◌*◌, ◌≡◌, refl, arith, true, false, Bool-cases, Option,
  none, some, List,
}
use arvan.Domain.{Uuid, Time, Result, ok, err}
use arvan.RateLimit.{
  RedisLimiter, AllowResult, Answers, SortedSet, Entry, second, least_score, retry_after, allow,
  executed, decide, current, pipeline,
}
use arvan.Middleware.Gates.{aborts, ceil_seconds, at_least_one, rate_limit}
use arvan.Handler.{failure}

-- The seconds cover the duration.
header_seconds :
    (duration : ℕ)
    → (1 ≤ at_least_one (ceil_seconds duration))
      × (duration ≤ at_least_one (ceil_seconds duration) * second)
header_seconds duration = ground arith

module _ (float64 : ℕ → ℕ) (limiter : RedisLimiter) where
  -- The wait that the limiter asks for ends no sooner than the oldest member leaves the window.
  retry_after-waits :
      (answers : Answers) (es : List Entry)
      → (answers.ranges ≡ true
          → (oldest : ℕ) → least_score es ≡ some oldest
          → oldest + limiter.window ≤ answers.later + retry_after float64 limiter answers es)
        × (answers.ranges ≡ false → limiter.window ≤ retry_after float64 limiter answers es)
  unfolding retry_after
  retry_after-waits answers es =
      ((λ ranges oldest least. rw (ranges, least) (ground arith)), λ fails. rw fails (omega arith))

  -- A rejection asks for the wait that the set it leaves calls for.
  abbrev AsksFor : Answers → Result AllowResult × SortedSet → Type 0
  AsksFor answers (err e, left) = ⊤
  AsksFor answers (ok result, left) =
      result.allowed ≡ false → result.retry_after ≡ retry_after float64 limiter answers left.entries

  decide-AsksFor :
      (answers : Answers) (now : Time) (set : SortedSet)
      → AsksFor answers (decide float64 limiter answers now set)
  unfolding decide
  decide-AsksFor answers now set = elim (Bool-cases (leb (length set.entries) limiter.limit)) [
    | inl fits ↦ rw fits (λ h. absurd (ground arith))
    | inr full ↦ rw full (λ h. refl)
  ]

  executed-AsksFor :
      (broken : Option ℕ) (answers : Answers) (now : Time) (set : SortedSet)
      → AsksFor answers (executed float64 limiter broken answers now set)
  unfolding executed
  executed-AsksFor (some commands) answers now set = tt
  executed-AsksFor none answers now set =
      decide-AsksFor answers now (pipeline float64 limiter 4 now set)

  -- A request that the limiter does not let through is answered with 429 and a Retry-After of at
  -- least a second, and not sooner than the oldest member that Redis reports leaves the window, or
  -- than a whole window where ZRANGE fails.
  pub allow-RetryAfter :
      (account_id : Uuid) (answers : Answers) (now : Time) (set left : SortedSet)
      (result : AllowResult)
      → allow float64 limiter answers now set ≡ (ok result, left)
      → result.allowed ≡ false
      → (seconds : ℕ) × (rate_limit account_id (ok result)
          ≡ aborts (record {
            reply = failure 429 "rate_limit_exceeded" "too many requests";
            retry_after = some seconds;
          }))
        × (1 ≤ seconds)
        × (answers.ranges ≡ true
            → (oldest : ℕ) → least_score left.entries ≡ some oldest
            → oldest + limiter.window ≤ answers.later + seconds * second)
        × (answers.ranges ≡ false → limiter.window ≤ seconds * second)
  unfolding allow rate_limit
  allow-RetryAfter account_id answers now set left result answered rejected =
      let asks : AsksFor answers (ok result, left) =
        subst (AsksFor answers) answered
          (executed-AsksFor answers.broken_after answers now (current now set)) in
      let (positive, covers) = header_seconds result.retry_after in
      let (waits, whole) = retry_after-waits answers left.entries in
      let is_wait = asks rejected in
      (
        at_least_one (ceil_seconds result.retry_after),
        rw rejected refl,
        positive,
        (λ ranges oldest least. omega (arith, waits ranges oldest least, is_wait, covers)),
        (λ fails. omega (arith, whole fails, is_wait, covers)),
      )
