-- ===== src/RateLimit.antt =====
-- internal/ratelimit/limiter.go, with the sorted set that Redis keeps under the key of one account. A
-- call reads and writes that key alone.
pub mod Window
pub mod Admission
pub mod Bound
use arvan.Prelude.{
  ◌*◌, ◌/◌, ℕ, zero, suc, ◌+◌, ◌-◌, Bool, true, false, not, Option, none, some, List, [], ◌∷◌, ◌&&◌,
  ◌==◌, ltb, leb, if◌then◌else◌,
}
use arvan.Prelude.Int.{ℤ, pos, pos_part, leb_ℤ}
use arvan.Prelude.Lists.{length, select}
use arvan.Domain.{Time, Result, ok, err, internal}

-- Durations are nanoseconds.
abbrev pub second : ℕ
second = 1000000000

-- A window and a limit that are positive.
pub record RedisLimiter : Type 0 where
  pub window : ℕ
  pub limit : ℕ

-- NewRedisLimiter, by the window and the limit of its configuration.
unfoldable pub new_redis_limiter : ℤ → ℤ → RedisLimiter
new_redis_limiter window limit = record {
  window = if leb_ℤ window (pos 0) then second else pos_part window;
  limit = if leb_ℤ limit (pos 0) then 100 else pos_part limit;
}

pub record AllowResult : Type 0 where
  pub allowed : Bool
  pub retry_after : ℕ

-- A member with its score.
pub record Entry : Type 0 where
  pub member : Time
  pub score : ℕ

-- A sorted set, in any order, with the time at which Redis drops it.
pub record SortedSet : Type 0 where
  pub entries : List Entry
  pub expires : Option Time

abbrev pub nothing_stored : SortedSet
nothing_stored = record { entries = []; expires = none }

abbrev pub is_past : Time → Option Time → Bool
is_past now none = false
is_past now (some at) = leb at now

-- The set at a time.
abbrev pub current : Time → SortedSet → SortedSet
current now set = if is_past now set.expires then nothing_stored else set

-- Redis drops a set with its expiry when it loses its last member.
abbrev pub stored : List Entry → Option Time → SortedSet
stored [] expires = nothing_stored
stored (e ∷ es) expires = record { entries = e ∷ es; expires = expires }

abbrev pub other_than : Time → Entry → Bool
other_than member e = not (e.member == member)

-- The scores that are left by a removal up to the given score.
abbrev pub above : ℕ → Entry → Bool
above score e = ltb score e.score

-- The score of the first member of ZRANGE 0 0, which is the least.
unfoldable pub least_score : List Entry → Option ℕ
least_score [] = none
least_score (e ∷ es) = elim (least_score es) [
  | none ↦ some e.score
  | some s ↦ some (if ltb s e.score then s else e.score)
]

-- What Redis does for one call: the number of commands of the pipeline that took effect before an
-- error, none where there is no error; whether ZREM takes effect, and whether ZRANGE answers; and the
-- time that time.Until reads.
pub record Answers : Type 0 where
  pub broken_after : Option ℕ
  pub removes : Bool
  pub ranges : Bool
  pub later : Time

-- go-redis gives EXPIRE a number of seconds, and leaves the rest of the duration out.
abbrev pub whole_seconds : ℕ → ℕ
whole_seconds duration = duration / second * second

-- `float64` is the conversion of a number of nanoseconds, which rounds.
module _ (float64 : ℕ → ℕ) (limiter : RedisLimiter) where
  -- The removal from 0 up to the start of the window, which is nothing before the window is full.
  abbrev pub leaves_window : Time → List Entry → List Entry
  leaves_window now es =
      if leb limiter.window now then select (above (float64 (now - limiter.window))) es else es

  -- ZREMRANGEBYSCORE, ZADD and EXPIRE; ZCARD changes nothing.
  abbrev pub zremrangebyscore : Time → SortedSet → SortedSet
  zremrangebyscore now set = stored (leaves_window now set.entries) set.expires

  abbrev pub zadd : Time → SortedSet → SortedSet
  zadd now set = record set {
    entries = record { member = now; score = float64 now } ∷ select (other_than now) set.entries;
  }

  abbrev pub expire : Time → SortedSet → SortedSet
  expire now set = record set { expires = some (now + whole_seconds (limiter.window + second)) }

  -- The first commands of the pipeline.
  unfoldable pub pipeline : ℕ → Time → SortedSet → SortedSet
  pipeline zero now set = set
  pipeline (suc zero) now set = zremrangebyscore now set
  pipeline (suc (suc zero)) now set = zadd now (zremrangebyscore now set)
  pipeline (suc (suc (suc n))) now set = expire now (zadd now (zremrangebyscore now set))

  abbrev pub zrem : Bool → Time → SortedSet → SortedSet
  zrem false now set = set
  zrem true now set = stored (select (other_than now) set.entries) set.expires

  -- The time until the oldest member leaves the window, a second at least.
  unfoldable pub retry_after : Answers → List Entry → ℕ
  retry_after answers es =
      if answers.ranges
      then elim (least_score es) [
        | none ↦ limiter.window
        | some oldest ↦
            (if ltb (oldest + limiter.window - answers.later) second
              then second
              else oldest + limiter.window - answers.later)
      ]
      else limiter.window

  -- Behind the pipeline.
  unfoldable pub decide : Answers → Time → SortedSet → Result AllowResult × SortedSet
  unfolding retry_after
  decide answers now set =
      if leb (length set.entries) limiter.limit
      then (ok (record { allowed = true; retry_after = 0 }), set)
      else (
        ok (record {
          allowed = false;
          retry_after = retry_after answers (zrem answers.removes now set).entries;
        }),
        zrem answers.removes now set,
      )

  -- From the pipeline on, by where it broke.
  unfoldable pub executed : Option ℕ → Answers → Time → SortedSet → Result AllowResult × SortedSet
  unfolding pipeline decide
  executed (some commands) answers now set = (err internal, pipeline commands now set)
  executed none answers now set = decide answers now (pipeline 4 now set)

  unfoldable pub allow : Answers → Time → SortedSet → Result AllowResult × SortedSet
  unfolding executed
  allow answers now set = executed answers.broken_after answers now (current now set)
