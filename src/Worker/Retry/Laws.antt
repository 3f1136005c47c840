-- ===== src/Worker/Retry/Laws.antt =====
-- What a delivery without an x-death header counts as, and whether it becomes a dead letter.
use arvan.Prelude.{Bool, true, false, none, ◌≡◌, arith, if◌then◌else◌}
use arvan.Prelude.Int.{ℤ, pos, leb_ℤ, ◌≤ℤ◌}
use arvan.Worker.Retry.{Table, get, x_death_count, count_deaths, delivery_attempt_count}
use arvan.Worker.Processor.{Delivery, Config, should_dead_letter}

unrecorded :
    (headers : Table) (redelivered : Bool)
    → get "x-death" headers ≡ none
    → delivery_attempt_count headers redelivered ≡ (if redelivered then pos 1 else pos 0)
unfolding delivery_attempt_count x_death_count count_deaths
unrecorded headers redelivered h = rw (h)

below :
    (max : ℤ) (redelivered : Bool)
    → pos 2 ≤ℤ max
    → leb_ℤ max (if redelivered then pos 1 else pos 0) ≡ false
below max true h = ground (arith, h)
below max false h = ground (arith, h)

positive : (max : ℤ) → pos 2 ≤ℤ max → leb_ℤ max (pos 0) ≡ false
positive max h = ground (arith, h)

-- Where the maximum is at least 2, a delivery that has no x-death header is not a dead letter,
-- redelivered or not.
pub unrecorded-kept :
    (cfg : Config) (d : Delivery)
    → pos 2 ≤ℤ cfg.max_delivery_attempts
    → get "x-death" d.headers ≡ none
    → should_dead_letter cfg d ≡ false
unfolding should_dead_letter
unrecorded-kept cfg d h k = rw (
  positive cfg.max_delivery_attempts h,
  unrecorded d.headers d.redelivered k,
  below cfg.max_delivery_attempts d.redelivered h,
)
