-- ===== src/Cache.antt =====
-- internal/idempotency/cache.go: the responses in Redis. A lost request is an entry that expired or
-- was evicted in time for a read, and a write whose reply did not come.
pub mod Laws
use arvan.Prelude.{
  ⊤, suc, String, Bool, true, false, Option, none, some, List, ◌∷◌, ◌&&◌, ◌==◌, str_eq, ℕ,
  if◌then◌else◌,
}
use arvan.Prelude.Int.{ℤ, pos, pos_part, leb_ℤ}
use arvan.Prelude.Lists.{find}
use arvan.Domain.{Uuid, Snapshot, response, IdempotencyResponse, Result, ok, err, driver_error}
use arvan.Domain.Idempotency.{parse_idempotency_response}
use arvan.Database.{Outcome, done, refused, lost, CacheEntry, Env, Session, Exec}

-- NewRedisResponseCache: a lifetime that is not positive and an empty prefix are replaced.
pub record RedisCacheConfig : Type 0 where
  pub ttl : ℕ
  pub key_prefix : String

unfoldable pub new_redis_response_cache : ℤ → String → RedisCacheConfig
new_redis_response_cache ttl key_prefix = record {
  ttl = if leb_ℤ ttl (pos 0) then 86400000000000 else pos_part ttl;
  key_prefix = if str_eq key_prefix "" then "idempotency" else key_prefix;
}

abbrev pub by_cache_key : Uuid → String → CacheEntry → Bool
by_cache_key account_id key e = (e.account_id == account_id) && str_eq e.key key

-- The bytes under a key that are a complete response.
abbrev pub read_entry : Option CacheEntry → Option IdempotencyResponse
read_entry none = none
read_entry (some e) = parse_idempotency_response e.snapshot

abbrev pub get_settled :
    Outcome → Uuid → String → Session → Result (Option IdempotencyResponse) × Session
get_settled done account_id key s =
    (ok (read_entry (find (by_cache_key account_id key) s.cache)), record s { step = suc s.step })
get_settled refused account_id key s = (err driver_error, record s { step = suc s.step })
get_settled lost account_id key s = (ok none, record s { step = suc s.step })

abbrev pub set_settled : Outcome → CacheEntry → Session → Result ⊤ × Session
set_settled done e s = (ok tt, record s { cache = e ∷ s.cache; step = suc s.step })
set_settled refused e s = (err driver_error, record s { step = suc s.step })
set_settled lost e s = (err driver_error, record s { cache = e ∷ s.cache; step = suc s.step })

module _ (env : Env) where
  -- `none` is a miss.
  unfoldable pub get : Uuid → String → Exec (Option IdempotencyResponse)
  unfolding parse_idempotency_response
  get account_id key s = get_settled (env.outcome s.step) account_id key s

  unfoldable pub set : Uuid → String → IdempotencyResponse → Exec ⊤
  set account_id key resp s =
      set_settled (env.outcome s.step)
        (record { account_id = account_id; key = key; snapshot = response resp }) s
