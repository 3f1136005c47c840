-- ===== src/Commands/Api/Starting.antt =====
-- Why the API exits, and what it runs on.
use arvan.Prelude.{
  String, Bool, true, false, Option, none, some, ◌||◌, ◌≡◌, ◌≤◌, refl, sym, ◌⊎◌, inl, inr, arith,
  if◌then◌else◌,
}
use arvan.Cache.{RedisCacheConfig, new_redis_response_cache}
use arvan.Config.{Duration, RedisConfig, Config}
use arvan.Config.Load.{Viper, Loaded, read_error, unmarshal_error, loaded, load}
use arvan.Repository.Db.{
  Driver, Db, is_open, new_db, ReadsSomewhere, new_db-ReadsSomewhere, new_db-opens, new_db-source,
}
use arvan.RateLimit.{RedisLimiter, new_redis_limiter}
use arvan.Commands.{Started, exits, runs, traced, configured}
use arvan.Commands.Api.{
  Parts, redis_client, idempotency_cache, limiter_of, behind_redis, behind_db, main,
}

abbrev pub is_there {ℓ} : {A : Type ℓ} → Option A → Bool
is_there none = false
is_there (some a) = true

-- A limiter lets through at least one request, in a window that is not empty; and a cache keeps what
-- it is given for some time.
abbrev pub Limits : Option (RedisLimiter × String) → Type 0
Limits none = Unit
Limits (some (l, prefix)) = (1 ≤ l.limit) × (1 ≤ l.window)

abbrev pub Caches : Option RedisCacheConfig → Type 0
Caches none = Unit
Caches (some c) = 1 ≤ c.ttl

-- Why the command exits, or what it runs on.
abbrev pub Starts : Loaded → Bool → Driver → Started Parts → Type 0
Starts l tracer driver exits =
    (l ≡ read_error)
    ⊎ (l ≡ unmarshal_error)
    ⊎ ((cfg : Config) × (l ≡ loaded cfg)
        × (((cfg.telemetry.enabled ≡ true) × (tracer ≡ false)) ⊎ (is_open driver ≡ false)))
Starts l tracer driver (runs p) =
    (cfg : Config) × (l ≡ loaded cfg)
    × (cfg.telemetry.enabled ≡ true → tracer ≡ true)
    × (is_open driver ≡ true)
    × (p.db.source ≡ cfg.database.primary_dsn)
    × ReadsSomewhere p.db
    × (is_there p.redis ≡ (cfg.rate_limit.enabled || cfg.idempotency.cache_enabled))
    × (is_there p.cache ≡ cfg.idempotency.cache_enabled)
    × Caches p.cache
    × (is_there p.limiter ≡ cfg.rate_limit.enabled)
    × Limits p.limiter

kept_some_time :
    (enabled : Bool) (ttl : Duration) (key_prefix : String)
    → Caches (if enabled then some (new_redis_response_cache ttl key_prefix) else none)
unfolding new_redis_response_cache
kept_some_time false ttl key_prefix = tt
kept_some_time true ttl key_prefix = ground arith

module _ (cfg : Config) where
  redis_there :
      is_there (redis_client cfg) ≡ (cfg.rate_limit.enabled || cfg.idempotency.cache_enabled)
  unfolding redis_client
  redis_there = ground arith

  client_there : cfg.rate_limit.enabled ≡ true → redis_client cfg ≡ some cfg.redis
  unfolding redis_client
  client_there e = ground (arith, e)

  cache_there : is_there (idempotency_cache cfg (redis_client cfg)) ≡ cfg.idempotency.cache_enabled
  unfolding idempotency_cache redis_client
  cache_there = ground arith

  caches : (client : Option RedisConfig) → Caches (idempotency_cache cfg client)
  unfolding idempotency_cache
  caches none = tt
  caches (some client) = kept_some_time cfg.idempotency.cache_enabled _ _

  limits : Limits (some (limiter_of cfg))
  unfolding limiter_of new_redis_limiter
  limits = ground arith

  module _ (tracer : Bool) (driver : Driver)
      (traces : cfg.telemetry.enabled ≡ true → tracer ≡ true) where
    redis-Starts :
        (db : Db) (client : Option RedisConfig) (limited : Bool)
        → new_db driver cfg.database ≡ some db
        → client ≡ redis_client cfg
        → limited ≡ cfg.rate_limit.enabled
        → Starts (loaded cfg) tracer driver (behind_redis cfg db client limited)
    unfolding behind_redis
    redis-Starts db none true opened c l = absurd (ground (arith, client_there (sym l), c))
    redis-Starts db client false opened c l = (
      cfg,
      refl,
      traces,
      (new_db-opens driver cfg.database).1 db opened,
      new_db-source driver cfg.database db opened,
      new_db-ReadsSomewhere driver cfg.database db opened,
      redis_there,
      cache_there,
      caches (redis_client cfg),
      l,
      tt,
    )
    redis-Starts db (some client) true opened c l = (
      cfg,
      refl,
      traces,
      (new_db-opens driver cfg.database).1 db opened,
      new_db-source driver cfg.database db opened,
      new_db-ReadsSomewhere driver cfg.database db opened,
      redis_there,
      cache_there,
      caches (redis_client cfg),
      l,
      limits,
    )

    db-Starts :
        (o : Option Db)
        → new_db driver cfg.database ≡ o
        → Starts (loaded cfg) tracer driver (behind_db cfg o)
    unfolding behind_db
    db-Starts none closed = inr (inr (cfg, refl, inr ((new_db-opens driver cfg.database).0 closed)))
    db-Starts (some db) opened =
        redis-Starts db (redis_client cfg) cfg.rate_limit.enabled opened refl refl

  traced-Starts :
      (tracer : Bool) (driver : Driver) (enabled : Bool)
      → cfg.telemetry.enabled ≡ enabled
      → Starts
          (loaded cfg)
          tracer
          driver
          (traced enabled tracer (behind_db cfg (new_db driver cfg.database)))
  traced-Starts true driver true e = db-Starts true driver (λ h. refl) _ refl
  traced-Starts false driver true e = inr (inr (cfg, refl, inl (e, refl)))
  traced-Starts tracer driver false e =
      db-Starts tracer driver (λ h. absurd (ground (arith, e, h))) _ refl

configured-Starts :
    (l : Loaded) (tracer : Bool) (driver : Driver)
    → Starts l tracer driver (
        configured l
          λ cfg. traced cfg.telemetry.enabled tracer (behind_db cfg (new_db driver cfg.database)))
configured-Starts read_error tracer driver = inl refl
configured-Starts unmarshal_error tracer driver = inr (inl refl)
configured-Starts (loaded cfg) tracer driver =
    traced-Starts cfg tracer driver cfg.telemetry.enabled refl

-- While it starts, the API exits only where its configuration cannot be read or decoded, where
-- telemetry is enabled and its tracer fails, or where the database cannot be opened, and it runs only
-- where none of these is so: its writes go to the primary and its reads to a replica that has a name
-- or to the primary; there is a client of Redis where the limiter or the cache is enabled, a cache
-- exactly where the cache is enabled, and a limiter exactly where limiting is enabled, which lets at
-- least one request through in a window that is not empty.
pub main-Starts :
    (v : Viper) (tracer : Bool) (driver : Driver)
    → Starts (load v) tracer driver (main v tracer driver)
unfolding main
main-Starts v tracer driver = configured-Starts (load v) tracer driver
