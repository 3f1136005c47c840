-- ===== src/Commands/Api.antt =====
-- main of cmd/api/main.go up to its server, and what it builds.
pub mod Starting
use arvan.Prelude.{
  String, Bool, true, false, Bool-cases, Option, none, some, ◌||◌, ◌≡◌, ◌≤◌, refl, ◌⊎◌, inl, inr,
  arith, str_eq, if◌then◌else◌,
}
use arvan.Prelude.Int.{ℤ, pos, pos_part, leb_ℤ}
use arvan.Cache.{RedisCacheConfig, new_redis_response_cache}
use arvan.Config.{Duration, HttpConfig, RedisConfig, Config}
use arvan.Config.Load.{Viper, Loaded, read_error, unmarshal_error, loaded, load}
use arvan.Repository.Db.{Driver, Db, new_db}
use arvan.RateLimit.{RedisLimiter, new_redis_limiter}
use arvan.Commands.{Started, exits, runs, configured, traced}

-- What the server runs on: the two databases, the client of Redis, the cache of responses, the limiter
-- with the prefix of its keys, the mode of gin, whether requests are traced, and the server.
pub record Parts : Type 0 where
  pub db : Db
  pub redis : Option RedisConfig
  pub cache : Option RedisCacheConfig
  pub limiter : Option (RedisLimiter × String)
  pub release_mode : Bool
  pub tracing : Bool
  pub addr : String × ℤ
  pub read_timeout : Duration
  pub write_timeout : Duration

unfoldable pub addr : HttpConfig → String × ℤ
addr c = (c.host, c.port)

unfoldable pub redis_client : Config → Option RedisConfig
redis_client cfg =
    if cfg.rate_limit.enabled || cfg.idempotency.cache_enabled then some cfg.redis else none

unfoldable pub idempotency_cache : Config → Option RedisConfig → Option RedisCacheConfig
idempotency_cache cfg none = none
idempotency_cache cfg (some client) =
    if cfg.idempotency.cache_enabled
    then some (new_redis_response_cache cfg.idempotency.cache_ttl cfg.idempotency.key_prefix)
    else none

-- NewRedisLimiter with its prefix.
unfoldable pub limiter_of : Config → RedisLimiter × String
limiter_of cfg = (
  new_redis_limiter cfg.rate_limit.window cfg.rate_limit.limit,
  if str_eq cfg.rate_limit.key_prefix "" then "ratelimit" else cfg.rate_limit.key_prefix,
)

abbrev pub parts : Config → Db → Option (RedisLimiter × String) → Parts
parts cfg db limiter = record {
  db = db;
  redis = redis_client cfg;
  cache = idempotency_cache cfg (redis_client cfg);
  limiter = limiter;
  release_mode = str_eq cfg.app.environment "production";
  tracing = cfg.telemetry.enabled;
  addr = addr cfg.http;
  read_timeout = cfg.http.read_timeout;
  write_timeout = cfg.http.write_timeout;
}

-- The limiter, where it is enabled, wants a client.
unfoldable pub behind_redis : Config → Db → Option RedisConfig → Bool → Started Parts
behind_redis cfg db client false = runs (parts cfg db none)
behind_redis cfg db none true = exits
behind_redis cfg db (some client) true = runs (parts cfg db (some (limiter_of cfg)))

unfoldable pub behind_db : Config → Option Db → Started Parts
behind_db cfg none = exits
behind_db cfg (some db) = behind_redis cfg db (redis_client cfg) cfg.rate_limit.enabled

unfoldable pub main : Viper → Bool → Driver → Started Parts
main v tracer driver =
    configured (load v)
      λ cfg. traced cfg.telemetry.enabled tracer (behind_db cfg (new_db driver cfg.database))
