-- ===== src/Config.antt =====
-- internal/config/config.go: what the processes are configured with.
pub mod Load
use arvan.Prelude.{ℕ, String, Bool}
use arvan.Prelude.Int.{ℤ}

-- A time.Duration is its nanoseconds, of either sign.
abbrev pub Duration : Type 0
Duration = ℤ

-- A float64 is given by its bits.
abbrev pub Float64 : Type 0
Float64 = ℕ

pub record AppConfig : Type 0 where
  pub name : String
  pub environment : String
  pub log_level : String

pub record HttpConfig : Type 0 where
  pub host : String
  pub port : ℤ
  pub read_timeout : Duration
  pub write_timeout : Duration
  pub shutdown_timeout : Duration

pub record DatabaseConfig : Type 0 where
  pub primary_dsn : String
  pub replica_dsn : String

pub record RedisConfig : Type 0 where
  pub addr : String
  pub password : String
  pub db : ℤ

pub record RabbitMqConfig : Type 0 where
  pub url : String

pub record OutboxRelayConfig : Type 0 where
  pub poll_interval : Duration
  pub batch_size : ℤ
  pub lock_duration : Duration
  pub shutdown_timeout : Duration
  pub metrics_port : ℤ

pub record WorkerConfig : Type 0 where
  pub prefetch_count : ℤ
  pub shutdown_timeout : Duration
  pub express_pool_size : ℤ
  pub standard_pool_size : ℤ
  pub max_delivery_attempts : ℤ
  pub metrics_port : ℤ

pub record CircuitBreakerConfig : Type 0 where
  pub max_requests : ℕ
  pub interval : Duration
  pub timeout : Duration
  pub ready_to_trip : ℕ

pub record RateLimitConfig : Type 0 where
  pub enabled : Bool
  pub window : Duration
  pub limit : ℤ
  pub key_prefix : String

pub record IdempotencyConfig : Type 0 where
  pub cache_enabled : Bool
  pub cache_ttl : Duration
  pub key_prefix : String

pub record TelemetryConfig : Type 0 where
  pub enabled : Bool
  pub otlp_endpoint : String

pub record OperatorConfig : Type 0 where
  pub base_url : String
  pub timeout : Duration
  pub circuit_breaker : CircuitBreakerConfig

pub record MockOperatorConfig : Type 0 where
  pub host : String
  pub port : ℤ
  pub min_latency : Duration
  pub max_latency : Duration
  pub failure_rate : Float64
  pub read_timeout : Duration
  pub write_timeout : Duration

pub record Config : Type 0 where
  pub app : AppConfig
  pub http : HttpConfig
  pub database : DatabaseConfig
  pub redis : RedisConfig
  pub rabbit_mq : RabbitMqConfig
  pub outbox_relay : OutboxRelayConfig
  pub worker : WorkerConfig
  pub operator : OperatorConfig
  pub mock_op : MockOperatorConfig
  pub rate_limit : RateLimitConfig
  pub idempotency : IdempotencyConfig
  pub telemetry : TelemetryConfig
