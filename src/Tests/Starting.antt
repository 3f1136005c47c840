-- ===== src/Tests/Starting.antt =====
-- The commands at concrete configurations.
use arvan.Prelude.{String, true, false, some, List, [], ◌∷◌, ◌≡◌, refl}
use arvan.Prelude.Int.{pos}
use arvan.Config.{Config}
use arvan.Config.Load.{
  Viper, Setting, file_not_found, load, after_read, unmarshalled, with_replica, loaded,
  set_defaults, bind_env,
}
use arvan.Repository.Db.{Driver}
use arvan.Broker.Connection.{Server}
use arvan.Handler.Health.{live, ready_pinged, ready}
use arvan.Commands.Api
use arvan.Commands.Api.Starting.{main-Starts}
use arvan.Commands.Api.Starting as ApiStarting
use arvan.Commands.Background.{build_worker, new_relay, worker_main, relay_main}
use arvan.Commands.Background.Starting.{Starts, WorksIfStarted, mains-Start}

-- A configuration.
abbrev config : Config
config = record {
  app = record { name = "sms-gateway"; environment = "development"; log_level = "info" };
  http = record {
    host = "0.0.0.0";
    port = pos 8080;
    read_timeout = pos 10000000000;
    write_timeout = pos 10000000000;
    shutdown_timeout = pos 15000000000;
  };
  database = record { primary_dsn = "postgres://primary"; replica_dsn = "" };
  redis = record { addr = "localhost:6379"; password = ""; db = pos 0 };
  rabbit_mq = record { url = "amqp://localhost" };
  outbox_relay = record {
    poll_interval = pos 500000000;
    batch_size = pos 50;
    lock_duration = pos 30000000000;
    shutdown_timeout = pos 15000000000;
    metrics_port = pos 9092;
  };
  worker = record {
    prefetch_count = pos 10;
    shutdown_timeout = pos 30000000000;
    express_pool_size = pos 20;
    standard_pool_size = pos 50;
    max_delivery_attempts = pos 5;
    metrics_port = pos 9091;
  };
  operator = record {
    base_url = "http://localhost:8090";
    timeout = pos 10000000000;
    circuit_breaker = record {
      max_requests = 3;
      interval = pos 0;
      timeout = pos 30000000000;
      ready_to_trip = 5;
    };
  };
  mock_op = record {
    host = "0.0.0.0";
    port = pos 8090;
    min_latency = pos 10000000;
    max_latency = pos 50000000;
    failure_rate = 0;
    read_timeout = pos 5000000000;
    write_timeout = pos 5000000000;
  };
  rate_limit = record {
    enabled = true;
    window = pos 1000000000;
    limit = pos 100;
    key_prefix = "ratelimit";
  };
  idempotency = record {
    cache_enabled = true;
    cache_ttl = pos 86400000000000;
    key_prefix = "idempotency";
  };
  telemetry = record { enabled = true; otlp_endpoint = "localhost:4318" };
}

abbrev viper : Viper
viper = record { read_in_config = file_not_found; unmarshal = λ defaults keys. some config }

abbrev driver : Driver
driver = record { opens = true; registers = true; gives_pool = true }

abbrev server : Server
server = record { dials = true; opens_channel = true; confirms = true; declares = λ queue. true }

-- Without a replica, the primary is read.
loads :
    load viper
    ≡ loaded (record config {
      database = record { primary_dsn = "postgres://primary"; replica_dsn = "postgres://primary" };
    })
unfolding load after_read unmarshalled with_replica
loads = refl

abbrev keys : List (String × Setting) → List String
keys [] = []
keys ((key, value) ∷ rest) = key ∷ keys rest

-- Every key with a default is bound to the environment, and no other.
all_bound : keys set_defaults ≡ bind_env
all_bound = refl

main-Starts_example : ApiStarting.Starts (load viper) true driver (Api.main viper true driver)
main-Starts_example = main-Starts viper true driver

mains-Start_example :
    Starts build_worker (load viper) true driver server (worker_main viper true driver server)
    × Starts new_relay (load viper) true driver server (relay_main viper true driver server)
    × WorksIfStarted (worker_main viper true driver server)
mains-Start_example = mains-Start viper true driver server

-- The probes.
probes :
    ((ready (some (record { primary = true; replica = false }))).code ≡ 503)
    × ((ready (some (record { primary = true; replica = true }))).code ≡ live.code)
unfolding ready ready_pinged live
probes = (refl, refl)
