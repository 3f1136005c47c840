-- ===== src/Commands/Background.antt =====
-- main of cmd/worker/main.go and of cmd/outbox-relay/main.go up to the signal that they wait for: both open
-- the database and the broker, and then build their parts.
pub mod Starting
use arvan.Prelude.{
  ℕ, zero, suc, String, Bool, true, Option, none, some, List, [], ◌∷◌, leb, ◌==◌, if◌then◌else◌,
}
use arvan.Prelude.Int.{ℤ, pos, ltb_ℤ}
use arvan.Domain.{Queue, express_queue, standard_queue}
use arvan.Broker.{RabbitMq, prefetch_count}
use arvan.Broker.Connection.{Server, Held, nothing_held, connect}
use arvan.Config.{Duration, CircuitBreakerConfig, WorkerConfig, OutboxRelayConfig, Config}
use arvan.Config.Load.{Viper, load}
use arvan.Repository.Db.{Driver, Db, new_db}
use arvan.Worker.Processor as Processor
use arvan.Worker.Consumer.{Workers, new_processor}
use arvan.Commands.{Started, exits, runs, configured, traced}

-- gobreaker.Settings; ReadyToTrip reads the consecutive failures.
pub record Settings : Type 0 where
  pub name : String
  pub max_requests : ℕ
  pub interval : Duration
  pub timeout : Duration
  pub ready_to_trip : ℕ → Bool

-- A threshold of 0 is replaced.
abbrev pub threshold_or_default : ℕ → ℕ
threshold_or_default threshold = if threshold == 0 then 5 else threshold

unfoldable pub circuit_breaker_settings : CircuitBreakerConfig → Settings
circuit_breaker_settings cfg = record {
  name = "operator";
  max_requests = cfg.max_requests;
  interval = cfg.interval;
  timeout = cfg.timeout;
  ready_to_trip = leb (threshold_or_default cfg.ready_to_trip);
}

-- What each of the two runs on.
pub record Backing : Type 0 where
  pub db : Db
  pub rmq : RabbitMq
  pub held : Held

module _ {A : Type 0} (build : Config → Backing → A) where
  unfoldable pub behind_broker : Config → Db → Option RabbitMq × Held → Started A
  behind_broker cfg db (none, held) = exits
  behind_broker cfg db (some rmq, held) =
      runs (build cfg (record { db = db; rmq = rmq; held = held }))

  unfoldable pub behind_db : Config → Server → Option Db → Started A
  behind_db cfg server none = exits
  behind_db cfg server (some db) = behind_broker cfg db (connect server nothing_held)

  unfoldable pub start : Viper → Bool → Driver → Server → Started A
  start v tracer driver server =
      configured (load v) λ cfg.
        traced cfg.telemetry.enabled tracer (behind_db cfg server (new_db driver cfg.database))

-- The server of metrics, where it has a port.
unfoldable pub metrics_server : ℤ → Option ℤ
metrics_server port = if ltb_ℤ (pos 0) port then some port else none

-- The worker: its processor, whose publisher of dead letters is the broker, the settings of the breaker, and
-- the queues that it consumes with what it asks the broker for at once.
pub record WorkerParts : Type 0 where
  pub backing : Backing
  pub config : Processor.Config
  pub workers : Workers
  pub breaker : Settings
  pub queues : List Queue
  pub prefetch : ℕ
  pub metrics : Option ℤ

unfoldable pub build_worker : Config → Backing → WorkerParts
build_worker cfg backing = record {
  backing = backing;
  config = record { max_delivery_attempts = cfg.worker.max_delivery_attempts; has_dlq = true };
  workers = new_processor cfg.worker.express_pool_size cfg.worker.standard_pool_size;
  breaker = circuit_breaker_settings cfg.operator.circuit_breaker;
  queues = express_queue ∷ standard_queue ∷ [];
  prefetch = prefetch_count cfg.worker.prefetch_count;
  metrics = metrics_server cfg.worker.metrics_port;
}

unfoldable pub worker_main : Viper → Bool → Driver → Server → Started WorkerParts
worker_main = start build_worker

-- NewRelay, and the server of metrics.
pub record RelayParts : Type 0 where
  pub backing : Backing
  pub cfg : OutboxRelayConfig
  pub metrics : Option ℤ

unfoldable pub new_relay : Config → Backing → RelayParts
new_relay cfg backing = record {
  backing = backing;
  cfg = cfg.outbox_relay;
  metrics = metrics_server cfg.outbox_relay.metrics_port;
}

unfoldable pub relay_main : Viper → Bool → Driver → Server → Started RelayParts
relay_main = start new_relay
