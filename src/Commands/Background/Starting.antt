-- ===== src/Commands/Background/Starting.antt =====
-- Why the worker and the relay exit, and what they run on.
use arvan.Prelude.{
  ℕ, suc, Bool, true, false, Option, none, some, ◌≡◌, ◌+◌, ◌≤◌, refl, ◌⊎◌, inl, inr, arith,
}
use arvan.Domain.{MessageType, standard, express, other_type, dead_letter_queue}
use arvan.Broker.{RabbitMq, prefetch_count}
use arvan.Broker.Connection.{
  Server, Held, nothing_held, is_up, is_declared, connect, Connects, connect-Connects,
}
use arvan.Config.{Config}
use arvan.Config.Load.{Viper, Loaded, read_error, unmarshal_error, loaded, load}
use arvan.Relay.{queue_for_message_type}
use arvan.Repository.Db.{
  Driver, Db, is_open, new_db, ReadsSomewhere, new_db-ReadsSomewhere, new_db-opens, new_db-source,
}
use arvan.Worker.Bulkhead.{new_bulkhead}
use arvan.Worker.Consumer.{new_processor}
use arvan.Commands.{Started, exits, runs, configured, traced}
use arvan.Commands.Background.{
  circuit_breaker_settings, Backing, behind_broker, behind_db, start, WorkerParts, build_worker,
  worker_main, new_relay, relay_main,
}

-- The primary and a replica, and one channel to a broker that has the queue of each message type and
-- the one of dead letters.
pub record IsBacked (cfg : Config) (b : Backing) : Type 0 where
  pub writes : b.db.source ≡ cfg.database.primary_dsn
  pub reads : ReadsSomewhere b.db
  pub connections : b.held.connections ≡ 1
  pub channels : b.held.channels ≡ 1
  pub declared :
      (message_type : MessageType)
      → is_declared (queue_for_message_type message_type) b.held.declared ≡ true
  pub dead_letters : is_declared dead_letter_queue b.held.declared ≡ true

-- Why a command that builds its parts so exits, or what it runs on.
abbrev pub Starts :
    {A : Type 0} → (Config → Backing → A) → Loaded → Bool → Driver → Server → Started A → Type 0
Starts build l tracer driver server exits =
    (l ≡ read_error)
    ⊎ (l ≡ unmarshal_error)
    ⊎ ((cfg : Config) × (l ≡ loaded cfg)
        × (((cfg.telemetry.enabled ≡ true) × (tracer ≡ false))
            ⊎ ((is_open driver ≡ false) ⊎ (is_up server ≡ false))))
Starts build l tracer driver server (runs parts) =
    (cfg : Config) × (b : Backing) × (l ≡ loaded cfg)
    × (cfg.telemetry.enabled ≡ true → tracer ≡ true)
    × (is_open driver ≡ true)
    × (is_up server ≡ true)
    × (parts ≡ build cfg b)
    × IsBacked cfg b

module _ {A : Type 0} (build : Config → Backing → A) where
  module _ (cfg : Config) (driver : Driver) (server : Server) where
    broker-Starts :
        (tracer : Bool) (db : Db) (c : Option RabbitMq × Held)
        → (cfg.telemetry.enabled ≡ true → tracer ≡ true)
        → new_db driver cfg.database ≡ some db
        → Connects server c
        → Starts build (loaded cfg) tracer driver server (behind_broker build cfg db c)
    unfolding behind_broker
    broker-Starts tracer db (none, held) traces opened (down, _, _) =
        inr (inr (cfg, refl, inr (inr down)))
    broker-Starts tracer db (some rmq, held) traces opened
          (up, is, connections, channels, declared, dead) =
        (
          cfg,
          record { db = db; rmq = rmq; held = held },
          refl,
          traces,
          (new_db-opens driver cfg.database).1 db opened,
          up,
          refl,
          record {
            writes = new_db-source driver cfg.database db opened;
            reads = new_db-ReadsSomewhere driver cfg.database db opened;
            connections = connections;
            channels = channels;
            declared = declared;
            dead_letters = dead;
          },
        )

    db-Starts :
        (tracer : Bool) (o : Option Db)
        → (cfg.telemetry.enabled ≡ true → tracer ≡ true)
        → new_db driver cfg.database ≡ o
        → Starts build (loaded cfg) tracer driver server (behind_db build cfg server o)
    unfolding behind_db
    db-Starts tracer none traces closed =
        inr (inr (cfg, refl, inr (inl ((new_db-opens driver cfg.database).0 closed))))
    db-Starts tracer (some db) traces opened =
        broker-Starts tracer db (connect server nothing_held) traces opened
          (connect-Connects server)

    traced-Starts :
        (tracer enabled : Bool)
        → cfg.telemetry.enabled ≡ enabled
        → Starts build
            (loaded cfg)
            tracer
            driver
            server
            (traced enabled tracer (behind_db build cfg server (new_db driver cfg.database)))
    traced-Starts true true e = db-Starts true _ (λ h. refl) refl
    traced-Starts false true e = inr (inr (cfg, refl, inl (e, refl)))
    traced-Starts tracer false e = db-Starts tracer _ (λ h. absurd (ground (arith, e, h))) refl

  configured-Starts :
      (l : Loaded) (tracer : Bool) (driver : Driver) (server : Server)
      → Starts build l tracer driver server (
          configured l λ cfg.
            traced cfg.telemetry.enabled tracer
              (behind_db build cfg server (new_db driver cfg.database)))
  configured-Starts read_error tracer driver server = inl refl
  configured-Starts unmarshal_error tracer driver server = inr (inl refl)
  configured-Starts (loaded cfg) tracer driver server =
      traced-Starts cfg driver server tracer cfg.telemetry.enabled refl

  start-Starts :
      (v : Viper) (tracer : Bool) (driver : Driver) (server : Server)
      → Starts build (load v) tracer driver server (start build v tracer driver server)
  unfolding start
  start-Starts v tracer driver server = configured-Starts (load v) tracer driver server

-- The worker consumes the queue of each message type, asks for at least one delivery, has a slot for each
-- class and none taken, and its breaker trips behind some number of failures, but never behind none.
pub record Works (p : WorkerParts) : Type 0 where
  pub consumes :
      (message_type : MessageType)
      → is_declared (queue_for_message_type message_type) p.queues ≡ true
  pub asks : 1 ≤ p.prefetch
  pub express_slots :
      (p.workers.bulkhead.express.taken ≡ 0) × (1 ≤ p.workers.bulkhead.express.capacity)
  pub standard_slots :
      (p.workers.bulkhead.standard.taken ≡ 0) × (1 ≤ p.workers.bulkhead.standard.capacity)
  pub closed_at_first : p.breaker.ready_to_trip 0 ≡ false
  pub trips : (n : ℕ) × (p.breaker.ready_to_trip n ≡ true)

consumed :
    (message_type : MessageType) (cfg : Config) (b : Backing)
    → is_declared (queue_for_message_type message_type) (build_worker cfg b).queues ≡ true
unfolding build_worker queue_for_message_type is_declared
consumed standard cfg b = refl
consumed express cfg b = refl
consumed (other_type _) cfg b = refl

build_worker-Works : (cfg : Config) (b : Backing) → Works (build_worker cfg b)
unfolding build_worker new_processor new_bulkhead circuit_breaker_settings prefetch_count
build_worker-Works cfg b = record {
  consumes = λ message_type. consumed message_type cfg b;
  asks = ground arith;
  express_slots = (refl, ground arith);
  standard_slots = (refl, ground arith);
  closed_at_first = ground arith;
  trips = (suc cfg.operator.circuit_breaker.ready_to_trip + 5, ground arith);
}

-- If the worker runs, it works.
abbrev pub WorksIfStarted : Started WorkerParts → Type 0
WorksIfStarted exits = Unit
WorksIfStarted (runs p) = Works p

started-Works :
    (l : Loaded) (tracer : Bool) (driver : Driver) (server : Server) (r : Started WorkerParts)
    → Starts build_worker l tracer driver server r
    → WorksIfStarted r
started-Works l tracer driver server exits h = tt
started-Works l tracer driver server (runs p) (cfg, b, _, _, _, _, is, _) =
    rw is (build_worker-Works cfg b)

-- While they start, the worker and the relay exit only where their configuration cannot be read or
-- decoded, where telemetry is enabled and its tracer fails, or where the database or the broker
-- cannot be reached, and they run only where none of these is so: on the primary and a replica that
-- has a name or the primary, and on one channel to a broker that has the queues of all message types
-- and the one of dead letters; whatever its configuration says, the worker then consumes all these
-- queues, with a free slot for each class and at least one delivery at a time, and its breaker trips
-- behind some number of failures, but never behind none.
pub mains-Start :
    (v : Viper) (tracer : Bool) (driver : Driver) (server : Server)
    → Starts build_worker (load v) tracer driver server (worker_main v tracer driver server)
      × Starts new_relay (load v) tracer driver server (relay_main v tracer driver server)
      × WorksIfStarted (worker_main v tracer driver server)
unfolding worker_main relay_main
mains-Start v tracer driver server =
    let worker = start-Starts build_worker v tracer driver server in
    (
      worker,
      start-Starts new_relay v tracer driver server,
      started-Works (load v) tracer driver server _ worker,
    )
