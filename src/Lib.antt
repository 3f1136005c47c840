-- ===== src/Lib.antt =====
-- The SMS gateway of this repository: clients top up an account and send messages, each send is
-- charged to the account and recorded with an outbox event, and a worker takes the published events
-- to the operator.
--
-- Files, with the code that they model:
--   Domain: the values of internal/domain; Domain/Validation the checks of sms_validation.go,
--     Domain/Idempotency the snapshots of idempotency.go.
--   Database: rows of the tables of migrations/000001_init_schema.up.sql, and actions on them. An
--     action is a function of a session (tables, cache, effects, step counter) to a result and a
--     session.
--   Repository: internal/repository, one module per file; Repository/Page is the keyset pagination that
--     ListByAccount of ledger.go and of sms.go share.
--   Cache: internal/idempotency/cache.go. Operator: internal/operator; Operator/Mock is
--     mock_server.go.
--   Service: internal/service/account.go and sms.go, and EnsureBalance of internal/seed/seed.go.
--   Accounting: the balances against the ledger, over whole histories of requests.
--   Config: internal/config/config.go. Commands: the commands of cmd, what they build from their
--     configuration and when they exit; Commands/Seed is cmd/seed/main.go with internal/seed/accounts.go.
--   Relay: internal/outbox/relay.go over Repository/OutboxRelay; its loop of attempts is a recursion on
--     the number of attempts left, which begins at the source's 5, and its loop of polls goes by what its
--     select receives. Relay/Lifecycle is its Start, Stop and Wait, and Relay/Gauge is
--     internal/observability/outbox_metrics.go.
--   Middleware: internal/middleware/idempotency.go and internal/idempotency/lookup.go; Middleware/Gates is
--     auth.go and ratelimit.go.
--   RateLimit: internal/ratelimit/limiter.go, over the sorted set of one account.
--   Handler: internal/handler/account.go, sms.go and health.go. Api: the routes under /v1 of cmd/api/main.go.
--   Broker: Publish and Consume of internal/broker/rabbitmq.go, over one channel; Broker/Connection is
--     Connect and Close.
--   Worker: internal/worker; Processor is handleDelivery of processor.go, Consumer its RunConsumer and Wait,
--     Retry is retry.go and Bulkhead is bulkhead.go.
--   Tests: the theorems at concrete inputs.
--
-- The environment. PostgreSQL, gorm, Redis, RabbitMQ, the HTTP client, the circuit breaker and the
-- uuid package are outside. The record Env gives what they answer, by the number of the step: each
-- statement, commit or call is done, is refused without effect, or takes effect with its
-- acknowledgement lost. Every environment is allowed, so that a theorem holds under any failures.
-- A SQL statement is a function of the rows, with the constraints of the schema that the code relies
-- on: primary and unique keys, references, and balance >= 0; the limits of a column's width are among
-- the refusals. Transactions are taken one after the other, as their row locks make them; a
-- transaction whose function returns an error restores the tables.
--
-- Numbers. A UUID is a number, a time is a number, int64 is an integer with the wrap-around of
-- `int64`. Text that the code counts or searches is the list of its code points. A snapshot is the
-- members of a JSON object, or unreadable; the JSON of a payload is the value that it encodes. An error is the sentinel that it wraps. The loops over
-- rows, text and headers are structural recursion here. The loops of the relay and of its gauge, which
-- end when their process does, go by the list of what their select receives. The only fuel is the
-- number of requests of a client that follows cursors, for which one more than there are rows is
-- enough.
--
-- Not modelled: the SHA-256 of a token, which is a parameter, as are what gin decodes of a request
-- and the rounding of float64; pipelines of the rate limiter that run into one another; replicas
-- that lag; what viper reads and decodes, which is a parameter; a channel that the broker closes; the
-- HTTP servers; what the mains do between their signal and their end, but for Stop and the waits; logs, metrics and traces, but for the gauge of the
-- outbox; generated and static pages.
pub mod Accounting
pub mod Api
pub mod Broker
pub mod Cache
pub mod Commands
pub mod Config
pub mod Database
pub mod Domain
pub mod Handler
pub mod Middleware
pub mod Operator
pub mod Prelude
pub mod RateLimit
pub mod Relay
pub mod Repository
pub mod Service
pub mod Tests
pub mod Worker
