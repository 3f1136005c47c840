-- ===== src/Domain.antt =====
-- internal/domain: the values that the services, the repositories and the worker exchange.
-- A UUID is the 128-bit number that it stands for (the code compares UUIDs and prints them), a time
-- is a number of nanoseconds, and text that the code walks by runes is the list of its runes.
mod Errors
mod Types
pub mod Validation
pub mod Idempotency
pub use Errors.*
pub use Types.*
