-- ===== src/Handler/Health.antt =====
-- internal/handler/health.go. A ping of a database is done or fails.
use arvan.Prelude.{ℕ, String, Bool, true, false, Option, none, some}

-- The status and the text of a reply.
pub record HealthReply : Type 0 where
  pub code : ℕ
  pub status : String

-- Whether SELECT 1 is answered by the primary and by the replica.
pub record Pings : Type 0 where
  pub primary : Bool
  pub replica : Bool

unfoldable pub live : HealthReply
live = record { code = 200; status = "ok" }

unfoldable pub ready_pinged : Bool → Bool → HealthReply
ready_pinged false replica = record { code = 503; status = "database primary unavailable" }
ready_pinged true false = record { code = 503; status = "database replica unavailable" }
ready_pinged true true = record { code = 200; status = "ready" }

-- Ready, by the database of the handler, which may be nil.
unfoldable pub ready : Option Pings → HealthReply
unfolding ready_pinged
ready none = record { code = 503; status = "database unavailable" }
ready (some pings) = ready_pinged pings.primary pings.replica
