-- ===== src/Operator.antt =====
-- internal/operator: the HTTP client of the operator behind its circuit breaker. The breaker and the
-- network are libraries and servers outside the repository: what they answer is the environment's.
pub mod Mock
pub mod Laws
use arvan.Prelude.{
  ℕ, suc, String, Bool, true, false, Option, none, some, List, [], ◌∷◌, leb, if◌then◌else◌,
}
use arvan.Domain.{SendRequest, Error, permanent, circuit_open, internal, Result, ok, err}
use arvan.Database.{
  HttpReply, no_reply, unreadable_body, replied, Breaker, admits, open_state, too_many_requests,
  Effect, called_operator, Env, Session, Exec, ◌>>=◌, ◌>>◌, emit, pure, raise,
}

pub record SendResult : Type 0 where
  pub operator_ref : String

unfoldable pub is_permanent : Error → Bool
is_permanent permanent = true
is_permanent _ = false

-- The result that a reply stands for.
unfoldable pub classify : HttpReply → Result SendResult
classify no_reply = err internal
classify unreadable_body = err internal
classify (replied status body) =
    if leb 500 status
    then err internal
    else if leb 400 status
    then err permanent
    else elim body [ none ↦ err internal | some ref ↦ ok (record { operator_ref = ref }) ]

module _ (env : Env) where
  -- HTTPClient.Send
  unfoldable pub http_send : SendRequest → Exec SendResult
  unfolding classify
  http_send req s = (
    classify (env.http_reply s.step),
    record s { effects = called_operator req ∷ s.effects; step = suc s.step },
  )

  guarded_send : Breaker → SendRequest → Exec SendResult
  guarded_send admits req = http_send req
  guarded_send open_state req = raise circuit_open
  guarded_send too_many_requests req = raise circuit_open

  -- CircuitBreakerClient.Send
  unfoldable pub send : SendRequest → Exec SendResult
  unfolding guarded_send http_send
  send req s = guarded_send (env.breaker s.step) req (record s { step = suc s.step })
