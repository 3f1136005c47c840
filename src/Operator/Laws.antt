-- ===== src/Operator/Laws.antt =====
-- internal/operator against the tables and the effects.
use arvan.Prelude.{suc, ◌≡◌, refl, ◌≤◌, arith}
use arvan.Domain.{SendRequest}
use arvan.Database.{Breaker, admits, open_state, too_many_requests, Env, Session}
use arvan.Database.Silent.{operator_calls}
use arvan.Operator.{guarded_send, http_send, send}

module _ (env : Env) (req : SendRequest) where
  guarded_send-tables : (b : Breaker) (s : Session) → (guarded_send env b req s).1.tables ≡ s.tables
  unfolding guarded_send http_send
  guarded_send-tables admits s = refl
  guarded_send-tables open_state s = refl
  guarded_send-tables too_many_requests s = refl

  pub send-tables : (s : Session) → (send env req s).1.tables ≡ s.tables
  unfolding send
  send-tables s = guarded_send-tables (env.breaker s.step) _

  guarded_send-calls :
      (b : Breaker) (s : Session)
      → operator_calls (guarded_send env b req s).1.effects ≤ suc (operator_calls s.effects)
  unfolding guarded_send http_send operator_calls
  guarded_send-calls admits s = omega arith
  guarded_send-calls open_state s = omega arith
  guarded_send-calls too_many_requests s = omega arith

  pub send-calls :
      (s : Session) → operator_calls (send env req s).1.effects ≤ suc (operator_calls s.effects)
  unfolding send
  send-calls s = guarded_send-calls (env.breaker s.step) _
