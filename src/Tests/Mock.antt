-- ===== src/Tests/Mock.antt =====
-- The double of the operator at concrete inputs.
use arvan.Prelude.{ℕ, suc, zero, false, true, String, none, some, List, [], ◌∷◌, ◌≡◌, refl, arith}
use arvan.Prelude.Int.{pos, int64, ◌+ℤ◌, ◌-ℤ◌}
use arvan.Domain.{SendRequest}
use arvan.Operator.Mock.{
  SentMessage, Draw, accepted_with, should_fail, simulated_latency, drawn_latency, send_unsent,
  handle_send, handle_all,
}
use arvan.Operator.Mock.Again.{handle_send-again}
use arvan.Operator.Mock.Latency.{Delays, simulated_latency-Delays}

abbrev request : SendRequest
request = record { message_id = "m"; account_id = "a"; to = []; body = [] }

abbrev other_request : SendRequest
other_request = record { message_id = "n"; account_id = "a"; to = []; body = [] }

abbrev drawing : String → Draw
drawing ref = record {
  new_ref = ref;
  never_fails = true;
  always_fails = false;
  is_below_rate = false;
}

abbrev held : List SentMessage
held = record { message_id = "m"; operator_ref = "r" } ∷ []

accepts : handle_send (drawing "r") (some request) [] ≡ (accepted_with "r", held)
unfolding handle_send send_unsent should_fail
accepts = refl

handle_send-again_example :
    handle_send
      (drawing "s")
      (some request)
      (handle_all ((drawing "t", some other_request) ∷ []) held)
    ≡ (accepted_with "r", handle_all ((drawing "t", some other_request) ∷ []) held)
handle_send-again_example =
    handle_send-again (drawing "r") (drawing "s") request request [] held "r"
      ((drawing "t", some other_request) ∷ []) accepts refl

abbrev largest : ℕ → ℕ
largest zero = zero
largest (suc n) = n

simulated_latency-Delays_example :
    Delays (pos 10) (pos 50) (simulated_latency largest (pos 10) (pos 50))
simulated_latency-Delays_example =
    simulated_latency-Delays largest (pos 10) (pos 50) (λ n. omega arith) (omega arith, omega arith)
      (omega arith, omega arith)

-- With the widest bounds Int63n is asked for a number below a negative one.
too_wide : simulated_latency largest (pos 0) (pos 9223372036854775807) ≡ none
unfolding simulated_latency drawn_latency int64 ◌+ℤ◌ ◌-ℤ◌
too_wide = refl
