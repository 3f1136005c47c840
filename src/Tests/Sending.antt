-- ===== src/Tests/Sending.antt =====
-- A send where every statement is done.
use arvan.Prelude.{◌≡◌, refl, arith}
use arvan.Domain.{gsm7, ok}
use arvan.Domain.Validation.{
  validate_e164, validate_single_page_body, gsm7_allowed, detect_encoding, max_length_for_encoding,
}
use arvan.Database.Success.{Succeeds}
use arvan.Service.Sms
use arvan.Service.Sms.{accepted_result, validate_send_input}
use arvan.Service.Sms.Success.{IsUnclaimed}
use arvan.Service.Sms.Liveness.{send-Succeeds}
use arvan.Tests.{env, input, account, fresh_session}

input_is_valid : validate_send_input input ≡ ok gsm7
unfolding validate_send_input Sms.blank Sms.known_type validate_e164 validate_single_page_body
    gsm7_allowed detect_encoding max_length_for_encoding
input_is_valid = refl

unclaimed : IsUnclaimed 7 (Sms.active_key input.idempotency_key) fresh_session.tables
unfolding Sms.active_key
unclaimed = refl

send-Succeeds_example :
    Succeeds (λ r _. r ≡ accepted_result 100) (Sms.send env 7 input fresh_session)
send-Succeeds_example =
    send-Succeeds env 7 input gsm7 account fresh_session (λ n. refl) input_is_valid refl
      (omega arith) (omega arith, omega arith)
      (record { ledger = λ n. refl; messages = λ n. refl; events = λ n. refl; keys = λ n. refl })
      unclaimed
