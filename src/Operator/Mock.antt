-- ===== src/Operator/Mock.antt =====
-- internal/operator/mock_server.go: the double of the operator, for requests one after the other.
pub mod Again
pub mod Latency
use arvan.Prelude.{
  ℕ, suc, String, Bool, true, false, Option, none, some, List, [], ◌∷◌, str_eq, if◌then◌else◌,
}
use arvan.Prelude.Int.{ℤ, pos, negsuc, leb_ℤ, ltb_ℤ, ◌+ℤ◌, ◌-ℤ◌, int64}
use arvan.Prelude.Lists.{find}
use arvan.Domain.{SendRequest}

-- An entry of the sync.Map: a message and its reference.
pub record SentMessage : Type 0 where
  pub message_id : String
  pub operator_ref : String

abbrev pub by_message_id : String → SentMessage → Bool
by_message_id message_id m = str_eq m.message_id message_id

-- What the server finds for one request: the reference that uuid.NewString draws, and how its rate of
-- failures compares with 0, with 100, and with a number that is drawn.
pub record Draw : Type 0 where
  pub new_ref : String
  pub never_fails : Bool
  pub always_fails : Bool
  pub is_below_rate : Bool

-- The statuses 400, 503 and 200.
pub data MockReply : Type 0 where
  invalid : MockReply
  failed : MockReply
  accepted_with : String → MockReply

unfoldable pub should_fail : Draw → Bool
should_fail draw =
    if draw.never_fails then false else if draw.always_fails then true else draw.is_below_rate

-- rng.Int63n, which panics where its argument is not positive, and the sum behind it.
unfoldable pub drawn_latency : (ℕ → ℕ) → ℤ → ℤ → Option ℤ
drawn_latency int63n min (pos (suc n)) = some (int64 (min +ℤ pos (int63n (suc n))))
drawn_latency int63n min _ = none

-- The time that a request takes, in int64 nanoseconds, or none where Int63n panics.
unfoldable pub simulated_latency : (ℕ → ℕ) → ℤ → ℤ → Option ℤ
unfolding drawn_latency
simulated_latency int63n min max =
    if leb_ℤ max min
    then some min
    else drawn_latency int63n min (int64 (int64 (max -ℤ min) +ℤ pos 1))

unfoldable pub send_unsent : Draw → SendRequest → List SentMessage → MockReply × List SentMessage
unfolding should_fail
send_unsent draw req sent = if should_fail draw then (failed, sent) else (
  accepted_with draw.new_ref,
  record { message_id = req.message_id; operator_ref = draw.new_ref } ∷ sent,
)

abbrev pub send_found :
    Draw → SendRequest → List SentMessage → Option SentMessage → MockReply × List SentMessage
send_found draw req sent (some m) = (accepted_with m.operator_ref, sent)
send_found draw req sent none = send_unsent draw req sent

-- handleSend, by the body, none where ShouldBindJSON fails.
unfoldable pub handle_send :
    Draw → Option SendRequest → List SentMessage → MockReply × List SentMessage
unfolding send_unsent
handle_send draw none sent = (invalid, sent)
handle_send draw (some req) sent =
    send_found draw req sent (find (by_message_id req.message_id) sent)

-- What the server holds after some requests.
abbrev pub handle_all : List (Draw × Option SendRequest) → List SentMessage → List SentMessage
handle_all [] sent = sent
handle_all ((draw, body) ∷ rest) sent = handle_all rest (handle_send draw body sent).1
