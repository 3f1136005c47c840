-- ===== src/Broker.antt =====
-- internal/broker/rabbitmq.go: publications on one channel in confirm mode, and what a consumer
-- asks for. The broker confirms the messages of a channel in the order of their tags, and the
-- library hands the confirmations on in that order.
pub mod Confirmed
pub mod Connection
use arvan.Prelude.{
  ℕ, suc, Bool, true, false, not, Option, none, some, List, [], ◌∷◌, ◌++◌, ltb, if◌then◌else◌,
}
use arvan.Prelude.Int.{ℤ, pos, pos_part, leb_ℤ}
use arvan.Domain.{PayloadBytes, Queue, dead_letter_queue}

pub record Confirmation : Type 0 where
  pub tag : ℕ
  pub ack : Bool

-- What a call of Publish returned: the tag of its message, none where it was not sent; the
-- confirmation that it read; and whether the error is nil.
pub record Returned : Type 0 where
  pub message : Option ℕ
  pub read : Option Confirmation
  pub is_nil : Bool

-- The mutex is free, or a call waits for its confirmation.
pub data Phase : Type 0 where
  free : Phase
  awaiting : ℕ → Phase

-- The channel: how many messages it has sent, how many of them are confirmed, the confirmations that
-- nobody has read, the call that holds the mutex, and what the calls returned, the last first.
pub record RabbitMq : Type 0 where
  pub published : ℕ
  pub confirmed : ℕ
  pub confirms : List Confirmation
  pub phase : Phase
  pub returns : List Returned

-- Connect, behind the declaration of the queues.
unfoldable pub connect : RabbitMq
connect = record { published = 0; confirmed = 0; confirms = []; phase = free; returns = [] }

-- What happens next: a call of Publish, whose context is over or not, and whose PublishWithContext
-- fails or not; the broker's confirmation of the next message; the receipt of a confirmation by the
-- call that waits; and the end of the context of that call.
pub data Event : Type 0 where
  call : Bool → Bool → Event
  confirmation : Bool → Event
  receipt : Event
  cancellation : Event

-- The first select, and PublishWithContext.
unfoldable pub begin : Bool → Bool → RabbitMq → RabbitMq
begin true sends b = record b {
  returns = record { message = none; read = none; is_nil = false } ∷ b.returns;
}
begin false false b = record b {
  returns = record { message = none; read = none; is_nil = false } ∷ b.returns;
}
begin false true b = record b { published = suc b.published; phase = awaiting (suc b.published) }

-- The second select, at a confirmation.
unfoldable pub receive : ℕ → List Confirmation → RabbitMq → Option RabbitMq
receive tag [] b = none
receive tag (c ∷ cs) b = some (record b {
  confirms = cs;
  phase = free;
  returns = record { message = some tag; read = some c; is_nil = c.ack } ∷ b.returns;
})

-- The second select, at the end of the context.
unfoldable pub abandon : ℕ → RabbitMq → RabbitMq
abandon tag b = record b {
  phase = free;
  returns = record { message = some tag; read = none; is_nil = false } ∷ b.returns;
}

-- The confirmation of the next message.
abbrev pub confirm : Bool → RabbitMq → RabbitMq
confirm ack b = record b {
  confirmed = suc b.confirmed;
  confirms = b.confirms ++ record { tag = suc b.confirmed; ack = ack } ∷ [];
}

-- One event, where it can happen: Publish holds the mutex until it returns.
unfoldable pub step : Event → Phase → RabbitMq → Option RabbitMq
unfolding begin receive abandon
step (call over sends) free b = some (begin over sends b)
step (call over sends) (awaiting tag) b = none
step (confirmation ack) phase b = if ltb b.confirmed b.published then some (confirm ack b) else none
step receipt free b = none
step receipt (awaiting tag) b = receive tag b.confirms b
step cancellation free b = none
step cancellation (awaiting tag) b = some (abandon tag b)

abbrev pub then_run : (RabbitMq → Option RabbitMq) → Option RabbitMq → Option RabbitMq
then_run rest none = none
then_run rest (some b) = rest b

-- The events in their order.
abbrev pub run : List Event → RabbitMq → Option RabbitMq
run [] b = some b
run (e ∷ es) b = then_run (run es) (step e b.phase b)

-- Consume: the prefetch that is asked for.
unfoldable pub prefetch_count : ℤ → ℕ
prefetch_count prefetch = if leb_ℤ prefetch (pos 0) then 10 else pos_part prefetch
