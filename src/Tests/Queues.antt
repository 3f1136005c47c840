-- ===== src/Tests/Queues.antt =====
-- The channel and the consumer at concrete inputs.
use arvan.Prelude.{◌≤◌, ◌≡◌, refl, true, false, none, some, List, [], ◌∷◌, Option}
use arvan.Prelude.Int.{pos}
use arvan.Prelude.Lists.{length, count}
use arvan.Domain.{express_queue}
use arvan.Broker.{
  RabbitMq, Event, call, confirmation, receipt, cancellation, Returned, connect, begin, receive,
  abandon, step, run,
}
use arvan.Broker.Confirmed.{AllOwn, Leaves, run-own}
use arvan.Worker.Bulkhead.{Bulkhead, new_bulkhead, acquire}
use arvan.Worker.Consumer.{
  Workers, new_processor, spawn, enter, Steps, here, receives, enters, handles_express,
  handles_standard,
}
use arvan.Worker.Consumer.Shutdown.{fates, reachable-settles}
use arvan.Worker.Consumer.InFlight.{reachable-bound}

abbrev two_messages : List Event
two_messages =
    call false true
    ∷ confirmation true
    ∷ receipt
    ∷ call false true
    ∷ confirmation false
    ∷ receipt
    ∷ []

run-own_example : Leaves (λ b. AllOwn b.returns) (run two_messages connect)
run-own_example = run-own two_messages tt

abbrev returned : Option RabbitMq → List Returned
returned none = []
returned (some b) = b.returns

-- The first call is cancelled while it waits, and the second reads the confirmation of the first: it
-- returns nil for a message that the broker refuses.
stale_confirmation :
    returned (
      run
        (call false true
          ∷ cancellation
          ∷ call false true
          ∷ confirmation true
          ∷ receipt
          ∷ confirmation false
          ∷ [])
        connect)
    ≡ record { message = some 2; read = some (record { tag = 1; ack = true }); is_nil = true }
      ∷ record { message = some 1; read = none; is_nil = false }
      ∷ []
unfolding connect step begin receive abandon
stale_confirmation = refl

abbrev received : Workers
received = spawn express_queue 1 (new_processor (pos 1) (pos 2))

abbrev one_taken : Bulkhead
one_taken = record {
  express = record { taken = 1; capacity = 1 };
  standard = record { taken = 0; capacity = 2 };
}

busy : Steps (new_processor (pos 1) (pos 2)) (enter express_queue 1 [] [] one_taken received)
unfolding spawn new_processor new_bulkhead acquire
busy = enters express_queue 1 [] [] one_taken (receives express_queue 1 here) refl refl

reachable-bound_example :
    (count handles_express (enter express_queue 1 [] [] one_taken received).goroutines
      ≤ (new_bulkhead (pos 1) (pos 2)).express.capacity)
    × (count handles_standard (enter express_queue 1 [] [] one_taken received).goroutines
        ≤ (new_bulkhead (pos 1) (pos 2)).standard.capacity)
    × ((enter express_queue 1 [] [] one_taken received).in_flight
        ≡ length (enter express_queue 1 [] [] one_taken received).goroutines)
reachable-bound_example =
    reachable-bound (pos 1) (pos 2) (enter express_queue 1 [] [] one_taken received) busy

abbrev held : Workers
held = enter express_queue 1 [] [] one_taken received

reachable-settles_example :
    (u : Workers) × Steps held u
    × (u.goroutines ≡ [])
    × (u.in_flight ≡ 0)
    × (u.bulkhead.express.taken ≡ 0)
    × (u.bulkhead.standard.taken ≡ 0)
    × (u.settled ≡ fates held.goroutines held.settled)
reachable-settles_example = reachable-settles (pos 1) (pos 2) held busy
