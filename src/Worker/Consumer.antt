-- ===== src/Worker/Consumer.antt =====
-- RunConsumer and Wait of internal/worker/processor.go: a goroutine for each delivery, behind the
-- bulkhead that all queues share.
pub mod InFlight
pub mod Shutdown
use arvan.Prelude.{ℕ, suc, ◌-◌, Bool, true, false, not, some, List, [], ◌∷◌, ◌++◌, ◌&&◌, ◌≡◌}
use arvan.Prelude.Int.{ℤ}
use arvan.Domain.{Queue}
use arvan.Worker.Bulkhead.{Bulkhead, is_express, new_bulkhead, acquire, release}

-- A goroutine waits for its slot, or is in handleDelivery.
pub record Goroutine : Type 0 where
  pub queue : Queue
  pub delivery : ℕ
  pub handling : Bool

-- How a delivery left its goroutine: by handleDelivery, or put back in the queue when the context ended
-- before a slot was free.
pub data Settled : Type 0 where
  handled : ℕ → Settled
  put_back : ℕ → Settled

-- The bulkhead, the counter of inFlight, the goroutines, and what became of the deliveries.
pub record Workers : Type 0 where
  pub bulkhead : Bulkhead
  pub in_flight : ℕ
  pub goroutines : List Goroutine
  pub settled : List Settled

-- NewProcessor, by the sizes of its pools.
unfoldable pub new_processor : ℤ → ℤ → Workers
new_processor express_size standard_size = record {
  bulkhead = new_bulkhead express_size standard_size;
  in_flight = 0;
  goroutines = [];
  settled = [];
}

abbrev pub waiting : Queue → ℕ → Goroutine
waiting queue delivery = record { queue = queue; delivery = delivery; handling = false }

abbrev pub working : Queue → ℕ → Goroutine
working queue delivery = record { queue = queue; delivery = delivery; handling = true }

-- A delivery arrives: inFlight.Add(1), and a goroutine.
unfoldable pub spawn : Queue → ℕ → Workers → Workers
spawn queue delivery w = record w {
  in_flight = suc w.in_flight;
  goroutines = waiting queue delivery ∷ w.goroutines;
}

-- A goroutine has its slot.
unfoldable pub enter : Queue → ℕ → List Goroutine → List Goroutine → Bulkhead → Workers → Workers
enter queue delivery before after b w = record w {
  bulkhead = b;
  goroutines = before ++ working queue delivery ∷ after;
}

-- The context ends first: Nack with requeue, and inFlight.Done().
unfoldable pub give_up : ℕ → List Goroutine → List Goroutine → Workers → Workers
give_up delivery before after w = record w {
  in_flight = w.in_flight - 1;
  goroutines = before ++ after;
  settled = put_back delivery ∷ w.settled;
}

-- handleDelivery returns: Release, and inFlight.Done().
unfoldable pub finish : Queue → ℕ → List Goroutine → List Goroutine → Workers → Workers
unfolding release
finish queue delivery before after w = record w {
  bulkhead = release queue w.bulkhead;
  in_flight = w.in_flight - 1;
  goroutines = before ++ after;
  settled = handled delivery ∷ w.settled;
}

-- One goroutine, or the loop of a queue, goes on.
pub data Steps (from : Workers) : Workers → Type 0 where
  here : Steps from from
  receives :
      {w : Workers} (queue : Queue) (delivery : ℕ)
      → Steps from w
      → Steps from (spawn queue delivery w)
  enters :
      {w : Workers} (queue : Queue) (delivery : ℕ) (before after : List Goroutine) (b : Bulkhead)
      → Steps from w
      → w.goroutines ≡ before ++ waiting queue delivery ∷ after
      → acquire queue w.bulkhead ≡ some b
      → Steps from (enter queue delivery before after b w)
  gives_up :
      {w : Workers} (queue : Queue) (delivery : ℕ) (before after : List Goroutine)
      → Steps from w
      → w.goroutines ≡ before ++ waiting queue delivery ∷ after
      → Steps from (give_up delivery before after w)
  finishes :
      {w : Workers} (queue : Queue) (delivery : ℕ) (before after : List Goroutine)
      → Steps from w
      → w.goroutines ≡ before ++ working queue delivery ∷ after
      → Steps from (finish queue delivery before after w)

-- Who is in handleDelivery, by the class of the queue.
abbrev pub handles_express : Goroutine → Bool
handles_express g = g.handling && is_express g.queue

abbrev pub handles_standard : Goroutine → Bool
handles_standard g = g.handling && not (is_express g.queue)
