-- ===== src/Worker/Consumer/InFlight.antt =====
-- How many deliveries are handled at once.
use arvan.Prelude.{sym, ◌∙◌, ℕ, suc, ◌+◌, ◌≤◌, some, List, ◌∷◌, ◌++◌, ◌≡◌, refl, arith}
use arvan.Prelude.Int.{ℤ}
use arvan.Prelude.Lists.{length, count, count-append, length-append}
use arvan.Domain.{Queue}
use arvan.Worker.Bulkhead.{Bulkhead, new_bulkhead, acquire, release}
use arvan.Worker.Bulkhead.Laws as Bulkheads
use arvan.Worker.Consumer.{
  Goroutine, Workers, new_processor, waiting, working, spawn, enter, give_up, finish, Steps, here,
  receives, enters, gives_up, finishes, handles_express, handles_standard,
}

-- The slots of each class are those of the goroutines that handle a delivery of the class, and inFlight
-- counts the goroutines.
pub record Accounted (w : Workers) : Type 0 where
  pub express : count handles_express w.goroutines ≡ w.bulkhead.express.taken
  pub standard : count handles_standard w.goroutines ≡ w.bulkhead.standard.taken
  pub in_flight : w.in_flight ≡ length w.goroutines

-- The counts, with one goroutine apart.
Accounted-apart :
    (w : Workers) (before after : List Goroutine) (g : Goroutine)
    → Accounted w
    → w.goroutines ≡ before ++ g ∷ after
    → (count handles_express before + count handles_express (g ∷ after) ≡ w.bulkhead.express.taken)
      × (count handles_standard before + count handles_standard (g ∷ after)
          ≡ w.bulkhead.standard.taken)
      × (w.in_flight ≡ length before + suc (length after))
Accounted-apart w before after g h at = (
  sym (count-append handles_express before (g ∷ after)) ∙ (rw at at h.express),
  sym (count-append handles_standard before (g ∷ after)) ∙ (rw at at h.standard),
  (rw at at h.in_flight) ∙ length-append before (g ∷ after),
)

enter-Accounted :
    (w : Workers) (queue : Queue) (delivery : ℕ) (before after : List Goroutine) (b : Bulkhead)
    → Accounted w
    → w.goroutines ≡ before ++ waiting queue delivery ∷ after
    → acquire queue w.bulkhead ≡ some b
    → Accounted (enter queue delivery before after b w)
unfolding enter acquire
enter-Accounted w queue delivery before after b h at taken =
    let (express, standard, in_flight) =
      Accounted-apart w before after (waiting queue delivery) h at in
    record {
      express =
          rw (count-append handles_express before (working queue delivery ∷ after))
            (grind (arith, taken, express));
      standard =
          rw (count-append handles_standard before (working queue delivery ∷ after))
            (grind (arith, taken, standard));
      in_flight =
          rw (length-append before (working queue delivery ∷ after)) (omega (arith, in_flight));
    }

give_up-Accounted :
    (w : Workers) (queue : Queue) (delivery : ℕ) (before after : List Goroutine)
    → Accounted w
    → w.goroutines ≡ before ++ waiting queue delivery ∷ after
    → Accounted (give_up delivery before after w)
unfolding give_up
give_up-Accounted w queue delivery before after h at =
    let (express, standard, in_flight) =
      Accounted-apart w before after (waiting queue delivery) h at in
    record {
      express = rw (count-append handles_express before after) express;
      standard = rw (count-append handles_standard before after) standard;
      in_flight = rw (length-append before after) (omega (arith, in_flight));
    }

finish-Accounted :
    (w : Workers) (queue : Queue) (delivery : ℕ) (before after : List Goroutine)
    → Accounted w
    → w.goroutines ≡ before ++ working queue delivery ∷ after
    → Accounted (finish queue delivery before after w)
unfolding finish release
finish-Accounted w queue delivery before after h at =
    let (express, standard, in_flight) =
      Accounted-apart w before after (working queue delivery) h at in
    record {
      express = rw (count-append handles_express before after) (grind (arith, express));
      standard = rw (count-append handles_standard before after) (grind (arith, standard));
      in_flight = rw (length-append before after) (omega (arith, in_flight));
    }

bulkhead-Steps : (from w : Workers) → Steps from w → Bulkheads.Steps from.bulkhead w.bulkhead
unfolding spawn enter give_up finish
bulkhead-Steps from w here = Bulkheads.here
bulkhead-Steps from w (receives {w = v} queue delivery earlier) = bulkhead-Steps from v earlier
bulkhead-Steps from w (enters {w = v} queue delivery before after b earlier at taken) =
    Bulkheads.acquired queue (bulkhead-Steps from v earlier) taken
bulkhead-Steps from w (gives_up {w = v} queue delivery before after earlier at) =
    bulkhead-Steps from v earlier
bulkhead-Steps from w (finishes {w = v} queue delivery before after earlier at) =
    Bulkheads.released queue (bulkhead-Steps from v earlier)

new-Accounted :
    (express_size standard_size : ℤ) → Accounted (new_processor express_size standard_size)
unfolding new_processor new_bulkhead
new-Accounted e s = record { express = refl; standard = refl; in_flight = refl }

pub reachable-Accounted :
    (express_size standard_size : ℤ) (w : Workers)
    → Steps (new_processor express_size standard_size) w
    → Accounted w
unfolding spawn
reachable-Accounted e s w here = new-Accounted e s
reachable-Accounted e s w (receives {w = v} queue delivery earlier) =
    let h = reachable-Accounted e s v earlier in
    record { express = h.express; standard = h.standard; in_flight = omega (arith, h.in_flight) }
reachable-Accounted e s w (enters {w = v} queue delivery before after b earlier at taken) =
    enter-Accounted v queue delivery before after b (reachable-Accounted e s v earlier) at taken
reachable-Accounted e s w (gives_up {w = v} queue delivery before after earlier at) =
    give_up-Accounted v queue delivery before after (reachable-Accounted e s v earlier) at
reachable-Accounted e s w (finishes {w = v} queue delivery before after earlier at) =
    finish-Accounted v queue delivery before after (reachable-Accounted e s v earlier) at

-- However the loops of the queues and their goroutines take turns: no more deliveries of a class are in
-- handleDelivery than the pool of the class has slots, and inFlight is the number of goroutines.
pub reachable-bound :
    (express_size standard_size : ℤ) (w : Workers)
    → Steps (new_processor express_size standard_size) w
    → (count handles_express w.goroutines
        ≤ (new_bulkhead express_size standard_size).express.capacity)
      × (count handles_standard w.goroutines
          ≤ (new_bulkhead express_size standard_size).standard.capacity)
      × (w.in_flight ≡ length w.goroutines)
unfolding new_processor
reachable-bound e s w steps =
    let h = reachable-Accounted e s w steps in
    let taken = bulkhead-Steps (new_processor e s) w steps in
    let within = Bulkheads.reachable-IsWithin e s w.bulkhead taken in
    let (express, standard) = Bulkheads.Steps-capacity taken in
    (
      omega (arith, h.express, within.express, express),
      omega (arith, h.standard, within.standard, standard),
      h.in_flight,
    )
