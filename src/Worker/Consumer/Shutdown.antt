-- ===== src/Worker/Consumer/Shutdown.antt =====
-- Wait of internal/worker/processor.go behind the end of the context, as main of cmd/worker/main.go calls
-- it: what the goroutines that are left come to.
use arvan.Prelude.{◌∙◌, ap, sym, List, [], ◌∷◌, Bool-cases, inl, inr, ◌≡◌, refl, if◌then◌else◌}
use arvan.Prelude.Int.{ℤ}
use arvan.Prelude.Lists.{length, count}
use arvan.Worker.Consumer.{
  Goroutine, Settled, handled, put_back, Workers, new_processor, give_up, finish, Steps, here,
  receives, enters, gives_up, finishes, handles_express, handles_standard,
}
use arvan.Worker.Consumer.InFlight.{reachable-Accounted}

Steps-trans : {u v w : Workers} → Steps u v → Steps v w → Steps u w
Steps-trans first here = first
Steps-trans first (receives queue delivery rest) = receives queue delivery (Steps-trans first rest)
Steps-trans first (enters queue delivery before after b rest at taken) =
    enters queue delivery before after b (Steps-trans first rest) at taken
Steps-trans first (gives_up queue delivery before after rest at) =
    gives_up queue delivery before after (Steps-trans first rest) at
Steps-trans first (finishes queue delivery before after rest at) =
    finishes queue delivery before after (Steps-trans first rest) at

-- A delivery that is handled ends so, and one that waits for a slot is put back.
abbrev pub fate : Goroutine → Settled
fate g = if g.handling then handled g.delivery else put_back g.delivery

-- The fates of goroutines, the last first, before what was settled.
abbrev pub fates : List Goroutine → List Settled → List Settled
fates [] settled = settled
fates (g ∷ rest) settled = fates rest (fate g ∷ settled)

-- A run that goes on from `w`, and leaves the goroutines `rest` of it.
record Leaves (from w : Workers) (g : Goroutine) (rest : List Goroutine) : Type 0 where
  left : Workers
  steps : Steps from left
  goroutines : left.goroutines ≡ rest
  settled : left.settled ≡ fate g ∷ w.settled

first_settles :
    (from w : Workers) (g : Goroutine) (rest : List Goroutine)
    → Steps from w
    → w.goroutines ≡ g ∷ rest
    → Leaves from w g rest
unfolding give_up finish
first_settles from w g rest steps at = elim (Bool-cases g.handling) [
  | inl e ↦ record {
    left = finish g.queue g.delivery [] rest w;
    steps =
        finishes g.queue g.delivery [] rest steps
          (at ∙ ap (λ b. record g { handling = b } ∷ rest) e);
    goroutines = refl;
    settled = ap (λ b. (if b then handled g.delivery else put_back g.delivery) ∷ w.settled) (sym e);
  }
  | inr e ↦ record {
    left = give_up g.delivery [] rest w;
    steps =
        gives_up g.queue g.delivery [] rest steps
          (at ∙ ap (λ b. record g { handling = b } ∷ rest) e);
    goroutines = refl;
    settled = ap (λ b. (if b then handled g.delivery else put_back g.delivery) ∷ w.settled) (sym e);
  }
]

all_settle :
    (from w : Workers) (gs : List Goroutine)
    → Steps from w
    → w.goroutines ≡ gs
    → (u : Workers) × Steps from u × (u.goroutines ≡ []) × (u.settled ≡ fates gs w.settled)
all_settle from w [] steps at = (w, steps, at, refl)
all_settle from w (g ∷ rest) steps at =
    let one = first_settles from w g rest steps at in
    let (u, steps', gone, settled) = all_settle from one.left rest one.steps one.goroutines in
    (u, steps', gone, settled ∙ ap (fates rest) one.settled)

-- Wherever the workers are when the context ends, their goroutines can go on until none is left, so that
-- Wait returns: then inFlight is 0 and no slot is taken, each delivery that was being handled has been
-- handled, each that waited for a slot is back in its queue, and nothing else has been settled since.
pub reachable-settles :
    (express_size standard_size : ℤ) (w : Workers)
    → Steps (new_processor express_size standard_size) w
    → (u : Workers) × Steps w u
      × (u.goroutines ≡ [])
      × (u.in_flight ≡ 0)
      × (u.bulkhead.express.taken ≡ 0)
      × (u.bulkhead.standard.taken ≡ 0)
      × (u.settled ≡ fates w.goroutines w.settled)
reachable-settles express_size standard_size w reached =
    let (u, steps, gone, settled) = all_settle w w w.goroutines here refl in
    let h = reachable-Accounted express_size standard_size u (Steps-trans reached steps) in
    (
      u,
      steps,
      gone,
      h.in_flight ∙ ap (λ gs. length gs) gone,
      sym h.express ∙ ap (λ gs. count handles_express gs) gone,
      sym h.standard ∙ ap (λ gs. count handles_standard gs) gone,
      settled,
    )
