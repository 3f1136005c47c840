-- ===== src/Worker/Bulkhead/Laws.antt =====
-- The states that internal/worker/bulkhead.go reaches.
use arvan.Prelude.{◌≤◌, ◌<◌, not, some, ◌≡◌, refl, ◌∙◌, arith}
use arvan.Prelude.Int.{ℤ}
use arvan.Domain.{Queue}
use arvan.Worker.Bulkhead.{Bulkhead, is_express, sem, new_bulkhead, acquire, release}

-- No class is over its capacity, and each has one.
pub record IsWithin (b : Bulkhead) : Type 0 where
  pub express : b.express.taken ≤ b.express.capacity
  pub standard : b.standard.taken ≤ b.standard.capacity
  pub express_positive : 0 < b.express.capacity
  pub standard_positive : 0 < b.standard.capacity

-- One goroutine takes a slot, or gives one back.
pub data Steps (from : Bulkhead) : Bulkhead → Type 0 where
  here : Steps from from
  acquired :
      {b c : Bulkhead} (queue : Queue) → Steps from b → acquire queue b ≡ some c → Steps from c
  released : {b : Bulkhead} (queue : Queue) → Steps from b → Steps from (release queue b)

acquire-IsWithin :
    (queue : Queue) (b c : Bulkhead) → IsWithin b → acquire queue b ≡ some c → IsWithin c
unfolding acquire
acquire-IsWithin queue b c h e = record {
  express = grind (arith, e);
  standard = grind (arith, e);
  express_positive = grind (arith, e);
  standard_positive = grind (arith, e);
}

release-IsWithin : (queue : Queue) (b : Bulkhead) → IsWithin b → IsWithin (release queue b)
unfolding release
release-IsWithin queue b h = record {
  express = grind arith;
  standard = grind arith;
  express_positive = grind arith;
  standard_positive = grind arith;
}

new-IsWithin : (express_size standard_size : ℤ) → IsWithin (new_bulkhead express_size standard_size)
unfolding new_bulkhead
new-IsWithin e s = record {
  express = ground arith;
  standard = ground arith;
  express_positive = ground arith;
  standard_positive = ground arith;
}

-- In every state that a bulkhead of any two sizes reaches by acquiring and releasing, each class has
-- at least one slot and no more slots are taken than it has.
pub reachable-IsWithin :
    (express_size standard_size : ℤ) (b : Bulkhead)
    → Steps (new_bulkhead express_size standard_size) b
    → IsWithin b
reachable-IsWithin e s b here = new-IsWithin e s
reachable-IsWithin e s c (acquired {b = b} queue before taken) =
    acquire-IsWithin queue b c (reachable-IsWithin e s b before) taken
reachable-IsWithin e s c (released {b = b} queue before) =
    release-IsWithin queue b (reachable-IsWithin e s b before)

acquire-capacity :
    (queue : Queue) (b c : Bulkhead)
    → acquire queue b ≡ some c
    → (c.express.capacity ≡ b.express.capacity) × (c.standard.capacity ≡ b.standard.capacity)
unfolding acquire
acquire-capacity queue b c e = (grind (arith, e), grind (arith, e))

release-capacity :
    (queue : Queue) (b : Bulkhead)
    → ((release queue b).express.capacity ≡ b.express.capacity)
      × ((release queue b).standard.capacity ≡ b.standard.capacity)
unfolding release
release-capacity queue b = (grind arith, grind arith)

-- The capacities never change.
pub Steps-capacity :
    {from b : Bulkhead}
    → Steps from b
    → (b.express.capacity ≡ from.express.capacity) × (b.standard.capacity ≡ from.standard.capacity)
Steps-capacity here = (refl, refl)
Steps-capacity (acquired {b = b} {c = c} queue before taken) =
    let (e, s) = Steps-capacity before in
    let (e', s') = acquire-capacity queue b c taken in (e' ∙ e, s' ∙ s)
Steps-capacity (released {b = b} queue before) =
    let (e, s) = Steps-capacity before in
    let (e', s') = release-capacity queue b in (e' ∙ e, s' ∙ s)

-- A release for the queue that has just acquired gives the bulkhead back as it was before.
pub release-acquire :
    (queue : Queue) (b c : Bulkhead) → acquire queue b ≡ some c → release queue c ≡ b
unfolding acquire release
release-acquire queue b c e = grind (arith, e)

-- An acquisition for a queue leaves the semaphore of the other class as it was.
pub acquire-other :
    (queue other : Queue) (b c : Bulkhead)
    → is_express other ≡ not (is_express queue)
    → acquire queue b ≡ some c
    → sem other c ≡ sem other b
unfolding acquire
acquire-other queue other b c h e = grind (arith, h, e)
