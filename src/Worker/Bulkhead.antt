-- ===== src/Worker/Bulkhead.antt =====
-- internal/worker/bulkhead.go: one semaphore for each class of queue. A channel that carries empty
-- structs is the number of its slots that are taken, with its capacity.
pub mod Laws
use arvan.Prelude.{ℕ, suc, ◌-◌, Bool, true, false, Option, none, some, ltb, if◌then◌else◌}
use arvan.Prelude.Int.{ℤ, pos, pos_part, leb_ℤ}
use arvan.Domain.{Queue, express_queue}

pub record Semaphore : Type 0 where
  pub taken : ℕ
  pub capacity : ℕ

pub record Bulkhead : Type 0 where
  pub express : Semaphore
  pub standard : Semaphore

-- A size that is not positive is replaced.
abbrev size_or : ℤ → ℕ → ℕ
size_or size default = if leb_ℤ size (pos 0) then default else pos_part size

unfoldable pub new_bulkhead : ℤ → ℤ → Bulkhead
new_bulkhead express_size standard_size = record {
  express = record { taken = 0; capacity = size_or express_size 20 };
  standard = record { taken = 0; capacity = size_or standard_size 50 };
}

abbrev pub is_express : Queue → Bool
is_express express_queue = true
is_express _ = false

-- The semaphore that a queue goes by.
abbrev pub sem : Queue → Bulkhead → Semaphore
sem queue b = if is_express queue then b.express else b.standard

abbrev with_sem : Queue → Bulkhead → Semaphore → Bulkhead
with_sem queue b s =
    if is_express queue then record b { express = s } else record b { standard = s }

-- The send case of the select of Acquire: it is ready only where a slot is free, and `none` is a
-- goroutine that waits.
unfoldable pub acquire : Queue → Bulkhead → Option Bulkhead
acquire queue b =
    let s = sem queue b in
    if ltb s.taken s.capacity
    then some (with_sem queue b (record s { taken = suc s.taken }))
    else none

-- Release takes from the channel, or does nothing where it is empty.
unfoldable pub release : Queue → Bulkhead → Bulkhead
release queue b =
    let s = sem queue b in
    if ltb 0 s.taken then with_sem queue b (record s { taken = s.taken - 1 }) else b
