-- ===== src/Tests/Draining.antt =====
-- A loop of the relay at a concrete input.
use arvan.Prelude.{◌≡◌, ◌≢◌, ◌⊎◌, ap, ◌+◌, refl, inl, inr, true, some, none, [], ◌∷◌, arith}
use arvan.Prelude.Int.{pos}
use arvan.Prelude.Lists.{count, length}
use arvan.Domain.{ok, encoded}
use arvan.Database.{Session, OutboxEventModel}
use arvan.Repository.Page.Order.{In}
use arvan.Relay.{loop, ticked, stopped}
use arvan.Relay.Lifecycle.{
  new_lifecycle, start, loop_returned, stop, step, starts, stops, returns, run,
}
use arvan.Relay.Drain.{polls, IsReady, loop_drains}
use arvan.Relay.Drain.Rows.{is_open}
use arvan.Relay.Drain.Progress.{IsSent}
use arvan.Tests.{env}
use arvan.Tests.Claiming.{two_events, later_row}
use arvan.Tests.Worker.{event_row, payload}

unlocked :
    (r : OutboxEventModel)
    → (r ≡ later_row) ⊎ ((r ≡ event_row) ⊎ ⊥)
    → (r.locked_until ≡ none) × (r.payload ≡ encoded payload)
unlocked r (inl is) = rw is (refl, refl)
unlocked r (inr (inl is)) = rw is (refl, refl)
unlocked r (inr (inr nowhere)) = absurd nowhere

apart : (a : OutboxEventModel) → (a ≡ event_row) ⊎ ⊥ → later_row.id ≢ a.id
apart a (inl is) e = let same : a.id ≡ 4 = ap (λ (m : OutboxEventModel). m.id) is in omega arith
apart a (inr nowhere) e = nowhere

two_events-IsReady : IsReady two_events.tables.outbox_events
two_events-IsReady = record {
  distinct = (apart, (λ a there. absurd there, tt));
  unlocked = λ r there is_one. (unlocked r there).0;
  readable = λ r there is_one. (payload, (unlocked r there).1);
}

two_polls : polls (ticked ∷ stopped ∷ []) ≡ 2
unfolding polls
two_polls = refl

loop_drains_example :
    (u : Session) × (loop env (pos 1) 30 (ticked ∷ stopped ∷ []) two_events ≡ (ok tt, u))
    × (count is_open u.tables.outbox_events ≡ 0)
    × ((r : OutboxEventModel)
        → In r two_events.tables.outbox_events
        → is_open r ≡ true
        → IsSent r.payload u.effects)
    × (length u.effects ≡ length two_events.effects + count is_open two_events.tables.outbox_events)
loop_drains_example =
    loop_drains env (pos 1) 30 (ticked ∷ stopped ∷ []) two_events (λ n. refl) two_events-IsReady
      (rw two_polls (omega arith))

-- A relay that is started, stopped and back from its loop no longer keeps its process waiting.
ended :
    run (starts ∷ stops ∷ returns ∷ []) new_lifecycle
    ≡ some (record { running = 0; stopped = true })
unfolding new_lifecycle step start stop loop_returned
ended = refl

-- A second Stop panics.
stopped_twice : run (stops ∷ stops ∷ []) new_lifecycle ≡ none
unfolding new_lifecycle step start stop loop_returned
stopped_twice = refl
