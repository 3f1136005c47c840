-- ===== src/Relay/Drain.antt =====
-- The loop of internal/outbox/relay.go where every statement is done.
pub mod Rows
pub mod Event
pub mod Progress
pub mod Locked
pub mod Batch
pub mod Poll
use native.Mathlib.Nat.{suc-mul}
use arvan.Prelude.{
  ⊤, ℕ, suc, ◌+◌, ◌*◌, ◌≤◌, true, false, none, List, [], ◌∷◌, ◌≡◌, refl, ◌⊎◌, inl, inr, arith,
}
use arvan.Prelude.Int.{ℤ}
use arvan.Prelude.Lists.{count, length}
use arvan.Domain.{encoded, SmsSendPayload, ok}
use arvan.Database.{OutboxEventModel, done, Env, Session, Effect}
use arvan.Repository.Page.Order.{In}
use arvan.Repository.OutboxRelay.{batch_limit}
use arvan.Relay.{Woken, context_done, stopped, ticked, poll_once, loop}
use arvan.Relay.Drain.Rows.{AreDistinct, is_open, count_zero}
use arvan.Relay.Drain.Progress.{IsSent, Underway}
use arvan.Relay.Drain.Batch.{Advances, Advances-trans}
use arvan.Relay.Drain.Poll.{poll_once-Advances}

-- How often the loop polls.
unfoldable pub polls : List Woken → ℕ
polls (ticked ∷ rest) = suc (polls rest)
polls _ = 1

-- The ids are distinct, as the primary key has it, and no row that is open is locked or has a payload
-- that cannot be decoded.
pub record IsReady (rows : List OutboxEventModel) : Type 0 where
  pub distinct : AreDistinct rows
  pub unlocked : (r : OutboxEventModel) → In r rows → is_open r ≡ true → r.locked_until ≡ none
  pub readable :
      (r : OutboxEventModel)
      → In r rows
      → is_open r ≡ true
      → (payload : SmsSendPayload) × (r.payload ≡ encoded payload)

IsReady-Underway : (rows : List OutboxEventModel) → IsReady rows → Underway [] rows
IsReady-Underway rows h = record {
  distinct = h.distinct;
  apart = tt;
  waiting = λ m there. absurd there;
  unlocked = λ r there is_one. inl (h.unlocked r there is_one);
  readable = h.readable;
}

one_more : (rounds size k : ℕ) → rounds * size ≤ k → suc rounds * size ≤ size + k
one_more rounds size k h = rw suc-mul (omega arith)

module _ (env : Env) (all_done : (n : ℕ) → env.outcome n ≡ done) (limit : ℤ)
    (lock_duration : ℕ) where
  abbrev Enough : ℕ → ℕ → ℕ → Type 0
  Enough rounds n open_before = (rounds * batch_limit limit ≤ n) ⊎ (n ≡ open_before)

  one_poll : (n k : ℕ) → (n ≡ batch_limit limit) ⊎ (n ≡ k) → Enough 1 n k
  one_poll n k (inl full) = inl (rw full (omega arith))
  one_poll n k (inr all) = inr all

  -- One poll before others, by what was open before it and behind it.
  more_polls :
      (rounds n k before between : ℕ)
      → (n ≡ batch_limit limit) ⊎ (n ≡ before)
      → Enough rounds k between
      → between + n ≡ before
      → k ≤ between
      → Enough (suc rounds) (n + k) before
  more_polls rounds n k before between (inr all) others e le = inr (omega arith)
  more_polls rounds n k before between (inl full) (inr all) e le = inr (omega arith)
  more_polls rounds n k before between (inl full) (inl enough) e le =
      inl (rw full (one_more rounds (batch_limit limit) k enough))

  -- What is open behind the polls: less by a batch for each, until nothing is.
  loop-Advances :
      (woken : List Woken) (s : Session)
      → Underway [] s.tables.outbox_events
      → (n : ℕ) × (u : Session) × (loop env limit lock_duration woken s ≡ (ok tt, u))
        × Advances [] n s u
        × Enough (polls woken) n (count is_open s.tables.outbox_events)
  unfolding loop polls
  loop-Advances [] s h =
      let (n, u, runs, advances, enough) =
        poll_once-Advances env all_done limit lock_duration s h in
      (n, u, rw runs refl, advances, one_poll n _ enough)
  loop-Advances (context_done ∷ rest) s h =
      let (n, u, runs, advances, enough) =
        poll_once-Advances env all_done limit lock_duration s h in
      (n, u, rw runs refl, advances, one_poll n _ enough)
  loop-Advances (stopped ∷ rest) s h =
      let (n, u, runs, advances, enough) =
        poll_once-Advances env all_done limit lock_duration s h in
      (n, u, rw runs refl, advances, one_poll n _ enough)
  loop-Advances (ticked ∷ rest) s h =
      let (n, v, runs, first, enough) = poll_once-Advances env all_done limit lock_duration s h in
      let (k, u, runs', others, enough') = loop-Advances rest v first.underway in
      (
        n + k,
        u,
        rw (runs, runs') refl,
        Advances-trans [] [] n k _ s v u refl first others,
        more_polls (polls rest) n k _ _ enough enough'
            (omega (arith, first.sent, first.progress.tally))
            (omega (arith, others.sent, others.progress.tally)),
      )

nothing_left :
    (published n before left : ℕ)
    → before ≤ published
    → (published ≤ n) ⊎ (n ≡ before)
    → left + n ≡ before
    → left ≡ 0
nothing_left published n before left le (inl often) e = omega arith
nothing_left published n before left le (inr all) e = omega arith

out_of_open :
    (r : OutboxEventModel) (effects : List Effect) (rows : List OutboxEventModel)
    → count is_open rows ≡ 0
    → ((q : OutboxEventModel) × In q rows × (q.payload ≡ r.payload) × (is_open q ≡ true))
      ⊎ IsSent r.payload effects
    → IsSent r.payload effects
out_of_open r effects rows none_open (inr sent) = sent
out_of_open r effects rows none_open (inl (q, there, same, is_one)) =
    absurd (ground (arith, count_zero is_open q rows none_open there, is_one))

-- Where every statement is done, the ids of the outbox are distinct and none of its pending rows is
-- locked or has a payload that cannot be decoded: after a loop that polls often enough for its batches
-- to hold all the pending rows, no row is pending, the payload of each of them is in the queue of its
-- message type, and nothing else has been published: there are as many publications as there were
-- pending rows.
pub loop_drains :
    (env : Env) (limit : ℤ) (lock_duration : ℕ) (woken : List Woken) (s : Session)
    → ((n : ℕ) → env.outcome n ≡ done)
    → IsReady s.tables.outbox_events
    → count is_open s.tables.outbox_events ≤ polls woken * batch_limit limit
    → (u : Session) × (loop env limit lock_duration woken s ≡ (ok tt, u))
      × (count is_open u.tables.outbox_events ≡ 0)
      × ((r : OutboxEventModel)
          → In r s.tables.outbox_events
          → is_open r ≡ true
          → IsSent r.payload u.effects)
      × (length u.effects ≡ length s.effects + count is_open s.tables.outbox_events)
loop_drains env limit lock_duration woken s all_done ready often =
    let (n, u, runs, advances, enough) =
      loop-Advances env all_done limit lock_duration woken s
        (IsReady-Underway s.tables.outbox_events ready) in
    let none_open : count is_open u.tables.outbox_events ≡ 0 =
      nothing_left (polls woken * batch_limit limit) n _ _ often enough
        (omega (arith, advances.sent, advances.progress.tally)) in
    (
      u,
      runs,
      none_open,
      λ r there is_one.
          out_of_open r u.effects u.tables.outbox_events none_open
            (advances.progress.goes_on r there is_one),
      omega (arith, none_open, advances.progress.tally),
    )
