-- ===== src/Relay/Drain/Poll.antt =====
-- ClaimPendingBatch and pollOnce where every statement is done and no pending row is locked.
use arvan.Prelude.{
  ⊤, ℕ, suc, ◌+◌, true, Bool-cases, none, [], ◌∷◌, ◌≡◌, refl, sym, ap, ◌∙◌, ◌⊎◌, inl, inr, arith,
}
use arvan.Prelude.Int.{ℤ}
use arvan.Prelude.Lists.{count, update, select, take, length}
use arvan.Domain.{Time, Result, ok}
use arvan.Database.{
  OutboxEventModel, done, Env, Session, Exec, continue, enclose, finish, transaction,
}
use arvan.Repository.Page.Order.{In, In-take, In-select, HasDistinctIds-select}
use arvan.Repository.OutboxRelay.{
  claimable, by_time, batch_limit, pending_batch, id_in, lock_rows, claimed_until, lock_batch,
  claim_pending_batch,
}
use arvan.Repository.OutboxRelay.Claims.{In-by_time}
use arvan.Relay.{poll_once}
use arvan.Relay.Drain.Rows.{
  Rows, AreDistinct, is_open, update_none, count-same, length-select-count, length-take_cases,
  AreDistinct-by_time, AreDistinct-take, length-by_time,
}
use arvan.Relay.Drain.Event.{statement-done}
use arvan.Relay.Drain.Progress.{Underway}
use arvan.Relay.Drain.Locked.{lock, Progress-locked, Underway-locked}
use arvan.Relay.Drain.Batch.{Advances, Advances-trans, publish_all-Advances}

-- The rows that a claim at a time takes.
abbrev batch_at : ℤ → Time → Rows → Rows
batch_at limit now rows = take (batch_limit limit) (by_time (select (claimable now) rows))

batch_at-AreDistinct :
    (limit : ℤ) (now : Time) (rows : Rows)
    → AreDistinct rows
    → AreDistinct (batch_at limit now rows)
batch_at-AreDistinct limit now rows h = AreDistinct-take (batch_limit limit) _ (
    AreDistinct-by_time _ (
      HasDistinctIds-select (λ (m : OutboxEventModel). m.created_at) (λ m. m.id) (claimable now)
        rows h))

In-batch_at :
    (limit : ℤ) (now : Time) (rows : Rows) (m : OutboxEventModel)
    → In m (batch_at limit now rows)
    → In m rows × (is_open m ≡ true)
In-batch_at limit now rows m there =
    let (is_claimable, in_rows) =
      In-select (claimable now) m rows (In-by_time m _ (In-take m (batch_limit limit) _ there)) in
    (in_rows, ground (arith, is_claimable))

claimable_when_open :
    (now : Time) (a : OutboxEventModel)
    → (is_open a ≡ true
        → (a.locked_until ≡ none) ⊎ ((m : OutboxEventModel) × In m [] × (m.id ≡ a.id)))
    → claimable now a ≡ is_open a
claimable_when_open now a free = elim (Bool-cases (is_open a)) [
  | inl e ↦ elim (free e) [
    | inl unlocked ↦ ground (arith, e, unlocked)
    | inr (m, nowhere, _) ↦ absurd nowhere
  ]
  | inr e ↦ ground (arith, e)
]

-- A batch is full, or has all the open rows.
length-batch_at :
    (limit : ℤ) (now : Time) (rows : Rows)
    → Underway [] rows
    → (length (batch_at limit now rows) ≡ batch_limit limit)
      ⊎ (length (batch_at limit now rows) ≡ count is_open rows)
length-batch_at limit now rows h =
    elim (length-take_cases (batch_limit limit) (by_time (select (claimable now) rows))) [
      | inl full ↦ inl full
      | inr rest ↦
          let same =
            count-same (claimable now) is_open rows
              (λ a there. claimable_when_open now a (h.unlocked a there)) in
          inr (
            omega (
              arith,
              rest,
              same,
              length-by_time (select (claimable now) rows),
              length-select-count (claimable now) rows,
            ))
    ]

module _ (env : Env) (all_done : (n : ℕ) → env.outcome n ≡ done) (limit : ℤ)
    (lock_duration : ℕ) where
  transaction-done :
      {A : Type 0} {a : A} (m : Exec A) (s u : Session)
      → m (record s { step = suc s.step }) ≡ (ok a, u)
      → transaction env m s ≡ (ok a, record u { step = suc u.step })
  unfolding transaction
  transaction-done {A} {a} m s u h =
      ap (continue (λ _. enclose env.outcome m))
        (statement-done env all_done {A = ⊤} (λ t. (ok tt, t)) s)
      ∙ ap (λ (r : Result A × Session). finish (env.outcome r.1.step) s.tables r) h
      ∙ (rw (all_done u.step) refl)

  lock_batch-done :
      (ms : Rows) (s : Session)
      → (until : Time) × (u : Session) × (lock_batch env lock_duration ms s
          ≡ (ok (claimed_until until ms), u))
        × (u.tables.outbox_events ≡ update (id_in ms) (lock until) s.tables.outbox_events)
        × (u.effects ≡ s.effects)
  unfolding lock_batch lock_rows
  lock_batch-done [] s = (
    0,
    s,
    refl,
    sym (update_none (id_in []) (lock 0) s.tables.outbox_events (λ a there. refl)),
    refl,
  )
  lock_batch-done (m ∷ ms) s = (
    env.now s.step + lock_duration,
    record s {
      tables = (lock_rows (m ∷ ms) (env.now s.step + lock_duration) s.tables).1;
      step = suc (suc s.step);
    },
    rw
        (statement-done env all_done (lock_rows (m ∷ ms) (env.now s.step + lock_duration))
          (record s { step = suc s.step }))
        refl,
    refl,
    refl,
  )

  claim-done :
      (s : Session)
      → (now until : Time) × (u : Session) × (claim_pending_batch env limit lock_duration s
          ≡ (ok (claimed_until until (batch_at limit now s.tables.outbox_events)), u))
        × (u.tables.outbox_events
            ≡ update
                (id_in (batch_at limit now s.tables.outbox_events))
                (lock until)
                s.tables.outbox_events)
        × (u.effects ≡ s.effects)
  unfolding claim_pending_batch pending_batch
  claim-done s =
      let now = env.now (suc s.step) in
      let (until, u, locks, rows, effects) =
        lock_batch-done (batch_at limit now s.tables.outbox_events)
          (record s { step = suc (suc (suc s.step)) }) in
      (
        now,
        until,
        record u { step = suc u.step },
        transaction-done _ s u (
            rw
              (
                statement-done env all_done (pending_batch (batch_limit limit) now)
                    (record s { step = suc (suc s.step) }),
                locks,
              )
              refl),
        rows,
        effects,
      )

  -- A poll publishes a full batch, or every open row.
  pub poll_once-Advances :
      (s : Session)
      → Underway [] s.tables.outbox_events
      → (n : ℕ) × (u : Session) × (poll_once env limit lock_duration s ≡ (ok tt, u))
        × Advances [] n s u
        × ((n ≡ batch_limit limit) ⊎ (n ≡ count is_open s.tables.outbox_events))
  unfolding poll_once
  poll_once-Advances s h =
      let (now, until, v, claims, rows, effects) = claim-done s in
      let batch = batch_at limit now s.tables.outbox_events in
      let taken = claimed now until v rows effects in
      let (u, runs, published) = publish_all-Advances env all_done batch until v taken.underway in
      (
        length batch,
        u,
        rw (claims, runs) refl,
        Advances-trans batch [] 0 (length batch) _ s v u (omega arith) taken published,
        length-batch_at limit now s.tables.outbox_events h,
      )
    where
      claimed :
          (now until : Time) (v : Session)
          → v.tables.outbox_events
            ≡ update
                (id_in (batch_at limit now s.tables.outbox_events))
                (lock until)
                s.tables.outbox_events
          → v.effects ≡ s.effects
          → Advances (batch_at limit now s.tables.outbox_events) 0 s v
      claimed now until v rows effects =
          let batch = batch_at limit now s.tables.outbox_events in
          record {
            underway = rw rows (
                Underway-locked batch until s.tables.outbox_events h
                  (batch_at-AreDistinct limit now s.tables.outbox_events h.distinct)
                  (In-batch_at limit now s.tables.outbox_events));
            progress =
                rw (rows, effects) (Progress-locked batch until s.tables.outbox_events s.effects);
            sent = rw effects (omega arith);
          }
