-- ===== src/Relay/Drain/Event.antt =====
-- publishEvent of internal/outbox/relay.go on a pending event, where every statement is done.
use arvan.Prelude.{
  ℕ, suc, true, false, none, some, List, [], ◌∷◌, ◌≡◌, refl, ap, ◌∙◌, ◌-◌, ◌≤◌, arith,
}
use arvan.Prelude.Lists.{find, count, update}
use arvan.Domain.{
  Uuid, PayloadBytes, encoded, SmsSendPayload, OutboxStatus, pending, published, failed,
  OutboxEventRecord, Queue, Result, ok,
}
use arvan.Database.{
  OutboxEventModel, Tables, done, Env, Session, published_to, settle, statement, dispatch,
}
use arvan.Database.Sql.{first}
use arvan.Repository.Outbox.{event_by_id}
use arvan.Repository.OutboxRelay
use arvan.Repository.OutboxRelay.{
  is_pending, is_published_status, pending_row, update_pending, set_published,
}
use arvan.Relay.{
  queue_for_message_type, publish, retry_mark, mark_published_with_retry, mark_confirmed,
  publish_payload, publish_unpublished, publish_event,
}

count-found :
    (id : Uuid) (row : OutboxEventModel) (rows : List OutboxEventModel)
    → find (event_by_id id) rows ≡ some row
    → is_pending row.status ≡ true
    → 1 ≤ count (pending_row id) rows
count-found id row [] h k = absurd (ground (arith, h))
count-found id row (x ∷ rows) h k = ground (arith, h, k, count-found id row rows)

pending_unpublished :
    (status : OutboxStatus) → is_pending status ≡ true → is_published_status status ≡ false
pending_unpublished pending h = refl
pending_unpublished published h = ground (arith, h)
pending_unpublished failed h = refl

settle-done :
    {A : Type 0} (p : Result A × Tables) (s : Session)
    → settle done p s ≡ (p.0, record s { tables = p.1; step = suc s.step })
settle-done (r, t) s = refl

-- The event is published at a reading of the clock.
abbrev pub Delivered : Env → OutboxEventRecord → Queue → Session → Session → Type 0
Delivered env event queue s u =
    (k : ℕ) × (u.tables ≡ record s.tables {
      outbox_events =
          update (pending_row event.id) (set_published (env.now k)) s.tables.outbox_events;
    })
    × (u.effects ≡ published_to queue event.payload ∷ s.effects)

module _ (env : Env) (all_done : (n : ℕ) → env.outcome n ≡ done) where
  pub statement-done :
      {A : Type 0} (q : Tables → Result A × Tables) (s : Session)
      → statement env q s
        ≡ ((q s.tables).0, record s { tables = (q s.tables).1; step = suc s.step })
  unfolding statement
  statement-done q s = rw (all_done s.step) (settle-done (q s.tables) s)

  is_published-done :
      (id : Uuid) (row : OutboxEventModel) (s : Session)
      → find (event_by_id id) s.tables.outbox_events ≡ some row
      → is_pending row.status ≡ true
      → OutboxRelay.is_published env id s ≡ (ok false, record s { step = suc s.step })
  unfolding OutboxRelay.is_published
  is_published-done id row s h k =
      rw
        (
          statement-done (first (λ t. t.outbox_events) (event_by_id id)) s,
          h,
          pending_unpublished row.status k,
        )
        refl

  -- The session behind a statement of the mark.
  abbrev marked : Uuid → Session → Session
  marked id s = record s {
    tables = record s.tables {
      outbox_events =
          update (pending_row id) (set_published (env.now s.step)) s.tables.outbox_events;
    };
    step = suc (suc s.step);
  }

  mark_published-done :
      (id : Uuid) (row : OutboxEventModel) (s : Session)
      → find (event_by_id id) s.tables.outbox_events ≡ some row
      → is_pending row.status ≡ true
      → OutboxRelay.mark_published env id s ≡ (ok tt, marked id s)
  unfolding OutboxRelay.mark_published OutboxRelay.marked_or_published update_pending
  mark_published-done id row s h k =
      let some_marked = count-found id row s.tables.outbox_events h k in
      let is_suc : count (pending_row id) s.tables.outbox_events
          ≡ suc (count (pending_row id) s.tables.outbox_events - 1) =
        omega arith in
      rw
        (
          statement-done (update_pending id (set_published (env.now s.step)))
              (record s { step = suc s.step }),
          is_suc,
        )
        refl

  publish-done :
      (queue : Queue) (body : PayloadBytes) (s : Session)
      → publish env queue body s
        ≡ (ok tt, record s { effects = published_to queue body ∷ s.effects; step = suc s.step })
  unfolding publish dispatch
  publish-done queue body s = rw (all_done s.step) refl

  mark_published_with_retry-done :
      (id : Uuid) (row : OutboxEventModel) (s : Session)
      → find (event_by_id id) s.tables.outbox_events ≡ some row
      → is_pending row.status ≡ true
      → mark_published_with_retry env id s ≡ (ok tt, marked id s)
  unfolding mark_published_with_retry retry_mark
  mark_published_with_retry-done id row s h k = rw (mark_published-done id row s h k) refl

  -- Where the payload of the event goes out, and the event is marked.
  abbrev delivered : OutboxEventRecord → Queue → Session → Session
  delivered event queue s =
      marked event.id
        (record s { effects = published_to queue event.payload ∷ s.effects; step = suc s.step })

  publish_payload-done :
      (event : OutboxEventRecord) (payload : SmsSendPayload) (row : OutboxEventModel) (s : Session)
      → find (event_by_id event.id) s.tables.outbox_events ≡ some row
      → is_pending row.status ≡ true
      → publish_payload env event (encoded payload) s
        ≡ (ok none, delivered event (queue_for_message_type payload.message_type) s)
  unfolding publish_payload mark_confirmed
  publish_payload-done event payload row s h k =
      let queue = queue_for_message_type payload.message_type in
      rw
        (
          publish-done queue event.payload s,
          mark_published_with_retry-done event.id row
              (record s {
                effects = published_to queue event.payload ∷ s.effects;
                step = suc s.step;
              })
              h k,
        )
        refl

  -- A pending event whose payload can be decoded is published, and marked.
  pub publish_event-Delivered :
      (event : OutboxEventRecord) (payload : SmsSendPayload) (row : OutboxEventModel) (s : Session)
      → event.payload ≡ encoded payload
      → find (event_by_id event.id) s.tables.outbox_events ≡ some row
      → is_pending row.status ≡ true
      → (u : Session) × (publish_event env event s ≡ (ok none, u))
        × Delivered env event (queue_for_message_type payload.message_type) s u
  unfolding publish_event publish_unpublished
  publish_event-Delivered event payload row s e h k =
      let queue = queue_for_message_type payload.message_type in
      let checked : Session = record s { step = suc s.step } in
      (
        delivered event queue checked,
        (rw (is_published-done event.id row s h k) refl)
            ∙ ap (λ body. publish_payload env event body checked) e
            ∙ publish_payload-done event payload row checked h k,
        (suc (suc s.step), refl, refl),
      )
