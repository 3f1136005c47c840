-- ===== src/Relay/Once.antt =====
-- publishEvent of internal/outbox/relay.go on an event that is published.
use arvan.Prelude.{Bool, true, false, Option, none, some, ◌≡◌, refl, arith}
use arvan.Prelude.Lists.{find}
use arvan.Domain.{OutboxEventRecord, Uuid, Result, ok, err}
use arvan.Database.{OutboxEventModel, Tables, Env, Session}
use arvan.Database.Laws.{Yields, Yields-bind, statement-Yields}
use arvan.Database.Sql.{found, first}
use arvan.Repository.Outbox.{event_by_id}
use arvan.Repository.OutboxRelay
use arvan.Repository.OutboxRelay.{is_published_status}
use arvan.Relay.{publish_unpublished, publish_event}
use arvan.Relay.Publication.{is_published-Silent}

same_row :
    (o : Option OutboxEventModel) (row a : OutboxEventModel) (t u : Tables)
    → o ≡ some row
    → ◌≡◌ {A = Result OutboxEventModel × Tables} (found o, t) (ok a, u)
    → is_published_status row.status ≡ true
    → is_published_status a.status ≡ true
same_row none row a t u h e k = absurd (ground (arith, h))
same_row (some b) row a t u h e k = ground (arith, h, e, k)

module _ (env : Env) where
  is_published-Yields :
      (id : Uuid) (row : OutboxEventModel) (s : Session)
      → find (event_by_id id) s.tables.outbox_events ≡ some row
      → is_published_status row.status ≡ true
      → Yields (λ b _. b ≡ true) (OutboxRelay.is_published env id s)
  unfolding OutboxRelay.is_published
  is_published-Yields id row s h k =
      Yields-bind (statement-Yields env (first (λ t. t.outbox_events) (event_by_id id)) s)
        (λ a t e. record { holds = same_row _ row a s.tables t.tables h e k })

  kept :
      (event : OutboxEventRecord) (r : Result Bool × Session)
      → Yields (λ b _. b ≡ true) r
      → (publish_unpublished env event r.0 r.1).1.effects ≡ r.1.effects
  unfolding publish_unpublished
  kept event (err e, s) h = refl
  kept event (ok true, s) h = refl
  kept event (ok false, s) h = absurd (ground (arith, h.holds))

-- Where the row of an event has the status published, the relay sends nothing for that event,
-- whatever the outcomes of the statements.
pub publish_event-published :
    (env : Env) (event : OutboxEventRecord) (row : OutboxEventModel) (s : Session)
    → find (event_by_id event.id) s.tables.outbox_events ≡ some row
    → is_published_status row.status ≡ true
    → (publish_event env event s).1.effects ≡ s.effects
unfolding publish_event
publish_event-published env event row s h k = rw (
  kept env event (OutboxRelay.is_published env event.id s)
      (is_published-Yields env event.id row s h k),
  (is_published-Silent env event.id).at s,
)
