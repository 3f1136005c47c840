-- ===== src/Repository/Outbox.antt =====
-- internal/repository/outbox.go: the insertion of an event.
pub mod Laws
use arvan.Prelude.{⊤, zero, Bool, none, [], ◌∷◌, ◌++◌, ◌==◌, if◌then◌else◌}
use arvan.Prelude.Lists.{has}
use arvan.Domain.{Uuid, OutboxEvent, Result, ok, err, duplicated_key}
use arvan.Database.{OutboxEventModel, Tables, Env, Exec, ◌>>=◌, time_now, statement}

abbrev pub event_by_id : Uuid → OutboxEventModel → Bool
event_by_id id e = e.id == id

-- The INSERT of an event: `id` is the key.
unfoldable pub insert_outbox : OutboxEventModel → Tables → Result ⊤ × Tables
insert_outbox m t =
    if has (event_by_id m.id) t.outbox_events
    then (err duplicated_key, t)
    else (ok tt, record t { outbox_events = t.outbox_events ++ m ∷ [] })

module _ (env : Env) where
  unfoldable pub create : OutboxEvent → Exec ⊤
  create event = do
    now ← time_now env
    statement env (
        insert_outbox (record {
          id = event.id;
          aggregate_id = event.aggregate_id;
          event_type = event.event_type;
          payload = event.payload;
          status = event.status;
          locked_until = none;
          published_at = none;
          retry_count = zero;
          created_at = now;
        }))
