-- ===== src/Repository/ProcessedConsumer.antt =====
-- internal/repository/processed_consumer.go: the worker's claims.
use arvan.Prelude.{⊤, Bool, true, false, [], ◌∷◌, ◌++◌, ◌==◌, not, if◌then◌else◌}
use arvan.Prelude.Lists.{has, select}
use arvan.Domain.{Uuid, Result, ok}
use arvan.Database.{ProcessedConsumerEventModel, Tables, Env, Exec, ◌>>=◌, time_now, statement}

abbrev pub by_message_id : Uuid → ProcessedConsumerEventModel → Bool
by_message_id message_id m = m.message_id == message_id

-- INSERT … ON CONFLICT DO NOTHING, and whether a row was inserted.
unfoldable pub insert_if_new : ProcessedConsumerEventModel → Tables → Result Bool × Tables
insert_if_new m t =
    if has (by_message_id m.message_id) t.processed_consumer_events
    then (ok false, t)
    else (ok true, record t { processed_consumer_events = t.processed_consumer_events ++ m ∷ [] })

unfoldable pub delete_where_message : Uuid → Tables → Result ⊤ × Tables
delete_where_message message_id t = (
  ok tt,
  record t {
    processed_consumer_events =
        select (λ m. not (by_message_id message_id m)) t.processed_consumer_events;
  },
)

module _ (env : Env) where
  unfoldable pub mark_processed_if_new : Uuid → Exec Bool
  mark_processed_if_new message_id = do
    now ← time_now env
    statement env (insert_if_new (record { message_id = message_id; processed_at = now }))

  unfoldable pub exists : Uuid → Exec Bool
  exists message_id =
      statement env (λ t. (ok (has (by_message_id message_id) t.processed_consumer_events), t))

  unfoldable pub delete_claim : Uuid → Exec ⊤
  delete_claim message_id = statement env (delete_where_message message_id)
