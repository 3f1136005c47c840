-- ===== src/Repository/Outbox/Laws.antt =====
-- What the insertion of an outbox event does to the rows.
use arvan.Prelude.{◌≡◌, refl, zero, none, [], ◌∷◌, ◌++◌, arith}
use arvan.Domain.{OutboxEvent, ok}
use arvan.Database.{OutboxEventModel, Tables, Env, Session, time_now}
use arvan.Database.Laws.{Yields, Yields-weaken, statement-Yields}
use arvan.Repository.Outbox.{insert_outbox, create}

insert_outbox-ok :
    (m : OutboxEventModel) (t : Tables) {u : Tables}
    → insert_outbox m t ≡ (ok tt, u)
    → u ≡ record t { outbox_events = t.outbox_events ++ m ∷ [] }
unfolding insert_outbox
insert_outbox-ok m t h = ground arith

-- The rows after an event with these fields was appended, free to be claimed.
pub record Appended (event : OutboxEvent) (t u : Tables) : Type 0 where
  pub row : OutboxEventModel
  pub rows : u ≡ record t { outbox_events = t.outbox_events ++ row ∷ [] }
  pub id : row.id ≡ event.id
  pub aggregate_id : row.aggregate_id ≡ event.aggregate_id
  pub payload : row.payload ≡ event.payload
  pub status : row.status ≡ event.status
  pub unlocked : row.locked_until ≡ none

module _ (env : Env) where
  pub create-Yields :
      (event : OutboxEvent) (s : Session)
      → Yields (λ _ t. Appended event s.tables t.tables) (create env event s)
  unfolding create
  create-Yields event s =
      let m : OutboxEventModel = record {
        id = event.id;
        aggregate_id = event.aggregate_id;
        event_type = event.event_type;
        payload = event.payload;
        status = event.status;
        locked_until = none;
        published_at = none;
        retry_count = zero;
        created_at = env.now s.step;
      } in
      Yields-weaken (statement-Yields env (insert_outbox m) (time_now env s).1) λ _ t saved.
        record {
          row = m;
          rows = insert_outbox-ok m s.tables saved;
          id = refl;
          aggregate_id = refl;
          payload = refl;
          status = refl;
          unlocked = refl;
        }
