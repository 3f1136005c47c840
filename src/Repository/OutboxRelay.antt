-- ===== src/Repository/OutboxRelay.antt =====
-- internal/repository/outbox_relay.go: the rows that the relay claims, publishes and marks. Rows of
-- one time of creation, whose order the query leaves open, are taken in the order of insertion; a
-- lock duration is not negative.
pub mod Claims
use arvan.Prelude.{
  ⊤, ℕ, suc, zero, ◌+◌, Bool, true, false, ◌&&◌, Option, none, some, List, [], ◌∷◌, ◌==◌, ltb, leb,
  if◌then◌else◌,
}
use arvan.Prelude.Int.{ℤ, pos, pos_part, leb_ℤ}
use arvan.Prelude.Lists.{select, count, update, take}
use arvan.Domain.{
  Uuid, Time, OutboxStatus, pending, published, OutboxEventRecord, internal, Result, ok,
}
use arvan.Database.{
  OutboxEventModel, Tables, Env, Exec, pure, raise, ◌>>=◌, ◌>>◌, time_now, statement, transaction,
}
use arvan.Database.Sql.{first}
use arvan.Repository.Outbox.{event_by_id}

unfoldable pub to_domain_outbox : OutboxEventModel → OutboxEventRecord
to_domain_outbox m = record {
  id = m.id;
  aggregate_id = m.aggregate_id;
  event_type = m.event_type;
  payload = m.payload;
  status = m.status;
  locked_until = m.locked_until;
  published_at = m.published_at;
  retry_count = m.retry_count;
  created_at = m.created_at;
}

abbrev pub is_pending : OutboxStatus → Bool
is_pending pending = true
is_pending _ = false

abbrev pub is_published_status : OutboxStatus → Bool
is_published_status published = true
is_published_status _ = false

abbrev pub unlocked : Time → Option Time → Bool
unlocked now none = true
unlocked now (some until) = ltb until now

-- WHERE status = 'pending' AND (locked_until IS NULL OR locked_until < NOW())
abbrev pub claimable : Time → OutboxEventModel → Bool
claimable now m = is_pending m.status && unlocked now m.locked_until

-- ORDER BY created_at
abbrev pub insert_by_time : OutboxEventModel → List OutboxEventModel → List OutboxEventModel
insert_by_time m [] = m ∷ []
insert_by_time m (e ∷ rest) =
    if leb m.created_at e.created_at then m ∷ e ∷ rest else e ∷ insert_by_time m rest

abbrev pub by_time : List OutboxEventModel → List OutboxEventModel
by_time [] = []
by_time (m ∷ rest) = insert_by_time m (by_time rest)

abbrev pub batch_limit : ℤ → ℕ
batch_limit limit = if leb_ℤ limit (pos 0) then 50 else pos_part limit

unfoldable pub pending_batch : ℕ → Time → Tables → Result (List OutboxEventModel) × Tables
pending_batch limit now t = (ok (take limit (by_time (select (claimable now) t.outbox_events))), t)

abbrev pub id_in : List OutboxEventModel → OutboxEventModel → Bool
id_in [] e = false
id_in (m ∷ rest) e = if e.id == m.id then true else id_in rest e

-- WHERE id IN ids, SET locked_until
unfoldable pub lock_rows : List OutboxEventModel → Time → Tables → Result ⊤ × Tables
lock_rows models until t = (
  ok tt,
  record t {
    outbox_events =
        update (id_in models) (λ (m : OutboxEventModel). record m { locked_until = some until })
          t.outbox_events;
  },
)

abbrev pub claimed_until : Time → List OutboxEventModel → List OutboxEventRecord
claimed_until until [] = []
claimed_until until (m ∷ rest) =
    record (to_domain_outbox m) { locked_until = some until } ∷ claimed_until until rest

abbrev pub pending_row : Uuid → OutboxEventModel → Bool
pending_row id m = event_by_id id m && is_pending m.status

-- An UPDATE of the pending row, and how many it affected.
unfoldable pub update_pending :
    Uuid → (OutboxEventModel → OutboxEventModel) → Tables → Result ℕ × Tables
update_pending id change t = (
  ok (count (pending_row id) t.outbox_events),
  record t { outbox_events = update (pending_row id) change t.outbox_events },
)

abbrev pub set_published : Time → OutboxEventModel → OutboxEventModel
set_published now m = record m { status = published; published_at = some now; locked_until = none }

abbrev pub set_failure : OutboxEventModel → OutboxEventModel
set_failure m = record m { retry_count = suc m.retry_count; locked_until = none }

module _ (env : Env) where
  -- No event was found, or those that were are locked.
  unfoldable pub lock_batch : ℕ → List OutboxEventModel → Exec (List OutboxEventRecord)
  lock_batch lock_duration [] = pure []
  lock_batch lock_duration (m ∷ rest) = do
    now ← time_now env
    statement env (lock_rows (m ∷ rest) (now + lock_duration))
    pure (claimed_until (now + lock_duration) (m ∷ rest))

  unfoldable pub claim_pending_batch : ℤ → ℕ → Exec (List OutboxEventRecord)
  claim_pending_batch limit lock_duration = transaction env (do
    now ← time_now env
    models ← statement env (pending_batch (batch_limit limit) now)
    lock_batch lock_duration models)

  unfoldable pub is_published : Uuid → Exec Bool
  is_published event_id = do
    model ← statement env (first (λ t. t.outbox_events) (event_by_id event_id))
    pure (is_published_status model.status)

  -- Behind the UPDATE: no row was pending, or one was marked.
  unfoldable pub marked_or_published : Uuid → ℕ → Exec ⊤
  marked_or_published event_id (suc affected) = pure tt
  marked_or_published event_id zero = do
    done_before ← is_published event_id
    if done_before then pure tt else raise internal

  unfoldable pub mark_published : Uuid → Exec ⊤
  mark_published event_id = do
    now ← time_now env
    affected ← statement env (update_pending event_id (set_published now))
    marked_or_published event_id affected

  unfoldable pub record_publish_failure : Uuid → Exec ⊤
  record_publish_failure event_id = statement env (update_pending event_id set_failure) >> pure tt

  unfoldable pub count_pending : Exec ℕ
  count_pending =
      statement env
        (λ t. (ok (count (λ (m : OutboxEventModel). is_pending m.status) t.outbox_events), t))
