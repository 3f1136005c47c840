-- ===== src/Relay.antt =====
-- internal/outbox/relay.go: the publication of the events that the services recorded.
pub mod Publication
pub mod Marking
pub mod Once
pub mod Drain
pub mod Gauge
pub mod Lifecycle
use arvan.Prelude.{
  ⊤, ℕ, zero, suc, Bool, true, false, Option, none, some, List, [], ◌∷◌, if◌then◌else◌,
}
use arvan.Prelude.Int.{ℤ}
use arvan.Domain.{
  Uuid, MessageType, standard, express, other_type, PayloadBytes, encoded, malformed,
  SmsSendPayload, OutboxEventRecord, Queue, express_queue, standard_queue, Error, internal, Result,
  ok, err,
}
use arvan.Database.{Env, Exec, pure, raise, attempt, ◌>>=◌, ◌>>◌, published_to, dispatch}
use arvan.Repository.OutboxRelay

-- publishEventError.phase
pub data Phase : Type 0 where
  check decode publishing mark : Phase

unfoldable pub queue_for_message_type : MessageType → Queue
queue_for_message_type express = express_queue
queue_for_message_type _ = standard_queue

abbrev pub mark_published_max_attempts : ℕ
mark_published_max_attempts = 5

-- The check behind a failed mark says that the event is published all the same.
abbrev pub confirmed : Result Bool → Bool
confirmed (ok answer) = answer
confirmed (err e) = false

-- What the select of loop receives.
pub data Woken : Type 0 where
  context_done stopped ticked : Woken

module _ (env : Env) where
  -- Publisher.Publish, which is RabbitMQ.Publish: the message does not leave, where the context is over or
  -- the channel refuses it; it leaves and is confirmed; or it leaves and is not.
  unfoldable pub publish : Queue → PayloadBytes → Exec ⊤
  publish queue body = dispatch env (published_to queue body)

  -- Behind a failed mark: the event is published all the same, or the loop goes on.
  abbrev pub checked_again : Exec ⊤ → Result Bool → Exec ⊤
  checked_again go_on again = if confirmed again then pure tt else go_on

  abbrev pub attempted_mark : Uuid → (Error → Exec ⊤) → Result ⊤ → Exec ⊤
  attempted_mark event_id go_on (ok _) = pure tt
  attempted_mark event_id go_on (err e) =
      attempt (OutboxRelay.is_published env event_id) >>= checked_again (go_on e)

  -- The loop of markPublishedWithRetry with the attempts that are left and the last error.
  unfoldable pub retry_mark : Uuid → ℕ → Error → Exec ⊤
  retry_mark event_id zero last_error = raise last_error
  retry_mark event_id (suc left) last_error =
      attempt (OutboxRelay.mark_published env event_id)
      >>= attempted_mark event_id (retry_mark event_id left)

  unfoldable pub mark_published_with_retry : Uuid → Exec ⊤
  mark_published_with_retry event_id = retry_mark event_id mark_published_max_attempts internal

  -- How publishEvent ends: without error, or with one of a phase.
  abbrev pub phase_error : Phase → Result ⊤ → Exec (Option Phase)
  phase_error phase (ok _) = pure none
  phase_error phase (err e) = pure (some phase)

  unfoldable pub mark_confirmed : OutboxEventRecord → Result ⊤ → Exec (Option Phase)
  mark_confirmed event (err e) = pure (some publishing)
  mark_confirmed event (ok _) = attempt (mark_published_with_retry event.id) >>= phase_error mark

  unfoldable pub publish_payload : OutboxEventRecord → PayloadBytes → Exec (Option Phase)
  publish_payload event malformed = pure (some decode)
  publish_payload event (encoded payload) =
      attempt (publish (queue_for_message_type payload.message_type) event.payload)
      >>= mark_confirmed event

  unfoldable pub publish_unpublished : OutboxEventRecord → Result Bool → Exec (Option Phase)
  publish_unpublished event (err e) = pure (some check)
  publish_unpublished event (ok true) = pure none
  publish_unpublished event (ok false) = publish_payload event event.payload

  unfoldable pub publish_event : OutboxEventRecord → Exec (Option Phase)
  publish_event event =
      attempt (OutboxRelay.is_published env event.id) >>= publish_unpublished event

  -- An event whose mark failed keeps its lock; any other failure is recorded.
  unfoldable pub after_publish : OutboxEventRecord → Option Phase → Exec ⊤
  after_publish event none = pure tt
  after_publish event (some mark) = pure tt
  after_publish event (some phase) =
      attempt (OutboxRelay.record_publish_failure env event.id) >> pure tt

  unfoldable pub publish_all : List OutboxEventRecord → Exec ⊤
  publish_all [] = pure tt
  publish_all (event ∷ rest) = do
    phase ← publish_event event
    after_publish event phase
    publish_all rest

  unfoldable pub poll_once : ℤ → ℕ → Exec ⊤
  poll_once batch_size lock_duration =
      OutboxRelay.claim_pending_batch env batch_size lock_duration >>= publish_all

  -- The loop, by what its select receives after each poll; it waits where nothing more comes. The
  -- error of a poll is only logged.
  unfoldable pub loop : ℤ → ℕ → List Woken → Exec ⊤
  loop batch_size lock_duration [] = attempt (poll_once batch_size lock_duration) >> pure tt
  loop batch_size lock_duration (context_done ∷ rest) =
      attempt (poll_once batch_size lock_duration) >> pure tt
  loop batch_size lock_duration (stopped ∷ rest) =
      attempt (poll_once batch_size lock_duration) >> pure tt
  loop batch_size lock_duration (ticked ∷ rest) =
      attempt (poll_once batch_size lock_duration) >> loop batch_size lock_duration rest
