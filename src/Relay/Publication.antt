-- ===== src/Relay/Publication.antt =====
-- publishEvent of internal/outbox/relay.go: what it touches, and when.
use arvan.Prelude.{
  ⊤, ℕ, zero, suc, Bool, true, false, List, ◌∷◌, ◌≡◌, refl, ◌∙◌, ◌⊎◌, inl, inr, subst,
}
use arvan.Domain.{
  Uuid, PayloadBytes, encoded, malformed, SmsSendPayload, OutboxEventRecord, Error, Result, ok, err,
}
use arvan.Database.{
  Effect, published_to, OutboxEventModel, Outcome, done, refused, lost, Tables, Env, Session, Exec,
  pure, attempt, ◌>>=◌, continue, settle, statement, dispatched, dispatch, time_now,
}
use arvan.Database.Sql.{first}
use arvan.Database.Silent.{
  Silent, Silent-statement, Silent-bind, Silent-pure, Silent-raise, Silent-attempt, Silent-if,
}
use arvan.Repository.Outbox.{event_by_id}
use arvan.Repository.OutboxRelay
use arvan.Repository.OutboxRelay.{is_published_status, update_pending, set_published}
use arvan.Relay.{
  Phase, queue_for_message_type, confirmed, checked_again, attempted_mark, publish, retry_mark,
  mark_published_with_retry, phase_error, mark_confirmed, publish_payload, publish_unpublished,
  publish_event,
}
use arvan.Relay.Marking.{Marks, is_published-Keeps, retried-Marks}

-- All of the effects.
abbrev all : List Effect → List Effect
all effects = effects

module _ (env : Env) where
  pub is_published-Silent : (id : Uuid) → Silent all (OutboxRelay.is_published env id)
  unfolding OutboxRelay.is_published
  is_published-Silent id =
      Silent-bind _ (λ model. pure (is_published_status model.status))
        (Silent-statement env (first (λ t. t.outbox_events) (event_by_id id)))
        (λ model. Silent-pure (is_published_status model.status))

  marked-Silent : (id : Uuid) (n : ℕ) → Silent all (OutboxRelay.marked_or_published env id n)
  unfolding OutboxRelay.marked_or_published
  marked-Silent id (suc n) = Silent-pure tt
  marked-Silent id zero =
      Silent-bind (OutboxRelay.is_published env id) _ (is_published-Silent id)
        (λ b. Silent-if b _ _ (Silent-pure tt) (Silent-raise _))

  mark_published-Silent : (id : Uuid) → Silent all (OutboxRelay.mark_published env id)
  unfolding OutboxRelay.mark_published
  mark_published-Silent id =
      Silent-bind (time_now env) _ (record { at = λ s. refl })
        λ now.
          Silent-bind _ (OutboxRelay.marked_or_published env id)
            (Silent-statement env (update_pending id (set_published now))) (marked-Silent id)

  attempted_mark-Silent :
      (id : Uuid) (go_on : Error → Exec ⊤) (r : Result ⊤)
      → ((e : Error) → Silent all (go_on e))
      → Silent all (attempted_mark env id go_on r)
  attempted_mark-Silent id go_on (ok _) h = Silent-pure tt
  attempted_mark-Silent id go_on (err e) h =
      Silent-bind (attempt (OutboxRelay.is_published env id)) (checked_again env (go_on e))
        (Silent-attempt _ (is_published-Silent id))
        (λ again. Silent-if (confirmed again) _ _ (Silent-pure tt) (h e))

  retry_mark-Silent : (id : Uuid) (left : ℕ) (e : Error) → Silent all (retry_mark env id left e)
  unfolding retry_mark
  retry_mark-Silent id zero e = Silent-raise e
  retry_mark-Silent id (suc left) e =
      Silent-bind (attempt (OutboxRelay.mark_published env id)) _
        (Silent-attempt _ (mark_published-Silent id))
        (λ r. attempted_mark-Silent id (retry_mark env id left) r (retry_mark-Silent id left))

  phase_error-Silent : (phase : Phase) (r : Result ⊤) → Silent all (phase_error env phase r)
  phase_error-Silent phase (ok _) = Silent-pure _
  phase_error-Silent phase (err e) = Silent-pure _

  mark_confirmed-Silent :
      (event : OutboxEventRecord) (r : Result ⊤) → Silent all (mark_confirmed env event r)
  unfolding mark_confirmed mark_published_with_retry
  mark_confirmed-Silent event (ok _) =
      Silent-bind (attempt (mark_published_with_retry env event.id)) _
        (Silent-attempt _ (retry_mark-Silent event.id _ _)) (phase_error-Silent _)
  mark_confirmed-Silent event (err e) = Silent-pure _

  settle-step :
      {A : Type 0} (o : Outcome) (p : Result A × Tables) (s : Session)
      → (settle o p s).1.step ≡ suc s.step
  settle-step done p s = refl
  settle-step refused p s = refl
  settle-step lost p s = refl

  mapped-step :
      {A B : Type 0} (f : A → B) (r : Result A × Session)
      → (continue (λ a. pure (f a)) r).1.step ≡ r.1.step
  mapped-step f (ok a, s) = refl
  mapped-step f (err e, s) = refl

  is_published-step :
      (id : Uuid) (s : Session) → (OutboxRelay.is_published env id s).1.step ≡ suc s.step
  unfolding OutboxRelay.is_published statement
  is_published-step id s =
      mapped-step (λ (model : OutboxEventModel). is_published_status model.status) _
      ∙ settle-step (env.outcome s.step) (first (λ t. t.outbox_events) (event_by_id id) s.tables) s

  -- Either nothing was touched, or the payload of the event went to its queue once, and where the
  -- broker has confirmed it at the step `n`, and only there, the event may be marked.
  abbrev pub Publishes : ℕ → OutboxEventRecord → Session → Session → Type 0
  Publishes n event s u =
      ((u.tables ≡ s.tables) × (u.effects ≡ s.effects))
      ⊎ ((payload : SmsSendPayload) × (event.payload ≡ encoded payload)
          × (u.effects
              ≡ published_to (queue_for_message_type payload.message_type) event.payload
                ∷ s.effects)
          × ((u.tables ≡ s.tables) ⊎ ((env.outcome n ≡ done) × Marks event.id s.tables u.tables)))

  settled-Publishes :
      (event : OutboxEventRecord) (payload : SmsSendPayload) (s : Session) (o : Outcome)
      → event.payload ≡ encoded payload
      → env.outcome s.step ≡ o
      → Publishes s.step event s
          ((attempt (
                dispatched o
                  (published_to (queue_for_message_type payload.message_type) event.payload))
              >>= mark_confirmed env event)
            s).1
  unfolding mark_confirmed
  settled-Publishes event payload s refused e is = inl (refl, refl)
  settled-Publishes event payload s lost e is = inr (payload, e, refl, inl refl)
  settled-Publishes event payload s done e is = inr (
    payload,
    e,
    (mark_confirmed-Silent event (ok tt)).at _,
    inr (is, (retried-Marks env event.id s.tables).at _ (inl refl)),
  )

  publish_payload-Publishes :
      (event : OutboxEventRecord) (body : PayloadBytes) (s : Session)
      → event.payload ≡ body
      → Publishes s.step event s (publish_payload env event body s).1
  unfolding publish_payload publish dispatch
  publish_payload-Publishes event malformed s e = inl (refl, refl)
  publish_payload-Publishes event (encoded payload) s e =
      settled-Publishes event payload s (env.outcome s.step) e refl

  publish_unpublished-Publishes :
      (event : OutboxEventRecord) (r : Result Bool) (s : Session)
      → Publishes s.step event s (publish_unpublished env event r s).1
  unfolding publish_unpublished
  publish_unpublished-Publishes event (err e) s = inl (refl, refl)
  publish_unpublished-Publishes event (ok true) s = inl (refl, refl)
  publish_unpublished-Publishes event (ok false) s =
      publish_payload-Publishes event event.payload s refl

  before-Publishes :
      (n : ℕ) (event : OutboxEventRecord) (s t u : Session)
      → t.tables ≡ s.tables
      → t.effects ≡ s.effects
      → Publishes n event t u
      → Publishes n event s u
  before-Publishes n event s t u h k (inl (same, quiet)) = inl (rw (same, h), rw (quiet, k))
  before-Publishes n event s t u h k (inr (payload, e, sent, marks)) = inr (
    payload,
    e,
    rw (sent, k),
    subst
        (λ before. (u.tables ≡ before) ⊎ ((env.outcome n ≡ done) × Marks event.id before u.tables))
        h marks,
  )

-- However the statements and the publication end, the publication of an event by the relay either
-- touches neither the tables nor another service, or has sent the payload of the event, once, to the
-- queue of its message type. It then leaves the tables as they were too, or, only where the broker has
-- confirmed that message, may have marked the pending row of the event as published, and nothing else.
pub publish_event-Publishes :
    (env : Env) (event : OutboxEventRecord) (s : Session)
    → Publishes env (suc s.step) event s (publish_event env event s).1
unfolding publish_event
publish_event-Publishes env event s =
    let checked = OutboxRelay.is_published env event.id s in
    before-Publishes env (suc s.step) event s checked.1 (publish_event env event s).1
      ((is_published-Keeps env (λ t. t ≡ s.tables) event.id).at s refl)
      ((is_published-Silent env event.id).at s)
      (subst (λ n. Publishes env n event checked.1 (publish_event env event s).1)
        (is_published-step env event.id s)
        (publish_unpublished-Publishes env event checked.0 checked.1))
