-- ===== src/Relay/Marking.antt =====
-- markPublishedWithRetry of internal/outbox/relay.go: which rows it changes.
use arvan.Prelude.{⊤, ℕ, zero, suc, Bool, false, List, [], ◌∷◌, ◌≡◌, refl, ◌⊎◌, inl, inr, arith}
use arvan.Prelude.Lists.{update}
use arvan.Domain.{Uuid, Time, Error, Result, ok, err}
use arvan.Database.{OutboxEventModel, Tables, Env, Exec, pure, attempt, time_now, ◌>>=◌}
use arvan.Database.Sql.{first}
use arvan.Database.Keeps.{
  Keeps, Keeps-bind, Keeps-pure, Keeps-raise, Keeps-attempt, Keeps-statement, Keeps-if,
}
use arvan.Repository.Outbox.{event_by_id}
use arvan.Repository.OutboxRelay
use arvan.Repository.OutboxRelay.{is_published_status, pending_row, update_pending, set_published}
use arvan.Relay.{
  Phase, mark, confirmed, checked_again, attempted_mark, retry_mark, mark_published_with_retry,
  phase_error,
}

-- A second UPDATE whose clause the first has made false.
update_again :
    {A : Type 0} (p : A → Bool) (f g : A → A) (xs : List A)
    → ((x : A) → p (f x) ≡ false)
    → update p g (update p f xs) ≡ update p f xs
update_again p f g [] out = refl
update_again p f g (x ∷ xs) out = ground (arith, out x, update_again p f g xs out)

-- The tables as they were, but that the pending row of the event may be published, at some time.
abbrev pub Marks : Uuid → Tables → Tables → Type 0
Marks id t u =
    (u ≡ t)
    ⊎ ((now : Time) × (u ≡ record t {
      outbox_events = update (pending_row id) (set_published now) t.outbox_events;
    }))

module _ (env : Env) where
  pub is_published-Keeps :
      (P : Tables → Type 0) (id : Uuid) → Keeps P (OutboxRelay.is_published env id)
  unfolding OutboxRelay.is_published
  is_published-Keeps P id =
      Keeps-bind _ (λ model. pure (is_published_status model.status))
        (Keeps-statement env (first (λ t. t.outbox_events) (event_by_id id)) (λ t h. h))
        (λ model. Keeps-pure (is_published_status model.status))

  module _ (id : Uuid) (t : Tables) where
    published_out :
        (now : Time) (x : OutboxEventModel) → pending_row id (set_published now x) ≡ false
    published_out now x = ground arith

    update-Marks :
        (now : Time) (u : Tables)
        → Marks id t u
        → Marks id t (update_pending id (set_published now) u).1
    unfolding update_pending
    update-Marks now u (inl same) = inr (now, rw same refl)
    update-Marks now u (inr (before, is)) = inr (
      before,
      rw
          (
            is,
            update_again (pending_row id) (set_published before) (set_published now) t.outbox_events
                (published_out before),
          )
          refl,
    )

    marked-Marks : (n : ℕ) → Keeps (Marks id t) (OutboxRelay.marked_or_published env id n)
    unfolding OutboxRelay.marked_or_published
    marked-Marks (suc n) = Keeps-pure tt
    marked-Marks zero =
        Keeps-bind (OutboxRelay.is_published env id) _ (is_published-Keeps (Marks id t) id)
          (λ b. Keeps-if b _ _ (Keeps-pure tt) (Keeps-raise _))

    mark_published-Marks : Keeps (Marks id t) (OutboxRelay.mark_published env id)
    unfolding OutboxRelay.mark_published
    mark_published-Marks =
        Keeps-bind (time_now env) _ (record { at = λ s h. h })
          λ now.
            Keeps-bind _ (OutboxRelay.marked_or_published env id)
              (Keeps-statement env (update_pending id (set_published now)) (update-Marks now))
              marked-Marks

    attempted_mark-Marks :
        (go_on : Error → Exec ⊤) (r : Result ⊤)
        → ((e : Error) → Keeps (Marks id t) (go_on e))
        → Keeps (Marks id t) (attempted_mark env id go_on r)
    attempted_mark-Marks go_on (ok _) h = Keeps-pure tt
    attempted_mark-Marks go_on (err e) h =
        Keeps-bind (attempt (OutboxRelay.is_published env id)) (checked_again env (go_on e))
          (Keeps-attempt _ (is_published-Keeps (Marks id t) id))
          (λ again. Keeps-if (confirmed again) _ _ (Keeps-pure tt) (h e))

    retry_mark-Marks : (left : ℕ) (e : Error) → Keeps (Marks id t) (retry_mark env id left e)
    unfolding retry_mark
    retry_mark-Marks zero e = Keeps-raise e
    retry_mark-Marks (suc left) e =
        Keeps-bind (attempt (OutboxRelay.mark_published env id)) _
          (Keeps-attempt _ mark_published-Marks)
          (λ r. attempted_mark-Marks (retry_mark env id left) r (retry_mark-Marks left))

    phase_error-Keeps :
        (phase : Phase) (r : Result ⊤) → Keeps (Marks id t) (phase_error env phase r)
    phase_error-Keeps phase (ok _) = Keeps-pure _
    phase_error-Keeps phase (err e) = Keeps-pure _

    pub retried-Marks :
        Keeps (Marks id t) (attempt (mark_published_with_retry env id) >>= phase_error env mark)
    unfolding mark_published_with_retry
    retried-Marks =
        Keeps-bind (attempt (retry_mark env id _ _)) _ (Keeps-attempt _ (retry_mark-Marks _ _))
          (phase_error-Keeps mark)
