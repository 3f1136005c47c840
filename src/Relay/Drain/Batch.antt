-- ===== src/Relay/Drain/Batch.antt =====
-- pollOnce of internal/outbox/relay.go where every statement is done.
use arvan.Prelude.{ℕ, ◌+◌, none, some, [], ◌∷◌, ◌≡◌, refl, sym, ◌∙◌, inl, arith}
use arvan.Prelude.Lists.{update, length}
use arvan.Domain.{Time, encoded, SmsSendPayload, OutboxEventRecord, ok}
use arvan.Database.{OutboxEventModel, done, Env, Session, published_to}
use arvan.Repository.OutboxRelay.{to_domain_outbox, pending_row, set_published, claimed_until}
use arvan.Relay.{queue_for_message_type, publish_event, after_publish, publish_all}
use arvan.Relay.Drain.Rows.{Rows, find_distinct}
use arvan.Relay.Drain.Event.{publish_event-Delivered}
use arvan.Relay.Drain.Progress.{
  Progress, Progress-refl, Progress-trans, Underway, Underway-published, Progress-published,
}

-- The claimed event of a row.
abbrev claimed : Time → OutboxEventModel → OutboxEventRecord
claimed until m = record (to_domain_outbox m) { locked_until = some until }

-- From one session to another: the batch is published, and as many payloads more have left.
pub record Advances (rest : Rows) (batch : ℕ) (s u : Session) : Type 0 where
  pub underway : Underway rest u.tables.outbox_events
  pub progress : Progress s.tables.outbox_events s.effects u.tables.outbox_events u.effects
  pub sent : length u.effects ≡ length s.effects + batch

pub Advances-trans :
    (before rest : Rows) (n k total : ℕ) (s v u : Session)
    → n + k ≡ total
    → Advances before n s v
    → Advances rest k v u
    → Advances rest total s u
Advances-trans before rest n k total s v u e g h = record {
  underway = h.underway;
  progress = Progress-trans _ _ _ _ _ _ g.progress h.progress;
  sent = omega (arith, e, g.sent, h.sent);
}

module _ (env : Env) (all_done : (n : ℕ) → env.outcome n ≡ done) where
  first_published :
      (m : OutboxEventModel) (rest : Rows) (until : Time) (s : Session)
      → Underway (m ∷ rest) s.tables.outbox_events
      → (u : Session) × (publish_event env (claimed until m) s ≡ (ok none, u)) × Advances rest 1 s u
  unfolding to_domain_outbox
  first_published m rest until s h =
      let (r, in_rows, same, body, is_one) = h.waiting m (inl refl) in
      let (payload, e) = h.readable r in_rows is_one in
      let (u, runs, (k, tables, effects)) =
        publish_event-Delivered env all_done (claimed until m) payload r s (sym body ∙ e)
          (find_distinct r m.id _ h.distinct in_rows same) is_one in
      (u, runs, advances u k payload (sym body ∙ e) tables effects)
    where
      advances :
          (u : Session) (k : ℕ) (payload : SmsSendPayload)
          → m.payload ≡ encoded payload
          → u.tables ≡ record s.tables {
            outbox_events =
                update (pending_row m.id) (set_published (env.now k)) s.tables.outbox_events;
          }
          → u.effects
            ≡ published_to (queue_for_message_type payload.message_type) m.payload ∷ s.effects
          → Advances rest 1 s u
      advances u k payload e tables effects = record {
        underway = rw tables (Underway-published m rest (env.now k) s.tables.outbox_events h);
        progress =
            rw (tables, effects)
              (Progress-published m rest (env.now k) s.tables.outbox_events h s.effects payload e);
        sent = rw effects (omega arith);
      }

  pub publish_all-Advances :
      (batch : Rows) (until : Time) (s : Session)
      → Underway batch s.tables.outbox_events
      → (u : Session) × (publish_all env (claimed_until until batch) s ≡ (ok tt, u))
        × Advances [] (length batch) s u
  unfolding publish_all after_publish
  publish_all-Advances [] until s h =
      (s, refl, record { underway = h; progress = Progress-refl _ _; sent = omega arith })
  publish_all-Advances (m ∷ rest) until s h =
      let (v, runs, first) = first_published m rest until s h in
      let (u, runs', others) = publish_all-Advances rest until v first.underway in
      (u, rw runs runs', Advances-trans rest [] 1 (length rest) _ s v u (omega arith) first others)
