-- ===== src/Tests/Claiming.antt =====
-- Claims of the relay at concrete inputs.
use arvan.Prelude.{◌≡◌, ◌≢◌, refl, inl, some, [], ◌∷◌, arith}
use arvan.Prelude.Int.{pos}
use arvan.Domain.{OutboxEventRecord, ok}
use arvan.Database.{Env, Session, OutboxEventModel, statement, transaction}
use arvan.Database.Laws.{Ends}
use arvan.Repository.OutboxRelay.{
  to_domain_outbox, claim_pending_batch, pending_batch, lock_batch, lock_rows,
}
use arvan.Repository.OutboxRelay.Claims.{ClaimedAt, claim_pending_batch-Ends, claims-Disjoint}
use arvan.Tests.{env, tables, session}
use arvan.Tests.Worker.{event_row}

abbrev noon : Env
noon = record env { now = λ _. 9 }

abbrev pub later_row : OutboxEventModel
later_row = record event_row { id = 5; created_at = 2 }

abbrev pub two_events : Session
two_events = record session {
  tables = record tables { outbox_events = later_row ∷ event_row ∷ [] };
}

claim_pending_batch-Ends_example :
    Ends
      (λ claimed u. ClaimedAt noon (pos 1) 30 claimed two_events.tables u)
      two_events.tables
      (claim_pending_batch noon (pos 1) 30 two_events)
claim_pending_batch-Ends_example = claim_pending_batch-Ends noon (pos 1) 30 two_events

abbrev first_left : Session
first_left = (claim_pending_batch noon (pos 1) 30 two_events).1

abbrev second_left : Session
second_left = (claim_pending_batch noon (pos 1) 30 first_left).1

abbrev first_event : OutboxEventRecord
first_event = record (to_domain_outbox event_row) { locked_until = some 39 }

abbrev second_event : OutboxEventRecord
second_event = record (to_domain_outbox later_row) { locked_until = some 39 }

first_claim : claim_pending_batch noon (pos 1) 30 two_events ≡ (ok (first_event ∷ []), first_left)
unfolding claim_pending_batch transaction statement pending_batch lock_batch lock_rows
    to_domain_outbox
first_claim = refl

second_claim :
    claim_pending_batch noon (pos 1) 30 first_left ≡ (ok (second_event ∷ []), second_left)
unfolding claim_pending_batch transaction statement pending_batch lock_batch lock_rows
    to_domain_outbox
second_claim = refl

claims-Disjoint_example : second_event.id ≢ first_event.id
claims-Disjoint_example =
    claims-Disjoint noon (pos 1) 30 two_events first_left first_left second_left (first_event ∷ [])
      (second_event ∷ []) first_event second_event (λ j k. omega arith) first_claim refl
      second_claim (inl refl) (inl refl)
