-- ===== src/Worker/Processor/Calls/Claimed.antt =====
-- handleDelivery of internal/worker/processor.go on a message that is claimed.
use arvan.Prelude.{Bool, true, false, ◌≡◌, refl, arith, if◌then◌else◌}
use arvan.Prelude.Lists.{has}
use arvan.Domain.{Uuid, SmsSendPayload, SmsMessage, not_found, Result, ok, err}
use arvan.Database.{ProcessedConsumerEventModel, Tables, Env, Exec, Session, pure, attempt, ◌>>=◌}
use arvan.Database.Keeps.{Keeps, Keeps-bind, Keeps-pure}
use arvan.Database.Laws.{
  Yields, Yields-bind, Yields-weaken, Yields-if, Ends, transaction-Ends, statement-Yields,
}
use arvan.Database.Silent.{operator_calls}
use arvan.Database.Sql.Laws.{Keeps-first}
use arvan.Repository.Sms
use arvan.Repository.Sms.{by_account_and_id}
use arvan.Repository.ProcessedConsumer
use arvan.Repository.ProcessedConsumer.{by_message_id, insert_if_new}
use arvan.Worker.Processor.{
  Delivery, Config, Claim, acquired, already_done, in_progress, resume, is_final,
  should_dead_letter, claim_taken, claim_inserted, claim_found, claim_tx, claim_delivery, proceed,
  process,
}
use arvan.Worker.Processor.Calls.{
  claim_delivery-Silent, dead_letter-Silent, finish_send-Silent, or_requeue-Silent,
}

-- Whether a row of processed_consumer_events has the message's id.
unfoldable pub is_claimed : Uuid → Tables → Bool
is_claimed message_id t = has (by_message_id message_id) t.processed_consumer_events

is_acquired : Claim → Bool
is_acquired acquired = true
is_acquired _ = false

attempt-Yields :
    {A : Type 0} (P : Tables → Type 0) (m : Exec A) (s : Session)
    → Keeps P m
    → P s.tables
    → Yields (λ _ t. P t.tables) (attempt m s)
attempt-Yields P m s k h = record { holds = k.at s h }

either :
    {A : Type 0} (b : Bool) (m n : Exec A) (s : Session)
    → operator_calls (m s).1.effects ≡ operator_calls s.effects
    → operator_calls (n s).1.effects ≡ operator_calls s.effects
    → operator_calls ((if b then m else n) s).1.effects ≡ operator_calls s.effects
either true m n s h k = h
either false m n s h k = k

module _ (env : Env) (m : Uuid) where
  abbrev Taken : Tables → Type 0
  Taken t = is_claimed m t ≡ true

  read-Taken : (a : Uuid) → Keeps Taken (Sms.get_by_account_and_id env a m)
  unfolding Sms.get_by_account_and_id
  read-Taken a =
      Keeps-bind _ _ (Keeps-first env (λ t. t.sms_messages) (by_account_and_id a m))
        (λ model. Keeps-pure (Sms.to_domain_sms model))

  again :
      (final redelivered : Bool)
      → is_acquired (if final then already_done else if redelivered then resume else in_progress)
        ≡ false
  unfolding is_acquired
  again true redelivered = refl
  again false true = refl
  again false false = refl

  claim_taken-Yields :
      (redelivered : Bool) (r : Result SmsMessage) (s : Session)
      → Yields (λ c _. is_acquired c ≡ false) (claim_taken env redelivered r s)
  unfolding claim_taken is_acquired
  claim_taken-Yields redelivered (ok msg) s = record {
    holds = again (is_final msg.status) redelivered;
  }
  claim_taken-Yields redelivered (err not_found) s = record { holds = refl }
  claim_taken-Yields redelivered (err e) s = record { holds = tt }

  claim_inserted-Yields :
      (a : Uuid) (redelivered b : Bool) (s : Session)
      → b ≡ false
      → Yields (λ c _. is_acquired c ≡ false) (claim_inserted env a m redelivered b s)
  unfolding claim_inserted
  claim_inserted-Yields a redelivered true s e = record { holds = absurd (ground (arith, e)) }
  claim_inserted-Yields a redelivered false s e = claim_taken-Yields redelivered _ _

  insert-taken :
      (e : ProcessedConsumerEventModel) (t u : Tables) (b : Bool)
      → is_claimed e.message_id t ≡ true
      → insert_if_new e t ≡ (ok b, u)
      → b ≡ false
  unfolding insert_if_new is_claimed
  insert-taken e t u b h = ground (arith, h)

  mark-Yields :
      (s : Session)
      → Taken s.tables
      → Yields (λ b _. b ≡ false) (ProcessedConsumer.mark_processed_if_new env m s)
  unfolding ProcessedConsumer.mark_processed_if_new
  mark-Yields s h = Yields-weaken (statement-Yields env (insert_if_new _) _) (λ b t e.
      insert-taken (record { message_id = m; processed_at = env.now s.step }) s.tables t.tables b h
        e)

  claim_found-Yields :
      (a : Uuid) (redelivered : Bool) (r : Result SmsMessage) (s : Session)
      → Taken s.tables
      → Yields (λ c _. is_acquired c ≡ false) (claim_found env a m redelivered r s)
  unfolding claim_found is_acquired
  claim_found-Yields a redelivered (err not_found) s h = record { holds = refl }
  claim_found-Yields a redelivered (err e) s h = record { holds = tt }
  claim_found-Yields a redelivered (ok msg) s h =
      Yields-if (is_final msg.status) (pure already_done) _ s (record { holds = refl })
        (Yields-bind (mark-Yields s h) (λ b t e. claim_inserted-Yields a redelivered b t e))

  claim_tx-Yields :
      (a : Uuid) (redelivered : Bool) (s : Session)
      → Taken s.tables
      → Yields (λ c _. is_acquired c ≡ false) (claim_tx env a m redelivered s)
  unfolding claim_tx
  claim_tx-Yields a redelivered s h =
      Yields-bind (attempt-Yields Taken (Sms.get_by_account_and_id env a m) s (read-Taken a) h)
        (λ r t k. claim_found-Yields a redelivered r t k)

  proceed-Silent :
      (payload : SmsSendPayload) (a : Uuid) (t : Tables) (r : Result Claim × Session)
      → Ends (λ c _. is_acquired c ≡ false) t r
      → operator_calls (proceed env payload a m r.0 r.1).1.effects ≡ operator_calls r.1.effects
  unfolding proceed is_acquired
  proceed-Silent payload a t (err e, s) h = refl
  proceed-Silent payload a t (ok already_done, s) h = refl
  proceed-Silent payload a t (ok in_progress, s) h = refl
  proceed-Silent payload a t (ok resume, s) h = (finish_send-Silent env a m (ok tt)).at s
  proceed-Silent payload a t (ok acquired, s) h = absurd (ground (arith, h))

  claim-Ends :
      (a : Uuid) (redelivered : Bool) (s : Session)
      → Taken s.tables
      → Ends (λ c _. is_acquired c ≡ false) s.tables (claim_delivery env a m redelivered s)
  unfolding claim_delivery
  claim-Ends a redelivered s h =
      transaction-Ends (λ c _. is_acquired c ≡ false) env (claim_tx env a m redelivered) s
        (λ s' e. claim_tx-Yields a redelivered s' (rw (e, h)))

  claimed :
      (payload : SmsSendPayload) (a : Uuid) (redelivered : Bool) (s : Session)
      → Taken s.tables
      → operator_calls
          ((attempt (claim_delivery env a m redelivered) >>= proceed env payload a m) s).1.effects
        ≡ operator_calls s.effects
  claimed payload a redelivered s h = rw (
    proceed-Silent payload a s.tables (claim_delivery env a m redelivered s)
        (claim-Ends a redelivered s h),
    (claim_delivery-Silent env a m redelivered).at s,
  )

-- While a message has a row in processed_consumer_events, no delivery of it calls the operator,
-- whatever the outcomes of the statements.
pub process-claimed :
    (env : Env) (cfg : Config) (d : Delivery) (payload : SmsSendPayload)
    (account_id message_id : Uuid) (s : Session)
    → is_claimed message_id s.tables ≡ true
    → operator_calls (process env cfg d payload account_id message_id s).1.effects
      ≡ operator_calls s.effects
unfolding process
process-claimed env cfg d payload account_id message_id s h =
    either (should_dead_letter cfg d) _ _ s
      ((or_requeue-Silent env _ (dead_letter-Silent env cfg account_id message_id d.body)).at s)
      (claimed env message_id payload account_id d.redelivered s h)
