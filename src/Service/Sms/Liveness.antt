-- ===== src/Service/Sms/Liveness.antt =====
-- SMSService.Send of internal/service/sms.go answers where every statement is done.
use arvan.Prelude.{
  subst, sym, ℕ, suc, Bool, true, false, String, Option, none, some, ◌≡◌, refl, List, [], ◌∷◌, ◌++◌,
  arith, ◌==◌,
}
use arvan.Prelude.Int.{◌≤ℤ◌, IsInt64}
use arvan.Prelude.Lists.{find, has, count, count-append}
use arvan.Domain.{Uuid, Encoding, SendSmsInput, IdempotencyRecord, sms_cost_per_message, ok}
use arvan.Repository.Outbox.{event_by_id}
use arvan.Database.{SmsMessageModel, AccountModel, IdempotencyKeyModel, done, Env, Session}
use arvan.Database.Success.{Succeeds, Succeeds-ok, Succeeds-bind, transaction-Succeeds}
use arvan.Repository.Account.{by_id}
use arvan.Repository.Idempotency.{by_account_and_key}
use arvan.Repository.Success.{found-has}
use arvan.Repository.Success.Inserts.{claim-Succeeds}
use arvan.Service.Sms.{
  active_key, validate_send_input, accepted_result, charge, charge_or_replay, send_tx, accept, send,
}
use arvan.Service.Sms.Acceptance.{cache_response_lem}
use arvan.Service.Sms.Success.{HasFreshIds, IsUnclaimed, charge-Succeeds}

-- A row that has just been added is counted.
count-added :
    (p : IdempotencyKeyModel → Bool) (rows : List IdempotencyKeyModel) (m : IdempotencyKeyModel)
    → p m ≡ true
    → (count p (rows ++ m ∷ []) == 0) ≡ false
count-added p rows m h = rw (count-append p rows (m ∷ []), h) (ground arith)

module _ (env : Env) (all_done : (n : ℕ) → env.outcome n ≡ done) (account_id : Uuid)
    (input : SendSmsInput) (encoding : Encoding) (row : AccountModel)
    (funded : sms_cost_per_message ≤ℤ row.balance) (fits : IsInt64 row.balance) where
  module _ (message_id outbox_id : Uuid) where
    -- A claim that is new goes on to the charge.
    new-Succeeds :
        (claim : IdempotencyRecord × Bool) (s : Session)
        → claim.1 ≡ true
        → Succeeds
            (λ r _. r ≡ accepted_result message_id)
            (charge env account_id input encoding message_id outbox_id s)
        → Succeeds
            (λ r _. r ≡ accepted_result message_id)
            (charge_or_replay env account_id input encoding message_id outbox_id claim s)
    unfolding charge_or_replay
    new-Succeeds (existing, true) s is_new h = h
    new-Succeeds (existing, false) s is_new h = absurd (ground arith)

    send_tx-Succeeds :
        (key : Option String) (s : Session)
        → active_key input.idempotency_key ≡ key
        → find (by_id account_id) s.tables.accounts ≡ some row
        → HasFreshIds env s.tables
        → has (λ (m : SmsMessageModel). m.id == message_id) s.tables.sms_messages ≡ false
        → has (event_by_id outbox_id) s.tables.outbox_events ≡ false
        → IsUnclaimed account_id key s.tables
        → Succeeds
            (λ r _. r ≡ accepted_result message_id)
            (send_tx env account_id input encoding message_id outbox_id key s)
    unfolding send_tx
    send_tx-Succeeds none s is_key at fresh sms event unclaimed =
        charge-Succeeds env all_done account_id input encoding message_id outbox_id row s at funded
          fits (record { ledger = fresh.ledger; sms = sms; event = event; key = rw is_key tt })
    send_tx-Succeeds (some key) s is_key at fresh sms event unclaimed =
        Succeeds-bind _ _
          (claim-Succeeds env all_done account_id key s fresh.keys unclaimed
            (found-has (by_id account_id) _ row at))
          λ claim t (is_new, (m, by_key, t_is)). new-Succeeds claim t is_new (
            charge-Succeeds env all_done account_id input encoding message_id outbox_id row t
              (rw t_is at) funded fits
              (record {
                ledger = λ n. rw t_is (fresh.ledger n);
                sms = rw t_is sms;
                event = rw t_is event;
                key =
                    rw (is_key, t_is)
                      (count-added (by_account_and_key account_id key) s.tables.idempotency_keys m
                        by_key);
              }))

  accept-Succeeds :
      (s : Session)
      → find (by_id account_id) s.tables.accounts ≡ some row
      → HasFreshIds env s.tables
      → IsUnclaimed account_id (active_key input.idempotency_key) s.tables
      → Succeeds
          (λ r _. r ≡ accepted_result (env.new_uuid s.step))
          (accept env account_id input encoding s)
  unfolding accept
  accept-Succeeds s at fresh unclaimed =
      Succeeds-bind _ _
        (transaction-Succeeds env all_done (λ r _. r ≡ accepted_result (env.new_uuid s.step)) _
          (record s { step = suc (suc s.step) })
          (λ s' same.
            send_tx-Succeeds (env.new_uuid s.step) (env.new_uuid (suc s.step))
              (active_key input.idempotency_key) s' refl (rw same at)
              (record {
                ledger = λ n. rw same (fresh.ledger n);
                messages = λ n. rw same (fresh.messages n);
                events = λ n. rw same (fresh.events n);
                keys = λ n. rw same (fresh.keys n);
              })
              (rw same (fresh.messages s.step)) (rw same (fresh.events (suc s.step)))
              (subst (IsUnclaimed account_id (active_key input.idempotency_key)) (sym same)
                unclaimed)))
        λ r t is_accepted.
          let (u, cached, _) =
            cache_response_lem env account_id input (active_key input.idempotency_key) r t in
          rw cached (Succeeds-ok _ r u is_accepted)

-- Where every statement is done, the request is valid, the account exists and its balance fits an
-- int64 and covers the cost, no row has an identifier that will be drawn, and nobody has claimed
-- the request's key, if it has one: a send succeeds and answers the first identifier that it draws,
-- with the status accepted.
pub send-Succeeds :
    (env : Env) (account_id : Uuid) (input : SendSmsInput) (encoding : Encoding)
    (row : AccountModel) (s : Session)
    → ((n : ℕ) → env.outcome n ≡ done)
    → validate_send_input input ≡ ok encoding
    → find (by_id account_id) s.tables.accounts ≡ some row
    → sms_cost_per_message ≤ℤ row.balance
    → IsInt64 row.balance
    → HasFreshIds env s.tables
    → IsUnclaimed account_id (active_key input.idempotency_key) s.tables
    → Succeeds (λ r _. r ≡ accepted_result (env.new_uuid s.step)) (send env account_id input s)
unfolding send
send-Succeeds env account_id input encoding row s all_done valid at funded fits fresh unclaimed =
    rw valid
      (accept-Succeeds env all_done account_id input encoding row funded fits s at fresh unclaimed)
