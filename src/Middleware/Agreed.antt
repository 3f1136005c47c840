-- ===== src/Middleware/Agreed.antt =====
-- The Idempotency middleware of internal/middleware/idempotency.go behind the requests that filled its cache.
use arvan.Prelude.{⊤, String, some, List, [], ◌≡◌, ◌≢◌, refl, sym, ◌∙◌, inl, inr, arith}
use arvan.Prelude.Lists.{find}
use arvan.Domain.{Uuid, SendSmsInput, IdempotencyResponse}
use arvan.Domain.Idempotency.{parse_idempotency_response}
use arvan.Database.{IdempotencyKeyModel, Tables, Env, Session}
use arvan.Database.Success.{Succeeds, Succeeds-weaken}
use arvan.Repository.Idempotency.{by_account_and_key}
use arvan.Middleware.{
  Verdict, passed, invalid_key, lookup_failed, in_progress, answered, idempotency,
}
use arvan.Middleware.Stored.{Says, idempotency-Says}
use arvan.Service.Sms.Held.{send_all}
use arvan.Service.Sms.Agreement.{Agrees, send_all-Agrees}

-- A response that the middleware answers has the identifier and the status of the one in the row of the
-- account's key, whether it comes from there or from the cache.
abbrev pub AsStored : Env → Uuid → String → Tables → Verdict → Type 0
AsStored env account_id key t (answered resp) =
    (row : IdempotencyKeyModel) × (held : IdempotencyResponse) × (find
        (by_account_and_key account_id key) t.idempotency_keys
      ≡ some row)
    × (parse_idempotency_response row.response_snapshot ≡ some held)
    × (env.uuid_parse resp.message_id ≡ env.uuid_parse held.message_id)
    × (resp.status ≡ held.status)
AsStored env account_id key t _ = ⊤

module _ (env : Env) (parses : (id : Uuid) → env.uuid_parse (env.uuid_string id) ≡ some id)
    (prints : (id : Uuid) → env.uuid_string id ≢ "") where
  empty-Agrees : (s : Session) → s.cache ≡ [] → Agrees env parses prints s
  empty-Agrees s empty = record {
    backed = λ account_id key resp hit. absurd (ground (arith, rw empty at hit));
  }

  Says-AsStored :
      (account_id : Uuid) (key : String) (s : Session) (v : Verdict)
      → Agrees env parses prints s
      → Says account_id key s v
      → AsStored env account_id key s.tables v
  Says-AsStored account_id key s (answered resp) agrees (inl hit) =
      let b = agrees.backed account_id key resp hit in
      (
        b.stored.row,
        b.stored.cached,
        b.stored.at_key,
        b.stored.parsed,
        b.id ∙ sym b.stored.id,
        b.status ∙ b.stored.status,
      )
  Says-AsStored account_id key s (answered resp) agrees (inr (row, at_key, parsed)) =
      (row, resp, at_key, parsed, refl, refl)
  Says-AsStored account_id key s (passed k) agrees says = tt
  Says-AsStored account_id key s invalid_key agrees says = tt
  Says-AsStored account_id key s lookup_failed agrees says = tt
  Says-AsStored account_id key s in_progress agrees says = tt

  -- Where a UUID is parsed back from its text and no text of a UUID is empty: behind any sends of any
  -- clients that began with an empty cache, whatever the environment does to them, a response that the
  -- middleware answers for an account and a key, from the cache or from the database, has the identifier
  -- and the status of the one that the row of the key holds, and the tables stay as they were.
  pub idempotency-AsStored :
      (requests : List (Uuid × SendSmsInput)) (account_id : Uuid) (key : String) (s : Session)
      → s.cache ≡ []
      → Succeeds
          (λ v t.
            AsStored env account_id key (send_all env requests s).tables v
            × (t ≡ (send_all env requests s).tables))
          (idempotency env key (some account_id) (send_all env requests s))
  idempotency-AsStored requests account_id key s empty =
      let agrees = send_all-Agrees env parses prints requests s (empty-Agrees s empty) in
      Succeeds-weaken (idempotency-Says env account_id key (send_all env requests s))
        (λ v t (says, same).
          (Says-AsStored account_id key (send_all env requests s) v agrees says, same))
