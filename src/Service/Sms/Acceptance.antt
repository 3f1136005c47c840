-- ===== src/Service/Sms/Acceptance.antt =====
-- The branches of SMSService.Send of internal/service/sms.go.
use arvan.Prelude.{
  String, Bool, true, false, Option, none, some, ◌≡◌, refl, ◌⊎◌, inl, inr, suc, arith, subst, sym,
  ◌∙◌,
}
use arvan.Prelude.Lists.{find}
use arvan.Domain.{
  Uuid, Encoding, SendSmsInput, SendSmsResult, IdempotencyRecord, IdempotencyResponse, Result, ok,
  err,
}
use arvan.Domain.Idempotency.{parse_idempotency_response}
use arvan.Database.{IdempotencyKeyModel, Tables, Env, Session, pure, ◌>>◌, continue}
use arvan.Database.Laws.{Yields, Yields-bind, Yields-weaken, Ends, transaction-Ends}
use arvan.Repository.Idempotency.{by_account_and_key, to_domain_idempotency}
use arvan.Repository.Idempotency.Laws.{Claimed, ClaimsOrGets, claim_or_get-Yields}
use arvan.Service.Sms.{
  active_key, accepted_result, validate_send_input, replay_as, replay, charge_or_replay, send_tx,
  cache_response, accept, send,
}
use arvan.Cache.Laws.{set-tables}
use arvan.Service.Sms.Charge.{Charged, charge-Yields}

module _ (env : Env) (account_id : Uuid) (input : SendSmsInput) where
  -- The request was charged: with no key at once, and with a key behind its claim.
  abbrev pub FreshlyCharged : Option String → Encoding → Uuid → Uuid → Tables → Tables → Type 0
  FreshlyCharged none encoding message_id outbox_id t u =
      Charged env account_id input encoding message_id outbox_id t u
  FreshlyCharged (some key) encoding message_id outbox_id t u =
      (v : Tables) × Claimed account_id key t v
      × Charged env account_id input encoding message_id outbox_id v u

  -- The request was answered from the snapshot under its key, and nothing changed.
  abbrev pub Replayed : Option String → Tables → SendSmsResult → Tables → Type 0
  Replayed none t r u = ⊥
  Replayed (some key) t r u =
      (row : IdempotencyKeyModel) × (cached : IdempotencyResponse) × (find
          (by_account_and_key account_id key) t.idempotency_keys
        ≡ some row)
      × (parse_idempotency_response row.response_snapshot ≡ some cached)
      × (env.uuid_parse cached.message_id ≡ some r.message_id)
      × (r.status ≡ cached.status)
      × (u ≡ t)

  abbrev pub Answers :
      Option String → Encoding → Uuid → Uuid → Tables → SendSmsResult → Tables → Type 0
  Answers key encoding message_id outbox_id t r u =
      ((r ≡ accepted_result message_id) × FreshlyCharged key encoding message_id outbox_id t u)
      ⊎ Replayed key t r u

  replay_as-Yields :
      (status : String) (id : Option Uuid) (s : Session)
      → Yields
          (λ r u. (id ≡ some r.message_id) × (r.status ≡ status) × (u.tables ≡ s.tables))
          (replay_as env status id s)
  unfolding replay_as
  replay_as-Yields status none s = record { holds = tt }
  replay_as-Yields status (some id) s = record { holds = (refl, refl, refl) }

  replay-Yields :
      (found : Option IdempotencyResponse) (s : Session)
      → Yields
          (λ r u.
            (cached : IdempotencyResponse) × (found ≡ some cached)
            × (env.uuid_parse cached.message_id ≡ some r.message_id)
            × (r.status ≡ cached.status)
            × (u.tables ≡ s.tables))
          (replay env found s)
  unfolding replay
  replay-Yields none s = record { holds = tt }
  replay-Yields (some cached) s =
      Yields-weaken (replay_as-Yields cached.status (env.uuid_parse cached.message_id) s)
        (λ r u (id, status, same). (cached, refl, id, status, same))

  module _ (encoding : Encoding) (message_id outbox_id : Uuid) where
    charge_or_replay-Yields :
        (key : String) (t : Tables) (claim : IdempotencyRecord × Bool) (s : Session)
        → ClaimsOrGets account_id key t claim s.tables
        → Yields
            (λ r u. Answers (some key) encoding message_id outbox_id t r u.tables)
            (charge_or_replay env account_id input encoding message_id outbox_id claim s)
    unfolding charge_or_replay to_domain_idempotency
    charge_or_replay-Yields key t (existing, true) s claimed =
        Yields-weaken (charge-Yields env account_id input encoding message_id outbox_id s)
          (λ r u (r_is, charged). inl (r_is, (s.tables, claimed, charged)))
    charge_or_replay-Yields key t (existing, false) s (row, at_key, is_row, same) =
        Yields-weaken (replay-Yields (parse_idempotency_response existing.response_snapshot) s)
          λ r u (cached, parsed, id, status, unchanged).
            inr (row, cached, at_key, rw is_row at parsed, id, status, unchanged ∙ same)

    send_tx-Yields :
        (key : Option String) (s : Session)
        → Yields
            (λ r u. Answers key encoding message_id outbox_id s.tables r u.tables)
            (send_tx env account_id input encoding message_id outbox_id key s)
    unfolding send_tx
    send_tx-Yields none s =
        Yields-weaken (charge-Yields env account_id input encoding message_id outbox_id s)
          (λ r u h. inl h)
    send_tx-Yields (some key) s =
        Yields-bind (claim_or_get-Yields env account_id key s)
          (λ claim t h. charge_or_replay-Yields key s.tables claim t h)

  -- Whatever the environment does, Send answers an accepted or a repeated request, and leaves the
  -- rows of that answer; under an error the tables are as they were, unless the database lost the
  -- acknowledgement of a commit that took effect.
  abbrev pub SendEnds : Session → Result SendSmsResult × Session → Type 0
  SendEnds s =
      Ends
        (λ r u.
          (encoding : Encoding) × (validate_send_input input ≡ ok encoding)
          × Answers (active_key input.idempotency_key) encoding (env.new_uuid s.step)
              (env.new_uuid (suc s.step)) s.tables r u)
        s.tables

  -- The cache is no part of the tables, and its errors are not the caller's.
  pub cache_response_lem :
      (key : Option String) (r : SendSmsResult) (s : Session)
      → (s' : Session) × (cache_response env account_id key r s ≡ (ok tt, s'))
        × (s'.tables ≡ s.tables)
  unfolding cache_response
  cache_response_lem none r s = (s, refl, refl)
  cache_response_lem (some key) r s =
      let resp : IdempotencyResponse = record {
        message_id = env.uuid_string r.message_id;
        status = r.status;
      } in
      (
        (cache_response env account_id (some key) r s).1,
        ground arith,
        ground (arith, set-tables env account_id key resp s),
      )

  behind_commit-Ends :
      (Post : SendSmsResult → Tables → Type 0) (key : Option String) (t : Tables)
      (out : Result SendSmsResult × Session)
      → Ends Post t out
      → Ends Post t (continue (λ r. cache_response env account_id key r >> pure r) out)
  behind_commit-Ends Post key t (err e, s) h = h
  behind_commit-Ends Post key t (ok r, s) h =
      let (s', answered, same) = cache_response_lem key r s in
      rw answered (subst (Post r) (sym same) h)

  send_validated :
      (s : Session) (v : Result Encoding)
      → validate_send_input input ≡ v
      → SendEnds s (continue (accept env account_id input) (v, s))
  unfolding accept
  send_validated s (err e) valid = inl refl
  send_validated s (ok encoding) valid =
      behind_commit-Ends _ (active_key input.idempotency_key) s.tables _ (
        transaction-Ends _ env _ _ λ s' same.
          Yields-weaken
            (send_tx-Yields encoding (env.new_uuid s.step) (env.new_uuid (suc s.step))
              (active_key input.idempotency_key) s')
            (λ r u answers. (
              encoding,
              valid,
              subst
                  (λ t.
                    Answers (active_key input.idempotency_key) encoding (env.new_uuid s.step)
                      (env.new_uuid (suc s.step)) t r u.tables)
                  same answers,
            )))

  -- Whatever the environment does: a request that is accepted was charged exactly once, with one
  -- ledger entry, one message and one outbox event that name one another, or, under a key whose
  -- response is stored, is answered from there with no change. A request that is refused leaves the
  -- tables as they were, but for a commit whose acknowledgement was lost.
  pub send-Ends : (s : Session) → SendEnds s (send env account_id input s)
  unfolding send
  send-Ends s = send_validated s (validate_send_input input) refl
