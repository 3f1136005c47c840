-- ===== src/Service/Sms/Replay.antt =====
-- The response that a request leaves under its key.
use arvan.Prelude.{String, some, ◌≡◌, ◌≢◌, refl, inl, inr, sym, ==_refl, eq_refl, subst}
use arvan.Prelude.Lists.{find, find-append_new, find-update}
use arvan.Domain.{
  Uuid, Encoding, SendSmsInput, SendSmsResult, IdempotencyResponse, sms_status_accepted,
}
use arvan.Domain.Idempotency.{
  parse_idempotency_response, marshal_idempotency_response, parse-marshal,
}
use arvan.Database.{IdempotencyKeyModel, Tables, Env}
use arvan.Repository.Idempotency.{by_account_and_key, set_snapshot}
use arvan.Repository.Idempotency.Laws.{Claimed}
use arvan.Service.Sms.{active_key, accepted_result}
use arvan.Service.Sms.Acceptance.{FreshlyCharged, Answers}

module _ (env : Env) (parses : (id : Uuid) → env.uuid_parse (env.uuid_string id) ≡ some id)
    (prints : (id : Uuid) → env.uuid_string id ≢ "") where
  -- The key of an account holds the response `r`.
  pub record Holds (account_id : Uuid) (key : String) (r : SendSmsResult) (t : Tables)
      : Type 0 where
    pub row : IdempotencyKeyModel
    pub cached : IdempotencyResponse
    pub at_key : find (by_account_and_key account_id key) t.idempotency_keys ≡ some row
    pub parsed : parse_idempotency_response row.response_snapshot ≡ some cached
    pub id : env.uuid_parse cached.message_id ≡ some r.message_id
    pub status : r.status ≡ cached.status

  find-Claimed :
      (account_id : Uuid) (key : String) {t v : Tables} (c : Claimed account_id key t v)
      → find (by_account_and_key account_id key) v.idempotency_keys ≡ some c.row
  find-Claimed account_id key {t} c = rw c.rows (
      find-append_new (by_account_and_key account_id key) t.idempotency_keys c.row c.fresh
        (rw (c.account, c.named, ==_refl, eq_refl)))

  -- A request that was accepted under a key has left its response there.
  fresh-Holds :
      (account_id : Uuid) (input : SendSmsInput) (key : String) (encoding : Encoding)
      (message_id outbox_id : Uuid) (t u : Tables)
      → active_key input.idempotency_key ≡ some key
      → FreshlyCharged env account_id input (some key) encoding message_id outbox_id t u
      → Holds account_id key (accepted_result message_id) u
  fresh-Holds account_id input key encoding message_id outbox_id t u active (v, claimed, charged) =
      let row : IdempotencyKeyModel =
        set_snapshot (marshal_idempotency_response env.uuid_string (accepted_result message_id))
          claimed.row in
      record {
        row = row;
        cached = record { message_id = env.uuid_string message_id; status = sms_status_accepted };
        at_key =
            rw (charged.recorded.rows, active)
              (find-update (by_account_and_key account_id key) _ v.idempotency_keys claimed.row
                (λ x h. h) (find-Claimed account_id key claimed));
        parsed = parse-marshal env.uuid_string (accepted_result message_id) (prints message_id);
        id = parses message_id;
        status = refl;
      }

  pub answered-Holds :
      (account_id : Uuid) (input : SendSmsInput) (key : String) (encoding : Encoding)
      (message_id outbox_id : Uuid) (t u : Tables) (r : SendSmsResult)
      → active_key input.idempotency_key ≡ some key
      → Answers env account_id input (some key) encoding message_id outbox_id t r u
      → Holds account_id key r u
  answered-Holds account_id input key encoding message_id outbox_id t u r active
        (inl (r_is, fresh)) =
      subst (λ r'. Holds account_id key r' u) (sym r_is)
        (fresh-Holds account_id input key encoding message_id outbox_id t u active fresh)
  answered-Holds account_id input key encoding message_id outbox_id t u r active (inr old) =
      let (row, cached, at_key, parsed, id, status, same) = old in
      record {
        row = row;
        cached = cached;
        at_key = rw same at_key;
        parsed = parsed;
        id = id;
        status = status;
      }
