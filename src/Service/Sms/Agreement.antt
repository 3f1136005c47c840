-- ===== src/Service/Sms/Agreement.antt =====
-- The cache of responses against the rows of idempotency_keys, over requests of internal/service/sms.go.
use arvan.Prelude.{
  String, Bool-cases, some, List, [], ◌∷◌, ◌≡◌, ◌≢◌, sym, ap, ◌∙◌, inl, inr, arith, subst, eq_iff,
}
use arvan.Prelude.Lists.{find}
use arvan.Domain.{Uuid, SendSmsInput, SendSmsResult, IdempotencyResponse, Result, ok, err}
use arvan.Domain.Idempotency.{marshal_idempotency_response, parse-marshal}
use arvan.Database.{Tables, Env, Session}
use arvan.Cache.{by_cache_key, read_entry}
use arvan.Service.Sms.{active_key, send}
use arvan.Service.Sms.Acceptance.{SendEnds, send-Ends}
use arvan.Service.Sms.Caching.{entry_of, CacheEnds, send-CacheEnds}
use arvan.Service.Sms.Replay.{Holds, answered-Holds}
use arvan.Service.Sms.Held.{send_all, Holds-kept}

module _ (env : Env) (parses : (id : Uuid) → env.uuid_parse (env.uuid_string id) ≡ some id)
    (prints : (id : Uuid) → env.uuid_string id ≢ "") where
  -- A response that the cache gives is the one that the row of the account's key holds.
  pub record Backed (account_id : Uuid) (key : String) (resp : IdempotencyResponse) (t : Tables)
      : Type 0 where
    pub result : SendSmsResult
    pub stored : Holds env parses prints account_id key result t
    pub id : env.uuid_parse resp.message_id ≡ some result.message_id
    pub status : resp.status ≡ result.status

  pub record Agrees (s : Session) : Type 0 where
    pub backed :
        (account_id : Uuid) (key : String) (resp : IdempotencyResponse)
        → read_entry (find (by_cache_key account_id key) s.cache) ≡ some resp
        → Backed account_id key resp s.tables

  module _ (account_id : Uuid) (input : SendSmsInput) (s : Session) where
    Backed-kept :
        (a : Uuid) (k : String) (resp : IdempotencyResponse) (out : Result SendSmsResult × Session)
        → SendEnds env account_id input s out
        → Backed a k resp s.tables
        → Backed a k resp out.1.tables
    Backed-kept a k resp out ends b = record {
      result = b.result;
      stored = Holds-kept env parses prints a k b.result account_id input s out ends b.stored;
      id = b.id;
      status = b.status;
    }

    kept-Agrees :
        (out : Result SendSmsResult × Session)
        → SendEnds env account_id input s out
        → Agrees s
        → out.1.cache ≡ s.cache
        → Agrees out.1
    kept-Agrees out ends agrees same = record {
      backed =
          λ a k resp hit. Backed-kept a k resp out ends (agrees.backed a k resp (rw same at hit));
    }

    -- The entry of a result reads as the result.
    entry_of-read :
        (key : String) (r : SendSmsResult) (resp : IdempotencyResponse)
        → read_entry (some (entry_of env.uuid_string account_id key r)) ≡ some resp
        → resp ≡ record { message_id = env.uuid_string r.message_id; status = r.status }
    unfolding marshal_idempotency_response
    entry_of-read key r resp hit =
        let marshalled = parse-marshal env.uuid_string r (prints r.message_id) in
        ground (arith, sym hit ∙ marshalled)

    new-Backed :
        (key : String) (resp : IdempotencyResponse) (r : SendSmsResult) (u : Session)
        → SendEnds env account_id input s (ok r, u)
        → active_key input.idempotency_key ≡ some key
        → read_entry (some (entry_of env.uuid_string account_id key r)) ≡ some resp
        → Backed account_id key resp u.tables
    new-Backed key resp r u (encoding, valid, answers) active hit =
        let is = entry_of-read key r resp hit in
        record {
          result = r;
          stored =
              answered-Holds env parses prints account_id input key encoding _ _ s.tables u.tables r
                active (rw active at answers);
          id =
              ap (λ (x : IdempotencyResponse). env.uuid_parse x.message_id) is
              ∙ parses r.message_id;
          status = ap (λ (x : IdempotencyResponse). x.status) is;
        }

    written-Agrees :
        (key : String) (r : SendSmsResult) (u : Session)
        → SendEnds env account_id input s (ok r, u)
        → Agrees s
        → active_key input.idempotency_key ≡ some key
        → u.cache ≡ entry_of env.uuid_string account_id key r ∷ s.cache
        → Agrees u
    written-Agrees key r u ends agrees active written = record {
      backed = λ a k resp hit.
          let e = entry_of env.uuid_string account_id key r in
          elim (Bool-cases (by_cache_key a k e)) [
            | inl here ↦
                subst (λ x. Backed a x resp u.tables) ((eq_iff key k).0 (ground (arith, here)))
                  (subst (λ x. Backed x key resp u.tables) (ground (arith, here))
                    (new-Backed key resp r u ends active (rw (written, here) at hit)))
            | inr elsewhere ↦
                Backed-kept a k resp (ok r, u) ends
                  (agrees.backed a k resp (rw (written, elsewhere) at hit))
          ];
    }

    out-Agrees :
        (out : Result SendSmsResult × Session)
        → SendEnds env account_id input s out
        → CacheEnds env account_id input s out
        → Agrees s
        → Agrees out.1
    out-Agrees (err e, u) ends same agrees = kept-Agrees (err e, u) ends agrees same
    out-Agrees (ok r, u) ends (inl same) agrees = kept-Agrees (ok r, u) ends agrees same
    out-Agrees (ok r, u) ends (inr (key, active, written)) agrees =
        written-Agrees key r u ends agrees active written

  -- If the cache agrees with the rows, it does so after any sends, whatever the environment does.
  pub send_all-Agrees :
      (requests : List (Uuid × SendSmsInput)) (s : Session)
      → Agrees s
      → Agrees (send_all env requests s)
  unfolding send_all
  send_all-Agrees [] s h = h
  send_all-Agrees ((account_id, input) ∷ rest) s h =
      send_all-Agrees rest (send env account_id input s).1 (
        out-Agrees account_id input s (send env account_id input s)
          (send-Ends env account_id input s) (send-CacheEnds env account_id input s) h)
