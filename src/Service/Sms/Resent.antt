-- ===== src/Service/Sms/Resent.antt =====
-- A request that is sent again under its key, whatever other requests came between.
use arvan.Prelude.{String, List, some, ◌≡◌, ◌≢◌, inl, inr, arith}
use arvan.Domain.{Uuid, Encoding, SendSmsInput, SendSmsResult, Result, ok, err}
use arvan.Database.{Tables, Env, Session}
use arvan.Service.Sms.{active_key, send}
use arvan.Service.Sms.Acceptance.{Answers, SendEnds, send-Ends}
use arvan.Service.Sms.Replay.{Holds, answered-Holds}
use arvan.Service.Sms.Held.{send_all, send_all-Holds}

module _ (env : Env) (parses : (id : Uuid) → env.uuid_parse (env.uuid_string id) ≡ some id)
    (prints : (id : Uuid) → env.uuid_string id ≢ "") where
  same_row :
      (account_id : Uuid) (key : String) (encoding : Encoding) (input : SendSmsInput)
      (message_id outbox_id : Uuid) (r r' : SendSmsResult) (t u : Tables)
      → Holds env parses prints account_id key r t
      → Answers env account_id input (some key) encoding message_id outbox_id t r' u
      → (r' ≡ r) × (u ≡ t)
  same_row account_id key encoding input message_id outbox_id r r' t u h
        (inl (r_is, (v, claimed, charged))) =
      absurd (ground (arith, h.at_key, claimed.fresh))
  same_row account_id key encoding input message_id outbox_id r r' t u h (inr old) =
      let (row, cached, at_key, parsed, id, status, same) = old in
      (ground (arith, h.at_key, h.parsed, h.id, h.status), same)

  -- The answer of a repeated request: the first response, or an error; and no change.
  abbrev pub Repeats : SendSmsResult → Tables → Result SendSmsResult × Session → Type 0
  Repeats r t (ok r', u) = (r' ≡ r) × (u.tables ≡ t)
  Repeats r t (err e, u) = u.tables ≡ t

  SendEnds-Repeats :
      (account_id : Uuid) (input : SendSmsInput) (key : String) (r : SendSmsResult) (s : Session)
      (out : Result SendSmsResult × Session)
      → Holds env parses prints account_id key r s.tables
      → active_key input.idempotency_key ≡ some key
      → SendEnds env account_id input s out
      → Repeats r s.tables out
  SendEnds-Repeats account_id input key r s (ok r', u) h active (encoding, valid, answers) =
      same_row account_id key encoding input _ _ r r' s.tables u.tables h (rw active at answers)
  SendEnds-Repeats account_id input key r s (err e, u) h active (inl same) = same
  SendEnds-Repeats account_id input key r s (err e, u) h active
        (inr (lost, (r', (encoding, valid, answers)))) =
      (same_row account_id key encoding input _ _ r r' s.tables u.tables h (rw active at answers)).1

  ok-Ends :
      (account_id : Uuid) (input : SendSmsInput) (s : Session)
      (out : Result SendSmsResult × Session) (r : SendSmsResult) (u : Session)
      → out ≡ (ok r, u)
      → SendEnds env account_id input s out
      → SendEnds env account_id input s (ok r, u)
  ok-Ends account_id input s out r u e h = rw e at h

  moved-Holds :
      (account_id : Uuid) (key : String) (r : SendSmsResult) (t u : Tables)
      → u.idempotency_keys ≡ t.idempotency_keys
      → Holds env parses prints account_id key r t
      → Holds env parses prints account_id key r u
  moved-Holds account_id key r t u same h = record {
    row = h.row;
    cached = h.cached;
    at_key = rw same h.at_key;
    parsed = h.parsed;
    id = h.id;
    status = h.status;
  }

  -- Where a UUID is parsed back from its text and no text of a UUID is empty: once a request under an
  -- idempotency key was answered, and behind any sends of any clients, however they ended, and any other
  -- change but to the rows of idempotency_keys, a request of the account under that key, whatever its
  -- content, changes no table and answers the first response or an error.
  pub send_again :
      (account_id : Uuid) (first again : SendSmsInput) (key : String)
      (between : List (Uuid × SendSmsInput)) (s t u : Session) (r : SendSmsResult)
      → active_key first.idempotency_key ≡ some key
      → active_key again.idempotency_key ≡ some key
      → send env account_id first s ≡ (ok r, t)
      → u.tables.idempotency_keys ≡ (send_all env between t).tables.idempotency_keys
      → Repeats r u.tables (send env account_id again u)
  send_again account_id first again key between s t u r active active' accepted_first same =
      let (encoding, valid, answers) =
        ok-Ends account_id first s _ r t accepted_first (send-Ends env account_id first s) in
      let held =
        answered-Holds env parses prints account_id first key encoding _ _ s.tables t.tables r
          active (rw active at answers) in
      SendEnds-Repeats account_id again key r u _
        (moved-Holds account_id key r (send_all env between t).tables u.tables same
          (send_all-Holds env parses prints between account_id key r t held))
        active' (send-Ends env account_id again u)
