-- ===== src/Service/Sms/Held.antt =====
-- What the rows of idempotency_keys hold behind other requests of internal/service/sms.go.
use arvan.Prelude.{String, Bool, Option, none, some, List, [], ◌∷◌, ◌++◌, ◌≡◌, ◌≢◌, refl, inl, inr}
use arvan.Prelude.Lists.{find, update, find-append_some, find-update_kept, find-apart}
use arvan.Domain.{Uuid, Encoding, Snapshot, SendSmsInput, SendSmsResult, Result, ok, err}
use arvan.Database.{IdempotencyKeyModel, Tables, Env, Session}
use arvan.Repository.Idempotency.{by_account_and_key, set_snapshot}
use arvan.Service.Sms.{active_key, send}
use arvan.Service.Sms.Acceptance.{FreshlyCharged, Answers, SendEnds, send-Ends}
use arvan.Service.Sms.Replay.{Holds}

claimed_kept :
    (p q : IdempotencyKeyModel → Bool) (keys : List IdempotencyKeyModel)
    (row new : IdempotencyKeyModel) (snapshot : Snapshot)
    → ((x : IdempotencyKeyModel) → p (set_snapshot snapshot x) ≡ p x)
    → find p keys ≡ some row
    → find q keys ≡ none
    → find p (update q (set_snapshot snapshot) (keys ++ new ∷ [])) ≡ some row
claimed_kept p q keys row new snapshot same h fresh =
    find-update_kept p q (set_snapshot snapshot) (keys ++ new ∷ []) row same
      (find-apart p q keys row fresh h) (find-append_some p keys (new ∷ []) row h)

module _ (env : Env) where
  -- The sends of any clients, one after the other, however they end.
  unfoldable pub send_all : List (Uuid × SendSmsInput) → Session → Session
  send_all [] s = s
  send_all ((account_id, input) ∷ rest) s = send_all rest (send env account_id input s).1

module _ (env : Env) (parses : (id : Uuid) → env.uuid_parse (env.uuid_string id) ≡ some id)
    (prints : (id : Uuid) → env.uuid_string id ≢ "") where
  module _ (p : IdempotencyKeyModel → Bool) (row : IdempotencyKeyModel)
      (same : (snapshot : Snapshot) (x : IdempotencyKeyModel)
        → p (set_snapshot snapshot x) ≡ p x) where
    fresh_kept :
        (account_id : Uuid) (input : SendSmsInput) (key : Option String) (encoding : Encoding)
        (message_id outbox_id : Uuid) (t u : Tables)
        → active_key input.idempotency_key ≡ key
        → FreshlyCharged env account_id input key encoding message_id outbox_id t u
        → find p t.idempotency_keys ≡ some row
        → find p u.idempotency_keys ≡ some row
    fresh_kept account_id input none encoding message_id outbox_id t u active charged h =
        rw (charged.recorded.rows, active) h
    fresh_kept account_id input (some key) encoding message_id outbox_id t u active
          (v, claimed, charged) h =
        rw (charged.recorded.rows, active, claimed.rows)
          (claimed_kept p (by_account_and_key account_id key) t.idempotency_keys row claimed.row _
            (same _) h claimed.fresh)

    answers_kept :
        (account_id : Uuid) (input : SendSmsInput) (key : Option String) (encoding : Encoding)
        (message_id outbox_id : Uuid) (t u : Tables) (r : SendSmsResult)
        → active_key input.idempotency_key ≡ key
        → Answers env account_id input key encoding message_id outbox_id t r u
        → find p t.idempotency_keys ≡ some row
        → find p u.idempotency_keys ≡ some row
    answers_kept account_id input key encoding message_id outbox_id t u r active (inl (_, fresh))
          h =
        fresh_kept account_id input key encoding message_id outbox_id t u active fresh h
    answers_kept account_id input none encoding message_id outbox_id t u r active (inr old) h =
        absurd old
    answers_kept account_id input (some key) encoding message_id outbox_id t u r active
          (inr (_, _, _, _, _, _, unchanged)) h =
        rw unchanged h

    pub ends_kept :
        (account_id : Uuid) (input : SendSmsInput) (s : Session)
        (out : Result SendSmsResult × Session)
        → SendEnds env account_id input s out
        → find p s.tables.idempotency_keys ≡ some row
        → find p out.1.tables.idempotency_keys ≡ some row
    ends_kept account_id input s (ok r, u) (encoding, valid, answers) h =
        answers_kept account_id input _ encoding _ _ s.tables u.tables r refl answers h
    ends_kept account_id input s (err e, u) (inl same_tables) h = rw same_tables h
    ends_kept account_id input s (err e, u) (inr (lost, (r, (encoding, valid, answers)))) h =
        answers_kept account_id input _ encoding _ _ s.tables u.tables r refl answers h

  -- What a key holds stays there behind any send of any client, however it ends.
  pub Holds-kept :
      (a : Uuid) (k : String) (r : SendSmsResult) (account_id : Uuid) (input : SendSmsInput)
      (s : Session) (out : Result SendSmsResult × Session)
      → SendEnds env account_id input s out
      → Holds env parses prints a k r s.tables
      → Holds env parses prints a k r out.1.tables
  Holds-kept a k r account_id input s out ends h = record {
    row = h.row;
    cached = h.cached;
    at_key =
        ends_kept (by_account_and_key a k) h.row (λ snapshot x. refl) account_id input s out ends
          h.at_key;
    parsed = h.parsed;
    id = h.id;
    status = h.status;
  }

  pub send_all-Holds :
      (requests : List (Uuid × SendSmsInput)) (a : Uuid) (k : String) (r : SendSmsResult)
      (s : Session)
      → Holds env parses prints a k r s.tables
      → Holds env parses prints a k r (send_all env requests s).tables
  unfolding send_all
  send_all-Holds [] a k r s h = h
  send_all-Holds ((account_id, input) ∷ rest) a k r s h =
      send_all-Holds rest a k r (send env account_id input s).1 (
        Holds-kept a k r account_id input s (send env account_id input s)
          (send-Ends env account_id input s) h)
