-- ===== src/Middleware/Stored.antt =====
-- What the Idempotency middleware of internal/middleware/idempotency.go goes by.
use arvan.Prelude.{
  ⊤, ◌≡◌, refl, ◌⊎◌, inl, inr, arith, String, false, Bool-cases, Option, none, some, str_eq, sym,
}
use arvan.Prelude.Lists.{find}
use arvan.Domain.{Uuid, Error, IdempotencyRecord, IdempotencyResponse, Result, ok, err}
use arvan.Domain.Idempotency.{parse_idempotency_response}
use arvan.Database.{IdempotencyKeyModel, Env, Session, Tables, Outcome, done, refused, lost}
use arvan.Database.Laws.{OnOk, Yields, Yields-if, Yields-bind}
use arvan.Database.Keeps.{Keeps, Keeps-bind, Keeps-pure, Keeps-attempt, Keeps-if}
use arvan.Database.Success.{Succeeds, Succeeds-ok}
use arvan.Database.Sql.Laws.{first-Yields, Keeps-first}
use arvan.Cache
use arvan.Cache.Laws as CacheLaws
use arvan.Cache.{by_cache_key, read_entry, get_settled}
use arvan.Repository.Idempotency.{
  by_account_and_key, find_by_account_and_key, to_domain_idempotency,
}
use arvan.Service.Sms.{active_key}
use arvan.Middleware.{
  Verdict, passed, invalid_key, lookup_failed, answered, cached_or_stored, lookup, replayed,
  verdict_of, valid_key, checked_key, idempotency,
}

module _ {P : Tables → Type 0} (env : Env) where
  find_by_account_and_key-Keeps :
      (account_id : Uuid) (key : String) → Keeps P (find_by_account_and_key env account_id key)
  unfolding find_by_account_and_key
  find_by_account_and_key-Keeps account_id key =
      Keeps-bind _ _ (Keeps-first env (λ t. t.idempotency_keys) _) (λ model. Keeps-pure _)

  cached_or_stored-Keeps :
      (account_id : Uuid) (key : String) (r : Result (Option IdempotencyResponse))
      → Keeps P (cached_or_stored env account_id key r)
  unfolding cached_or_stored
  cached_or_stored-Keeps account_id key (ok (some resp)) = Keeps-pure _
  cached_or_stored-Keeps account_id key (ok none) = find_by_account_and_key-Keeps account_id key
  cached_or_stored-Keeps account_id key (err e) = find_by_account_and_key-Keeps account_id key

  lookup-Keeps : (account_id : Uuid) (key : String) → Keeps P (lookup env account_id key)
  unfolding lookup
  lookup-Keeps account_id key =
      Keeps-if env.cache_enabled _ _
        (Keeps-bind _ (cached_or_stored env account_id key)
          (Keeps-attempt _ (CacheLaws.get-Keeps env account_id key))
          (cached_or_stored-Keeps account_id key))
        (find_by_account_and_key-Keeps account_id key)

-- The response is in the cache, or in the row of the key.
abbrev pub IsStored : Uuid → String → Session → IdempotencyResponse → Type 0
IsStored account_id key s resp =
    (read_entry (find (by_cache_key account_id key) s.cache) ≡ some resp)
    ⊎ ((row : IdempotencyKeyModel) × (find (by_account_and_key account_id key)
            s.tables.idempotency_keys
          ≡ some row)
        × (parse_idempotency_response row.response_snapshot ≡ some resp))

-- A verdict that is the code's: the key of the header goes on where there is one, and an answer is a
-- response that is stored.
abbrev pub Says : Uuid → String → Session → Verdict → Type 0
Says account_id key s (passed k) = k ≡ active_key (some key)
Says account_id key s (answered resp) = IsStored account_id key s resp
Says account_id key s _ = ⊤

module _ (env : Env) (account_id : Uuid) (key : String) where
  abbrev Holds : Session → IdempotencyRecord → Type 0
  Holds s rec =
      (resp : IdempotencyResponse)
      → parse_idempotency_response rec.response_snapshot ≡ some resp
      → IsStored account_id key s resp

  stored-Holds :
      (s u : Session)
      → u.tables ≡ s.tables
      → Yields (λ rec _. Holds s rec) (find_by_account_and_key env account_id key u)
  unfolding find_by_account_and_key to_domain_idempotency
  stored-Holds s u same =
      Yields-bind (first-Yields env (λ t. t.idempotency_keys) (by_account_and_key account_id key) u)
        (λ row v (at_key, _). record {
          holds = λ resp parsed. inr (row, rw same at at_key, parsed);
        })

  get_settled-finds :
      (o : Outcome) (s : Session) (resp : IdempotencyResponse)
      → (get_settled o account_id key s).0 ≡ ok (some resp)
      → read_entry (find (by_cache_key account_id key) s.cache) ≡ some resp
  get_settled-finds done s resp h = ground arith
  get_settled-finds refused s resp h = absurd (ground arith)
  get_settled-finds lost s resp h = absurd (ground arith)

  cached_or_stored-Holds :
      (r : Result (Option IdempotencyResponse)) (s u : Session)
      → ((resp : IdempotencyResponse)
          → r ≡ ok (some resp)
          → read_entry (find (by_cache_key account_id key) s.cache) ≡ some resp)
      → u.tables ≡ s.tables
      → Yields (λ rec _. Holds s rec) (cached_or_stored env account_id key r u)
  unfolding cached_or_stored parse_idempotency_response
  cached_or_stored-Holds (ok (some cached)) s u hit same = record {
    holds = λ resp parsed. inl (ground (arith, hit cached refl));
  }
  cached_or_stored-Holds (ok none) s u hit same = stored-Holds s u same
  cached_or_stored-Holds (err e) s u hit same = stored-Holds s u same

  lookup-Holds : (s : Session) → Yields (λ rec _. Holds s rec) (lookup env account_id key s)
  unfolding lookup Cache.get
  lookup-Holds s =
      Yields-if env.cache_enabled _ _ s
        (cached_or_stored-Holds (Cache.get env account_id key s).0 s
          (Cache.get env account_id key s).1 (get_settled-finds (env.outcome s.step) s)
          ((CacheLaws.get-Keeps {P = λ t. t ≡ s.tables} env account_id key).at s refl))
        (stored-Holds s s refl)

  verdict_of-Says :
      (r : Result IdempotencyRecord) (s u : Session)
      → active_key (some key) ≡ some key
      → OnOk (λ rec _. Holds s rec) (r, u)
      → (u.tables ≡ s.tables)
      → Succeeds (λ v t. Says account_id key s v × (t ≡ s.tables)) (verdict_of env key r u)
  unfolding verdict_of replayed
  verdict_of-Says (ok rec) s u is_active holds same =
      Succeeds-ok _ (replayed env (parse_idempotency_response rec.response_snapshot)) u
        (says (parse_idempotency_response rec.response_snapshot) (λ resp. holds resp), same)
    where
      says :
          (o : Option IdempotencyResponse)
          → ((resp : IdempotencyResponse) → o ≡ some resp → IsStored account_id key s resp)
          → Says account_id key s (replayed env o)
      says none k = tt
      says (some resp) k = k resp refl
  verdict_of-Says (err e) s u is_active holds same = elim (failed e) [
    | inl unknown ↦ rw unknown (Succeeds-ok _ (passed (some key)) u (sym is_active, same))
    | inr broken ↦ rw broken (Succeeds-ok _ lookup_failed u (tt, same))
  ]
    where
      failed :
          (e : Error)
          → (verdict_of env key (err e) u ≡ (ok (passed (some key)), u))
            ⊎ (verdict_of env key (err e) u ≡ (ok lookup_failed, u))
      failed e = ground arith

  checked_key-Says :
      (parsed : Option Uuid) (s : Session)
      → str_eq key "" ≡ false
      → Succeeds
          (λ v t. Says account_id key s v × (t ≡ s.tables))
          (checked_key env key parsed (some account_id) s)
  unfolding checked_key valid_key active_key
  checked_key-Says none s h = Succeeds-ok _ invalid_key s (tt, refl)
  checked_key-Says (some _) s h =
      verdict_of-Says (lookup env account_id key s).0 s (lookup env account_id key s).1 (rw h refl)
        (lookup-Holds s).holds ((lookup-Keeps {P = λ t. t ≡ s.tables} env account_id key).at s refl)

  -- Whatever the environment does, the Idempotency middleware leaves the tables alone, hands on the key
  -- of the header where there is one, and answers itself only with a response that the cache or the row
  -- of the account's key holds.
  pub idempotency-Says :
      (s : Session)
      → Succeeds
          (λ v t. Says account_id key s v × (t ≡ s.tables))
          (idempotency env key (some account_id) s)
  unfolding idempotency active_key
  idempotency-Says s = elim (Bool-cases (str_eq key "")) [
    | inl e ↦ rw e (Succeeds-ok _ (passed none) s (rw e refl, refl))
    | inr e ↦ rw e (checked_key-Says (env.uuid_parse key) s e)
  ]
