-- ===== src/Service/Sms/Caching.antt =====
-- What SMSService.Send of internal/service/sms.go leaves in the cache of responses.
use arvan.Prelude.{
  ⊤, suc, String, Bool, true, false, Option, none, some, List, ◌∷◌, ◌≡◌, refl, ap, ◌⊎◌, inl, inr,
  subst, if◌then◌else◌,
}
use arvan.Domain.{
  Uuid, Encoding, response, SendSmsInput, SendSmsResult, IdempotencyResponse, Result, ok, err,
}
use arvan.Database.{
  Outcome, done, refused, lost, CacheEntry, Env, Session, pure, attempt, ◌>>◌, continue,
}
use arvan.Database.Spares.{Spares-transaction}
use arvan.Cache.{set_settled, set}
use arvan.Service.Sms.{active_key, validate_send_input, cache_response, accept, send}
use arvan.Service.Sms.Acceptance.{cache_response_lem}
use arvan.Service.Sms.Sparing.{send_tx-Spares}

-- The entry of a result in the cache.
abbrev pub entry_of : (Uuid → String) → Uuid → String → SendSmsResult → CacheEntry
entry_of uuid_string account_id key r = record {
  account_id = account_id;
  key = key;
  snapshot = response (record { message_id = uuid_string r.message_id; status = r.status });
}

module _ (env : Env) where
  -- A send that is answered under a key may put its result into the cache, and nothing else changes there.
  abbrev pub CacheEnds : Uuid → SendSmsInput → Session → Result SendSmsResult × Session → Type 0
  CacheEnds account_id input s (err e, u) = u.cache ≡ s.cache
  CacheEnds account_id input s (ok r, u) =
      (u.cache ≡ s.cache)
      ⊎ ((key : String) × (active_key input.idempotency_key ≡ some key)
          × (u.cache ≡ entry_of env.uuid_string account_id key r ∷ s.cache))

  set-cache :
      (account_id : Uuid) (key : String) (resp : IdempotencyResponse) (s : Session)
      → ((set env account_id key resp s).1.cache ≡ s.cache)
        ⊎ ((set env account_id key resp s).1.cache
            ≡ record { account_id = account_id; key = key; snapshot = response resp } ∷ s.cache)
  unfolding set
  set-cache account_id key resp s = settled (env.outcome s.step)
    where
      settled :
          (o : Outcome)
          → ((set_settled o
                (record { account_id = account_id; key = key; snapshot = response resp })
                s).1.cache
              ≡ s.cache)
            ⊎ ((set_settled o
                  (record { account_id = account_id; key = key; snapshot = response resp })
                  s).1.cache
                ≡ record { account_id = account_id; key = key; snapshot = response resp } ∷ s.cache)
      settled done = inr refl
      settled refused = inl refl
      settled lost = inr refl

  -- What the write of the cache leaves there.
  abbrev Written : Uuid → Option String → SendSmsResult → List CacheEntry → List CacheEntry → Type 0
  Written account_id key r before after =
      (after ≡ before)
      ⊎ ((k : String) × (key ≡ some k) × (after ≡ entry_of env.uuid_string account_id k r ∷ before))

  cache_response-Written :
      (account_id : Uuid) (key : Option String) (r : SendSmsResult) (s : Session)
      → Written account_id key r s.cache (cache_response env account_id key r s).1.cache
  unfolding cache_response
  cache_response-Written account_id none r s = inl refl
  cache_response-Written account_id (some key) r s = where_enabled env.cache_enabled
    where
      resp : IdempotencyResponse
      resp = record { message_id = env.uuid_string r.message_id; status = r.status }

      where_enabled :
          (enabled : Bool)
          → Written account_id
              (some key)
              r
              s.cache
              ((if enabled then (attempt (set env account_id key resp) >> pure tt) else pure tt)
                s).1.cache
      where_enabled false = inl refl
      where_enabled true = elim (set-cache account_id key resp s) [
        | inl same ↦ inl same
        | inr new ↦ inr (key, refl, new)
      ]

  behind_commit-CacheEnds :
      (account_id : Uuid) (input : SendSmsInput) (s : Session)
      (out : Result SendSmsResult × Session)
      → out.1.cache ≡ s.cache
      → CacheEnds account_id input s (
          continue
            (λ r. cache_response env account_id (active_key input.idempotency_key) r >> pure r)
            out)
  behind_commit-CacheEnds account_id input s (err e, u) h = h
  behind_commit-CacheEnds account_id input s (ok r, u) h =
      let key = active_key input.idempotency_key in
      let (u', answered, _) = cache_response_lem env account_id input key r u in
      let written =
        subst (λ c. Written account_id key r u.cache c)
          (ap (λ (x : Result ⊤ × Session). x.1.cache) answered)
          (cache_response-Written account_id key r u) in
      rw answered (subst (λ c. Written account_id key r c u'.cache) h written)

  accept-CacheEnds :
      (account_id : Uuid) (input : SendSmsInput) (s : Session) (v : Result Encoding)
      → CacheEnds account_id input s (continue (accept env account_id input) (v, s))
  unfolding accept
  accept-CacheEnds account_id input s (err e) = refl
  accept-CacheEnds account_id input s (ok encoding) = behind_commit-CacheEnds account_id input s _ (
      (Spares-transaction env _ (
          send_tx-Spares env account_id input encoding (env.new_uuid s.step)
            (env.new_uuid (suc s.step)) (active_key input.idempotency_key))).at
        (record s { step = suc (suc s.step) }))

  pub send-CacheEnds :
      (account_id : Uuid) (input : SendSmsInput) (s : Session)
      → CacheEnds account_id input s (send env account_id input s)
  unfolding send
  send-CacheEnds account_id input s =
      accept-CacheEnds account_id input s (validate_send_input input)
