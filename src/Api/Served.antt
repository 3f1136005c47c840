-- ===== src/Api/Served.antt =====
-- What the routes under /v1 of cmd/api/main.go answer and leave.
use arvan.Prelude.{
  ⊤, ◌≤◌, ◌≡◌, refl, ◌⊎◌, inl, inr, arith, String, true, Bool-cases, Option, none, some, str_eq,
  ◌∙◌,
}
use arvan.Prelude.Int.{ℤ}
use arvan.Prelude.Lists.{find}
use arvan.Domain.{Uuid, Account, Result, ok, err}
use arvan.Database.{
  AccountModel, Env, Session, Tables, Outcome, done, refused, lost, pure, continue, settle,
  statement,
}
use arvan.Database.Laws.{OnOk, Yields, Yields-bind}
use arvan.Database.Success.{Succeeds, Succeeds-ok, Succeeds-bind}
use arvan.Database.Sql.{first, translate}
use arvan.Database.Sql.Laws.{first-Yields}
use arvan.Repository.Account.{by_token_hash, find_by_token_hash, to_domain_account}
use arvan.RateLimit.{AllowResult}
use arvan.Middleware.Gates.{
  unauthorized_with, Answer, Turn, goes_on, aborts, plain, resolved, account_token, rate_limit,
}
use arvan.Handler.{status_of}
use arvan.Api.{Route, handle, routed, limited, v1}
use arvan.Api.Handled.{Handled, handle-Handled}
use arvan.Api.Reads.{find_by_token_hash-Keeps}

module _ (env : Env) (scan : String → Option ℤ) where
  -- The account of the token.
  abbrev pub IsFrom : String → Tables → Uuid → Type 0
  IsFrom token_hash t account_id =
      (row : AccountModel) × (find (by_token_hash token_hash) t.accounts ≡ some row)
      × (account_id ≡ row.id)

  -- A limiter lets the account through, where there is one.
  abbrev pub MayAsk : Option (Uuid → Result AllowResult) → Uuid → Type 0
  MayAsk none account_id = ⊤
  MayAsk (some allow) account_id =
      (result : AllowResult) × (allow account_id ≡ ok result) × (result.allowed ≡ true)

  -- A turn that goes on is what `P` says, and one that does not is an error.
  abbrev Turns : (Uuid → Type 0) → Turn Uuid → Type 0
  Turns P (goes_on account_id) = P account_id
  Turns P (aborts answer) = 400 ≤ status_of answer.reply

  resolved-Turns :
      (token_hash : String) (r : Result Account × Session) (s : Session)
      → OnOk (λ account _. IsFrom token_hash s.tables account.id) r
      → Turns (IsFrom token_hash s.tables) (resolved r.0)
  unfolding resolved status_of
  resolved-Turns token_hash (ok account, u) s from = from
  resolved-Turns token_hash (err e, u) s from = ground arith

  limited-Turns :
      (P : Uuid → Type 0) (limiter : Option (Uuid → Result AllowResult)) (turn : Turn Uuid)
      → Turns P turn
      → Turns (λ id. P id × MayAsk limiter id) (limited env scan limiter turn)
  unfolding limited rate_limit status_of
  limited-Turns P limiter (aborts answer) h = h
  limited-Turns P none (goes_on account_id) h = (h, tt)
  limited-Turns P (some allow) (goes_on account_id) h = rate_limited (allow account_id) refl
    where
      rate_limited :
          (r : Result AllowResult)
          → allow account_id ≡ r
          → Turns (λ id. P id × MayAsk (some allow) id) (rate_limit account_id r)
      rate_limited (err e) is_r = omega arith
      rate_limited (ok result) is_r = elim (Bool-cases result.allowed) [
        | inl yes_allowed ↦ rw yes_allowed (h, (result, is_r, yes_allowed))
        | inr stopped ↦ rw stopped (omega arith)
      ]

  find_by_token_hash-From :
      (token_hash : String) (s : Session)
      → Yields
          (λ account _. IsFrom token_hash s.tables account.id)
          (find_by_token_hash env token_hash s)
  unfolding find_by_token_hash to_domain_account
  find_by_token_hash-From token_hash s =
      Yields-bind (first-Yields env (λ t. t.accounts) (by_token_hash token_hash) s)
        (λ row u (at_hash, _). record { holds = (row, at_hash, refl) })

  settle-cache :
      {A : Type 0} (o : Outcome) (p : Result A × Tables) (s : Session)
      → (settle o p s).1.cache ≡ s.cache
  settle-cache done p s = refl
  settle-cache refused p s = refl
  settle-cache lost p s = refl

  mapped-cache :
      {A B : Type 0} (f : A → B) (r : Result A × Session)
      → (continue (λ a. pure (f a)) (translate r)).1.cache ≡ r.1.cache
  mapped-cache f (ok a, s) = refl
  mapped-cache f (err e, s) = refl

  find_by_token_hash-cache :
      (token_hash : String) (s : Session) → (find_by_token_hash env token_hash s).1.cache ≡ s.cache
  unfolding find_by_token_hash statement
  find_by_token_hash-cache token_hash s =
      mapped-cache to_domain_account _
      ∙ settle-cache (env.outcome s.step)
          (first (λ t. t.accounts) (by_token_hash token_hash) s.tables) s

  -- What the group answers and leaves: an error of the client's or the server's with the tables as they
  -- were, before the handler; or what the handler does for the account of the token.
  abbrev pub Served :
      String → Option (Uuid → Result AllowResult) → Route → Session → Answer → Tables → Type 0
  Served token_hash limiter route s answer u =
      ((400 ≤ status_of answer.reply) × (u ≡ s.tables))
      ⊎ ((account_id : Uuid) × (s' : Session) × IsFrom token_hash s.tables account_id
          × MayAsk limiter account_id
          × (s'.tables ≡ s.tables)
          × (s'.cache ≡ s.cache)
          × Handled env scan account_id route s' answer.reply u)

  routed-Served :
      (token_hash : String) (limiter : Option (Uuid → Result AllowResult)) (route : Route)
      (turn : Turn Uuid) (s u : Session)
      → Turns (λ id. IsFrom token_hash s.tables id × MayAsk limiter id) turn
      → u.tables ≡ s.tables
      → u.cache ≡ s.cache
      → Succeeds (Served token_hash limiter route s) (routed env scan route turn u)
  unfolding routed
  routed-Served token_hash limiter route (aborts answer) s u refused_with same same_cache =
      Succeeds-ok _ answer u (inl (refused_with, same))
  routed-Served token_hash limiter route (goes_on account_id) s u (from, may_ask) same same_cache =
      Succeeds-bind (λ reply. pure (plain reply)) (handle env scan account_id route u)
        (handle-Handled env scan account_id route u)
        (λ reply v handled.
          Succeeds-ok _ (plain reply) v
            (inr (account_id, u, from, may_ask, same, same_cache, handled)))

  -- Whatever the environment does, a request under /v1 is answered: with an error before any table
  -- changed, or as its handler answers the account whose row has the hash of the token, which the
  -- limiter, where there is one, let through. A read changes no table and answers an error or that
  -- account's own balance, message or page of rows, within the limit of the request; a top-up ends as
  -- the service's for that account; a send is answered from the stored response of its Idempotency-Key,
  -- or refused, or goes to the service with that key.
  pub v1-Served :
      (sha256_hex : String → String) (limiter : Option (Uuid → Result AllowResult)) (token : String)
      (route : Route) (s : Session)
      → Succeeds
          (Served (sha256_hex token) limiter route s)
          (v1 env scan sha256_hex limiter token route s)
  unfolding v1 account_token status_of
  v1-Served sha256_hex limiter token route s = elim (Bool-cases (str_eq token "")) [
    | inl missing ↦
        (rw missing (
          routed-Served (sha256_hex token) limiter route
            (limited env scan limiter (unauthorized_with "missing X-Account-Token header")) s s
            (limited-Turns (IsFrom (sha256_hex token) s.tables) limiter
              (unauthorized_with "missing X-Account-Token header") (omega arith))
            refl refl))
    | inr given ↦
        (let found = find_by_token_hash env (sha256_hex token) s in
          rw given (
            routed-Served (sha256_hex token) limiter route
              (limited env scan limiter (resolved found.0)) s found.1
              (limited-Turns (IsFrom (sha256_hex token) s.tables) limiter (resolved found.0) (
                resolved-Turns (sha256_hex token) found s
                  (find_by_token_hash-From (sha256_hex token) s).holds))
              ((find_by_token_hash-Keeps {P = λ t. t ≡ s.tables} env (sha256_hex token)).at s refl)
              (find_by_token_hash-cache (sha256_hex token) s)))
  ]
