-- ===== src/Accounting/History.antt =====
-- The gateway's requests in any order, from any client, under any environment.
use arvan.Prelude.{String, List, [], ◌∷◌, refl, arith}
use arvan.Prelude.Int.{ℤ, IsInt64}
use arvan.Domain.{Uuid, SendSmsInput}
use arvan.Database.{Tables, Env, Session}
use arvan.Repository.Account.{upsert_by_token_hash}
use arvan.Service.Sms
use arvan.Service.Account
use arvan.Accounting.{Reconciled}
use arvan.Accounting.Operations.{send-Reconciled, topup-Reconciled}
use arvan.Accounting.Opening.{upsert-Reconciled}
use arvan.Accounting.Seeding.{seed_all-Keeps}
use arvan.Commands.Seed.{AccountSeed, seed_all}

-- The operations that move money or create accounts, the command that seeds them included; the amount of a top-up is an int64.
pub data Request : Type 0 where
  send_sms : Uuid → SendSmsInput → Request
  top_up : Uuid → (amount : ℤ) → IsInt64 amount → Request
  open_account : String → Request
  seed : (String → String) → List AccountSeed → Request

module _ (env : Env) where
  -- What one request leaves, whether it is answered or refused.
  pub serve : Request → Session → Session
  serve (send_sms account_id input) s = (Sms.send env account_id input s).1
  serve (top_up account_id amount fits) s = (Account.topup env account_id amount s).1
  serve (open_account token_hash) s = (upsert_by_token_hash env token_hash s).1
  serve (seed sha256_hex accounts) s = (seed_all env sha256_hex accounts s).1

  pub serve_all : List Request → Session → Session
  serve_all [] s = s
  serve_all (q ∷ rest) s = serve_all rest (serve q s)

  serve-Reconciled :
      (q : Request) (s : Session) → Reconciled s.tables → Reconciled (serve q s).tables
  unfolding serve
  serve-Reconciled (send_sms account_id input) s h = send-Reconciled env account_id input s h
  serve-Reconciled (top_up account_id amount fits) s h =
      topup-Reconciled env account_id amount fits s h
  serve-Reconciled (open_account token_hash) s h = (upsert-Reconciled env token_hash).at s h
  serve-Reconciled (seed sha256_hex accounts) s h = (seed_all-Keeps env sha256_hex accounts).at s h

  -- After any requests and seedings, failures and lost acknowledgements included, every balance is the sum of the
  -- account's ledger entries, is not negative and fits an int64, if that held before them.
  pub serve_all-Reconciled :
      (requests : List Request) (s : Session)
      → Reconciled s.tables
      → Reconciled (serve_all requests s).tables
  unfolding serve_all
  serve_all-Reconciled [] s h = h
  serve_all-Reconciled (q ∷ rest) s h =
      serve_all-Reconciled rest (serve q s) (serve-Reconciled q s h)

abbrev pub no_rows : Tables
no_rows = record {
  accounts = [];
  account_ledger = [];
  sms_messages = [];
  outbox_events = [];
  idempotency_keys = [];
  processed_consumer_events = [];
}

-- The empty database is in order.
pub Reconciled-no_rows : Reconciled no_rows
Reconciled-no_rows = record {
  balanced = λ id. refl;
  positive = λ id. omega arith;
  fits = λ id. (omega arith, omega arith);
}
