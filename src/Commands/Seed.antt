-- ===== src/Commands/Seed.antt =====
-- main of cmd/seed/main.go behind its database, and internal/seed/accounts.go.
use arvan.Prelude.{⊤, String, List, [], ◌∷◌, if◌then◌else◌}
use arvan.Prelude.Int.{ℤ, pos, ltb_ℤ}
use arvan.Domain.{Account}
use arvan.Database.{Env, Exec, pure, ◌>>=◌, ◌>>◌}
use arvan.Repository.Account as Accounts
use arvan.Service.Account as Service

pub record AccountSeed : Type 0 where
  pub name : String
  pub token : String
  pub initial_balance : ℤ

abbrev pub demo_initial_balance : ℤ
demo_initial_balance = pos 10000

abbrev pub accounts : List AccountSeed
accounts =
    record {
      name = "account-a";
      token = "demo-token-account-a";
      initial_balance = demo_initial_balance;
    }
    ∷ record {
      name = "account-b";
      token = "demo-token-account-b";
      initial_balance = demo_initial_balance;
    }
    ∷ []

module _ (env : Env) where
  unfoldable pub seed_balance : AccountSeed → Account → Exec ⊤
  seed_balance account created =
      if ltb_ℤ (pos 0) account.initial_balance
      then Service.ensure_balance env created.id account.initial_balance >> pure tt
      else pure tt

  -- One account of the loop, by the SHA-256 of its token; an error is the end of the command.
  unfoldable pub seed_account : (String → String) → AccountSeed → Exec ⊤
  unfolding seed_balance
  seed_account sha256_hex account =
      Accounts.upsert_by_token_hash env (sha256_hex account.token) >>= seed_balance account

  unfoldable pub seed_all : (String → String) → List AccountSeed → Exec ⊤
  seed_all sha256_hex [] = pure tt
  seed_all sha256_hex (account ∷ rest) = seed_account sha256_hex account >> seed_all sha256_hex rest
