-- ===== src/Accounting/Seeding.antt =====
-- The books and cmd/seed/main.go, with EnsureBalance of internal/seed/seed.go.
use arvan.Prelude.{String, List, [], ◌∷◌}
use arvan.Prelude.Int.{ℤ, pos, ◌-ℤ◌, leb_ℤ, ltb_ℤ, int64, int64-IsInt64}
use arvan.Domain.{Uuid, Account}
use arvan.Database.{Env, pure, ◌>>◌}
use arvan.Database.Keeps.{Keeps, Keeps-bind, Keeps-pure, Keeps-if}
use arvan.Database.Sql.Laws.{Keeps-first}
use arvan.Repository.Account as Accounts
use arvan.Repository.Account.{by_id, account_by_id}
use arvan.Service.Account as Service
use arvan.Accounting.{Reconciled}
use arvan.Accounting.Opening.{upsert-Reconciled}
use arvan.Accounting.Operations.{topup-Reconciled}
use arvan.Commands.Seed.{AccountSeed, seed_balance, seed_account, seed_all}

module _ (env : Env) where
  get_balance-Keeps : (account_id : Uuid) → Keeps Reconciled (Service.get_balance env account_id)
  unfolding Service.get_balance Accounts.get_balance account_by_id
  get_balance-Keeps account_id =
      Keeps-bind _ (λ model. pure model.balance)
        (Keeps-first env (λ t. t.accounts) (by_id account_id)) (λ model. Keeps-pure model.balance)

  ensure_balance-Keeps :
      (account_id : Uuid) (target : ℤ)
      → Keeps Reconciled (Service.ensure_balance env account_id target)
  unfolding Service.ensure_balance
  ensure_balance-Keeps account_id target =
      Keeps-bind (Service.get_balance env account_id) _ (get_balance-Keeps account_id) λ balance.
        Keeps-if (leb_ℤ target balance) (pure balance)
          (Service.topup env account_id (int64 (target -ℤ balance))) (Keeps-pure balance)
          (record {
            at = λ s h.
                topup-Reconciled env account_id (int64 (target -ℤ balance))
                  (int64-IsInt64 (target -ℤ balance)) s h;
          })

  seed_balance-Keeps :
      (account : AccountSeed) (created : Account)
      → Keeps Reconciled (seed_balance env account created)
  unfolding seed_balance
  seed_balance-Keeps account created =
      Keeps-if (ltb_ℤ (pos 0) account.initial_balance)
        (Service.ensure_balance env created.id account.initial_balance >> pure tt) (pure tt)
        (Keeps-bind (Service.ensure_balance env created.id account.initial_balance) _
          (ensure_balance-Keeps created.id account.initial_balance) (λ _. Keeps-pure tt))
        (Keeps-pure tt)

  module _ (sha256_hex : String → String) where
    seed_account-Keeps :
        (account : AccountSeed) → Keeps Reconciled (seed_account env sha256_hex account)
    unfolding seed_account
    seed_account-Keeps account =
        Keeps-bind (Accounts.upsert_by_token_hash env (sha256_hex account.token)) _
          (upsert-Reconciled env (sha256_hex account.token)) (seed_balance-Keeps account)

    pub seed_all-Keeps :
        (accounts : List AccountSeed) → Keeps Reconciled (seed_all env sha256_hex accounts)
    unfolding seed_all
    seed_all-Keeps [] = Keeps-pure tt
    seed_all-Keeps (account ∷ rest) =
        Keeps-bind (seed_account env sha256_hex account) _ (seed_account-Keeps account)
          λ _. seed_all-Keeps rest
