-- ===== src/Service/Account/Success.antt =====
-- AccountService.Topup of internal/service/account.go where every statement is done.
use arvan.Prelude.{⊤, ℕ, true, false, none, some, ◌≡◌, refl, suc, arith, ◌==◌}
use arvan.Prelude.Int.{ℤ, pos, ◌+ℤ◌, ◌≤ℤ◌, leb_ℤ, int64}
use arvan.Prelude.Lists.{find, has}
use arvan.Domain.{Uuid, ok, invalid_amount, topup as topup_reason}
use arvan.Database.{
  AccountModel, LedgerModel, done, Env, Session, pure, raise_if, ◌>>◌, statement, transaction,
}
use arvan.Database.Success.{
  Succeeds, Succeeds-ok, Succeeds-bind, Succeeds-weaken, statement-Succeeds, transaction-Succeeds,
}
use arvan.Repository.Account
use arvan.Repository.Account.{by_id, save, save_account}
use arvan.Repository.Ledger
use arvan.Repository.Ledger.{insert_ledger}
use arvan.Repository.Success.{saved, inserted_entry, saved-has, found-Succeeds}
use arvan.Service.Account.{topup_entry, topup_tx, topup}

passed :
    (amount : ℤ) (s : Session)
    → pos 1 ≤ℤ amount
    → raise_if (leb_ℤ amount (pos 0)) invalid_amount s ≡ (ok tt, s)
passed amount s h = ground (arith, h)

module _ (env : Env) (all_done : (n : ℕ) → env.outcome n ≡ done) (account_id : Uuid)
    (amount : ℤ) where
  abbrev credited : AccountModel → AccountModel
  credited row = record row { balance = int64 (row.balance +ℤ amount) }

  save-Succeeds :
      (a : AccountModel) (t : Session)
      → pos 0 ≤ℤ int64 (a.balance +ℤ amount)
      → Succeeds
          (λ b u.
            (b ≡ int64 (a.balance +ℤ amount))
            × (u ≡ record t.tables { accounts = save (credited a) t.tables.accounts }))
          ((statement env (save_account (credited a)) >> pure (int64 (a.balance +ℤ amount))) t)
  save-Succeeds a t k =
      Succeeds-bind (λ _. pure (int64 (a.balance +ℤ amount))) _
        (statement-Succeeds env all_done (save_account (credited a)) t tt _
          (saved (credited a) t.tables k))
        (λ _ u (_, e). Succeeds-ok _ _ u (refl, e))

  credit-Succeeds :
      (row : AccountModel) (s : Session)
      → find (by_id account_id) s.tables.accounts ≡ some row
      → pos 0 ≤ℤ int64 (row.balance +ℤ amount)
      → Succeeds
          (λ b t.
            (b ≡ int64 (row.balance +ℤ amount))
            × (t ≡ record s.tables { accounts = save (credited row) s.tables.accounts }))
          (Account.lock_and_add_balance env account_id amount s)
  unfolding Account.lock_and_add_balance
  credit-Succeeds row s h k =
      Succeeds-bind _ _ (found-Succeeds env all_done account_id row s h) λ a t (is_row, same).
        Succeeds-weaken (save-Succeeds a t (rw is_row k))
          λ b u (e, w). (rw (e, is_row), rw (w, is_row, same))

  record_entry-Succeeds :
      (t : Session)
      → ((n : ℕ)
          → has (λ (e : LedgerModel). e.id == env.new_uuid n) t.tables.account_ledger ≡ false)
      → has (by_id account_id) t.tables.accounts ≡ true
      → Succeeds (λ _ _. ⊤) (Ledger.create env (topup_entry account_id amount) t)
  unfolding Ledger.create Ledger.entry_id
  record_entry-Succeeds t fresh there =
      Succeeds-weaken
        (statement-Succeeds env all_done (insert_ledger _) _ tt _ (
          inserted_entry
            (record {
              id = env.new_uuid t.step;
              account_id = account_id;
              delta = amount;
              reason = topup_reason;
              ref_id = none;
              created_at = env.now (suc t.step);
            })
            t.tables (fresh t.step) there))
        (λ _ _ _. tt)

  topup_tx-Succeeds :
      (row : AccountModel) (s : Session)
      → find (by_id account_id) s.tables.accounts ≡ some row
      → pos 0 ≤ℤ int64 (row.balance +ℤ amount)
      → ((n : ℕ)
          → has (λ (e : LedgerModel). e.id == env.new_uuid n) s.tables.account_ledger ≡ false)
      → Succeeds (λ b _. b ≡ int64 (row.balance +ℤ amount)) (topup_tx env account_id amount s)
  unfolding topup_tx
  topup_tx-Succeeds row s h k fresh = Succeeds-bind _ _ (credit-Succeeds row s h k) λ b t (e, w).
      Succeeds-bind (λ _. pure b) _
        (record_entry-Succeeds t (λ n. rw (w, fresh n))
          (rw (w, saved-has account_id row (credited row) s.tables.accounts h refl)))
        (λ _ u _. Succeeds-ok _ b u e)

-- Where every statement is done, the account exists, no row of the ledger has an identifier that
-- will be drawn, the amount is positive and its sum with the balance, as an int64, is not negative, a
-- top-up succeeds and answers that sum.
pub topup-Succeeds :
    (env : Env) (account_id : Uuid) (amount : ℤ) (row : AccountModel) (s : Session)
    → ((n : ℕ) → env.outcome n ≡ done)
    → pos 1 ≤ℤ amount
    → find (by_id account_id) s.tables.accounts ≡ some row
    → pos 0 ≤ℤ int64 (row.balance +ℤ amount)
    → ((n : ℕ) → has (λ (e : LedgerModel). e.id == env.new_uuid n) s.tables.account_ledger ≡ false)
    → Succeeds (λ b _. b ≡ int64 (row.balance +ℤ amount)) (topup env account_id amount s)
unfolding topup
topup-Succeeds env account_id amount row s all_done positive h k fresh =
    Succeeds-bind {P = λ _ t. t ≡ s.tables} (λ _. transaction env (topup_tx env account_id amount))
      _ (record { answer = tt; left = s; runs = passed amount s positive; holds = refl })
      (λ _ t same. transaction-Succeeds env all_done _ _ t (λ s' same'.
        topup_tx-Succeeds env all_done account_id amount row s' (rw (same', same, h)) k
          (λ n. rw (same', same, fresh n))))
