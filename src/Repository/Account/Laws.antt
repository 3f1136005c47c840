-- ===== src/Repository/Account/Laws.antt =====
-- What the methods of the account repository do to the rows.
use arvan.Prelude.{◌≡◌, refl, some, List, [], ◌∷◌, ◌==◌, arith, if◌then◌else◌}
use arvan.Prelude.Int.{ℤ, pos, ◌+ℤ◌, ◌-ℤ◌, ◌≤ℤ◌, ltb_ℤ, int64}
use arvan.Prelude.Lists.{find}
use arvan.Domain.{Uuid, insufficient_balance, ok}
use arvan.Database.{AccountModel, Tables, Env, Session}
use arvan.Database.Laws.{Yields, Yields-bind, statement-Yields, raise_if-Yields}
use arvan.Database.Sql.Laws.{first-Yields}
use arvan.Repository.Account.{
  by_id, save, save_account, account_by_id, lock_and_add_balance, lock_account_for_update,
  deduct_locked_balance,
}

-- Saving a row changes what is found under its key and nothing else.
pub find-save :
    (m : AccountModel) (j : Uuid) (rows : List AccountModel)
    → find (by_id j) (save m rows) ≡ (if m.id == j then some m else find (by_id j) rows)
find-save m j [] = ground arith
find-save m j (a ∷ rows) = ground (arith, find-save m j rows)

pub save_account-ok :
    (m : AccountModel) (t : Tables) {u : Tables}
    → save_account m t ≡ (ok tt, u)
    → (pos 0 ≤ℤ m.balance) × (u ≡ record t { accounts = save m t.accounts })
unfolding save_account
save_account-ok m t h = ground arith

module _ (env : Env) where
  pub account_by_id-Yields :
      (id : Uuid) (s : Session)
      → Yields
          (λ a t. (find (by_id id) s.tables.accounts ≡ some a) × (t.tables ≡ s.tables))
          (account_by_id env id s)
  unfolding account_by_id
  account_by_id-Yields id s = first-Yields env (λ t. t.accounts) (by_id id) s

  -- A successful lock answers the balance and changes nothing.
  pub lock_account_for_update-Yields :
      (id : Uuid) (s : Session)
      → Yields
          (λ b t.
            (row : AccountModel) × (find (by_id id) s.tables.accounts ≡ some row)
            × (b ≡ row.balance)
            × (t.tables ≡ s.tables))
          (lock_account_for_update env id s)
  unfolding lock_account_for_update
  lock_account_for_update-Yields id s =
      Yields-bind (account_by_id-Yields id s) (λ row t h. record { holds = (row, h.0, refl, h.1) })

  -- A successful deduction found the balance sufficient and wrote the difference.
  pub deduct_locked_balance-Yields :
      (id : Uuid) (cost : ℤ) (s : Session)
      → Yields
          (λ b t.
            (row : AccountModel) × (find (by_id id) s.tables.accounts ≡ some row)
            × (cost ≤ℤ row.balance)
            × (b ≡ int64 (row.balance -ℤ cost))
            × (pos 0 ≤ℤ b)
            × (t.tables ≡ record s.tables {
              accounts = save (record row { balance = b }) s.tables.accounts;
            }))
          (deduct_locked_balance env id cost s)
  unfolding deduct_locked_balance
  deduct_locked_balance-Yields id cost s =
      Yields-bind (account_by_id-Yields id s) λ row s1 (at_id, same).
        Yields-bind (raise_if-Yields (ltb_ℤ row.balance cost) insufficient_balance s1)
          λ _ s2 (passed, same2).
            let row' : AccountModel = record row { balance = int64 (row.balance -ℤ cost) } in
            Yields-bind (statement-Yields env (save_account row') s2) λ _ s3 saved.
              let (positive, written) = save_account-ok row' s2.tables saved in
              record { holds = (row, at_id, ground arith, refl, positive, ground arith) }

  -- A successful addition wrote the sum, reduced to 64 bits, and answers it.
  pub lock_and_add_balance-Yields :
      (id : Uuid) (amount : ℤ) (s : Session)
      → Yields
          (λ b t.
            (row : AccountModel) × (find (by_id id) s.tables.accounts ≡ some row)
            × (b ≡ int64 (row.balance +ℤ amount))
            × (pos 0 ≤ℤ b)
            × (t.tables ≡ record s.tables {
              accounts = save (record row { balance = b }) s.tables.accounts;
            }))
          (lock_and_add_balance env id amount s)
  unfolding lock_and_add_balance
  lock_and_add_balance-Yields id amount s =
      Yields-bind (account_by_id-Yields id s) λ row s1 (at_id, same).
        let row' : AccountModel = record row { balance = int64 (row.balance +ℤ amount) } in
        Yields-bind (statement-Yields env (save_account row') s1) λ _ s2 saved.
          let (positive, written) = save_account-ok row' s1.tables saved in
          record { holds = (row, at_id, refl, positive, ground arith) }
