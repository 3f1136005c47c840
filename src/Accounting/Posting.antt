-- ===== src/Accounting/Posting.antt =====
-- One posting: a balance and the ledger move by the same amount.
use arvan.Prelude.{
  true, some, List, [], ◌∷◌, ◌++◌, ◌==◌, ◌≡◌, arith, Bool-cases, inl, inr, if◌then◌else◌,
}
use arvan.Prelude.Int.{ℤ, pos, ◌+ℤ◌, ◌≤ℤ◌, IsInt64, int_laws}
use arvan.Prelude.Lists.{find, find-accepts}
use arvan.Domain.{Uuid}
use arvan.Database.{AccountModel, LedgerModel, Tables}
use arvan.Repository.Account.{by_id, save}
use arvan.Repository.Account.Laws.{find-save}
use arvan.Accounting.{balance_of, ledger_sum, Reconciled}

pub record Posted (id : Uuid) (amount : ℤ) (t u : Tables) : Type 0 where
  pub row : AccountModel
  pub entry : LedgerModel
  pub at_id : find (by_id id) t.accounts ≡ some row
  pub accounts : u.accounts ≡ save (record row { balance = row.balance +ℤ amount }) t.accounts
  pub ledger : u.account_ledger ≡ t.account_ledger ++ entry ∷ []
  pub entry_account : entry.account_id ≡ id
  pub entry_delta : entry.delta ≡ amount
  pub positive : pos 0 ≤ℤ row.balance +ℤ amount
  pub fits : IsInt64 (row.balance +ℤ amount)

ledger_sum-append :
    (id : Uuid) (xs : List LedgerModel) (e : LedgerModel)
    → ledger_sum id (xs ++ e ∷ [])
      ≡ ledger_sum id xs +ℤ (if e.account_id == id then e.delta else pos 0)
ledger_sum-append id [] e = omega int_laws
ledger_sum-append id (x ∷ xs) e = rw (ledger_sum-append id xs e) (omega int_laws)

module _ {id : Uuid} {amount : ℤ} {t u : Tables} (p : Posted id amount t u) where
  row_id : p.row.id ≡ id
  row_id = ground (arith, find-accepts (by_id id) t.accounts p.row p.at_id)

  posted_row : AccountModel
  posted_row = record p.row { balance = p.row.balance +ℤ amount }

  posted_found :
      (j : Uuid)
      → find (by_id j) u.accounts ≡ (if id == j then some posted_row else find (by_id j) t.accounts)
  unfolding posted_row
  posted_found j = rw (
    p.accounts,
    find-save (record p.row { balance = p.row.balance +ℤ amount }) j t.accounts,
    row_id,
  )

  found_here :
      (j : Uuid) → (id == j) ≡ true → find (by_id j) t.accounts ≡ find (by_id id) t.accounts
  found_here j e = let same : id ≡ j = ground arith in rw same

  -- The balances after a posting, account by account.
  posted_balance :
      (j : Uuid) → balance_of j u ≡ balance_of j t +ℤ (if id == j then amount else pos 0)
  unfolding posted_row
  posted_balance j = elim (Bool-cases (id == j)) [
    | inl e ↦ rw (posted_found j, e, found_here j e, p.at_id)
    | inr e ↦ rw (posted_found j, e) (omega int_laws)
  ]

  posted_ledger :
      (j : Uuid)
      → ledger_sum j u.account_ledger
        ≡ ledger_sum j t.account_ledger +ℤ (if id == j then amount else pos 0)
  posted_ledger j =
      rw (p.ledger, ledger_sum-append j t.account_ledger p.entry, p.entry_account, p.entry_delta)

  -- What holds of the new balance and of the old ones holds of every balance.
  posted_all :
      (P : ℤ → Type 0) (j : Uuid)
      → P (p.row.balance +ℤ amount)
      → P (balance_of j t)
      → P (balance_of j u)
  unfolding posted_row
  posted_all P j new old = elim (Bool-cases (id == j)) [
    | inl e ↦ rw (posted_found j, e) new
    | inr e ↦ rw (posted_found j, e) old
  ]

  -- A posting keeps the books.
  pub Posted-Reconciled : Reconciled t → Reconciled u
  Posted-Reconciled r = record {
    balanced = λ j. rw (posted_balance j, posted_ledger j, r.balanced j);
    positive = λ j. posted_all (λ b. pos 0 ≤ℤ b) j p.positive (r.positive j);
    fits = λ j. posted_all IsInt64 j p.fits (r.fits j);
  }
