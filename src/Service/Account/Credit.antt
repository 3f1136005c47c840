-- ===== src/Service/Account/Credit.antt =====
-- What AccountService.Topup answers and leaves, on every branch.
use arvan.Prelude.{Bool-cases, none, some, ◌≡◌, refl, inl, inr, [], ◌∷◌, ◌++◌, arith, subst}
use arvan.Prelude.Int.{ℤ, pos, ◌+ℤ◌, ◌≤ℤ◌, leb_ℤ, int64}
use arvan.Prelude.Lists.{find}
use arvan.Domain.{Uuid, topup as topup_reason, Result}
use arvan.Database.{AccountModel, LedgerModel, Tables, Env, Session}
use arvan.Database.Laws.{Yields, Yields-bind, Yields-weaken, Ends, transaction-Ends}
use arvan.Repository.Account.{by_id, save}
use arvan.Repository.Account.Laws.{lock_and_add_balance-Yields}
use arvan.Repository.Ledger.Laws as LedgerLaws
use arvan.Service.Account.{topup_entry, topup_tx, topup}

-- The tables `u` are `t` with the amount credited: the account has the new balance, and the ledger
-- an entry of the amount.
pub record Credited (account_id : Uuid) (amount balance : ℤ) (t u : Tables) : Type 0 where
  pub row : AccountModel
  pub entry : LedgerModel
  pub at_id : find (by_id account_id) t.accounts ≡ some row
  pub sum : balance ≡ int64 (row.balance +ℤ amount)
  pub positive : pos 0 ≤ℤ balance
  pub rows : u ≡ record t {
    accounts = save (record row { balance = balance }) t.accounts;
    account_ledger = t.account_ledger ++ entry ∷ [];
  }
  pub entry_account : entry.account_id ≡ account_id
  pub entry_delta : entry.delta ≡ amount
  pub entry_reason : entry.reason ≡ topup_reason
  pub entry_ref : entry.ref_id ≡ none

module _ (env : Env) (account_id : Uuid) (amount : ℤ) where
  topup_tx-Yields :
      (s : Session)
      → Yields
          (λ b t. Credited account_id amount b s.tables t.tables)
          (topup_tx env account_id amount s)
  unfolding topup_tx
  topup_tx-Yields s =
      Yields-bind (lock_and_add_balance-Yields env account_id amount s)
        λ balance s1 (row, at_id, sum, positive, saved).
          Yields-bind (LedgerLaws.create-Yields env (topup_entry account_id amount) s1)
            λ _ s2 entry. record {
              holds = record {
                row = row;
                entry = entry.row;
                at_id = at_id;
                sum = sum;
                positive = positive;
                rows = rw (entry.rows, saved);
                entry_account = entry.account_id;
                entry_delta = entry.delta;
                entry_reason = entry.reason;
                entry_ref = entry.ref_id;
              };
            }

  abbrev pub TopupEnds : Session → Result ℤ × Session → Type 0
  TopupEnds s =
      Ends (λ balance u. (pos 1 ≤ℤ amount) × Credited account_id amount balance s.tables u) s.tables

  -- Whatever the environment does: a top-up that is answered was of a positive amount, and credited
  -- it with one ledger entry; one that is refused leaves the tables as they were, but for a commit
  -- whose acknowledgement was lost.
  pub topup-Ends : (s : Session) → TopupEnds s (topup env account_id amount s)
  unfolding topup
  topup-Ends s = elim (Bool-cases (leb_ℤ amount (pos 0))) [
    | inl refused ↦ rw refused (inl refl)
    | inr passed ↦ rw passed (
        transaction-Ends _ env (topup_tx env account_id amount) s λ s' same.
          Yields-weaken (topup_tx-Yields s')
            λ b u h. (ground arith, subst (λ t. Credited account_id amount b t u.tables) same h))
  ]
