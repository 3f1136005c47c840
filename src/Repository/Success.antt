-- ===== src/Repository/Success.antt =====
-- The methods of the repositories where every statement is done: accounts and the ledger.
pub mod Inserts
use arvan.Prelude.{
  zero, ==_refl, eq_refl, ⊤, ℕ, Bool, true, false, none, some, ◌≡◌, refl, suc, List, [], ◌∷◌, ◌++◌,
  arith, ◌==◌, String,
}
use arvan.Prelude.Int.{ℤ, pos, ◌-ℤ◌, ◌≤ℤ◌, ltb_ℤ, int64}
use arvan.Prelude.Lists.{find, has, count, has-find, find-accepts}
use arvan.Domain.{
  Uuid, SmsMessage, OutboxEvent, Snapshot, placeholder, not_found, Error, Result, ok,
  insufficient_balance,
}
use arvan.Database.{
  AccountModel, LedgerModel, SmsMessageModel, OutboxEventModel, IdempotencyKeyModel, Tables, done,
  Env, Session, Exec, pure, raise_if, ◌>>◌, statement,
}
use arvan.Database.Sql.{unchanged, first, translate}
use arvan.Database.Success.{
  Succeeds, Succeeds-ok, Succeeds-bind, Succeeds-weaken, statement-Succeeds,
}
use arvan.Repository.Account
use arvan.Repository.Account.{by_id, save, save_account}
use arvan.Repository.Account.Laws.{find-save}
use arvan.Repository.Ledger.{insert_ledger}
use arvan.Repository.Sms
use arvan.Repository.Sms.{insert_sms}
use arvan.Repository.Outbox
use arvan.Repository.Outbox.{insert_outbox, event_by_id}
use arvan.Repository.Idempotency
use arvan.Repository.Idempotency.{by_account_and_key, insert_key, write_snapshot, set_snapshot}

translate-Succeeds :
    {A : Type 0} {P : A → Tables → Type 0} (r : Result A × Session)
    → Succeeds P r
    → Succeeds P (translate r)
translate-Succeeds r h = record {
  answer = h.answer;
  left = h.left;
  runs = rw h.runs;
  holds = h.holds;
}

pub saved :
    (m : AccountModel) (t : Tables)
    → pos 0 ≤ℤ m.balance
    → save_account m t ≡ (ok tt, record t { accounts = save m t.accounts })
unfolding save_account
saved m t h = ground (arith, h)

pub inserted_entry :
    (m : LedgerModel) (t : Tables)
    → has (λ (e : LedgerModel). e.id == m.id) t.account_ledger ≡ false
    → has (by_id m.account_id) t.accounts ≡ true
    → insert_ledger m t ≡ (ok tt, record t { account_ledger = t.account_ledger ++ m ∷ [] })
unfolding insert_ledger
inserted_entry m t h k = rw (h, k)

pub found-has :
    {A : Type 0} (p : A → Bool) (xs : List A) (a : A) → find p xs ≡ some a → has p xs ≡ true
found-has p xs a h = ground (arith, has-find p xs, h)

-- The account is still there with its new balance.
pub saved-has :
    (id : Uuid) (row m : AccountModel) (rows : List AccountModel)
    → find (by_id id) rows ≡ some row
    → m.id ≡ row.id
    → has (by_id id) (save m rows) ≡ true
saved-has id row m rows h e =
    found-has (by_id id) (save m rows) m
      (rw (find-save m id rows, e, find-accepts (by_id id) rows row h))

-- A guard that passes.
pub Succeeds-passed :
    (e : Error) (b : Bool) (s : Session)
    → b ≡ false
    → Succeeds (λ _ t. t ≡ s.tables) (raise_if b e s)
Succeeds-passed e b s h = rw h (Succeeds-ok _ tt s refl)

module _ (env : Env) (all_done : (n : ℕ) → env.outcome n ≡ done) where
  pub found-Succeeds :
      (account_id : Uuid) (row : AccountModel) (s : Session)
      → find (by_id account_id) s.tables.accounts ≡ some row
      → Succeeds (λ a t. (a ≡ row) × (t ≡ s.tables)) (Account.account_by_id env account_id s)
  unfolding Account.account_by_id
  found-Succeeds account_id row s h = translate-Succeeds _ (
      statement-Succeeds env all_done (first (λ t. t.accounts) (by_id account_id)) s row s.tables
        (rw h))

  deducted-Succeeds :
      (a : AccountModel) (cost : ℤ) (t : Session)
      → cost ≤ℤ a.balance
      → pos 0 ≤ℤ int64 (a.balance -ℤ cost)
      → Succeeds
          (λ b u. u ≡ record t.tables {
            accounts = save (record a { balance = int64 (a.balance -ℤ cost) }) t.tables.accounts;
          })
          ((raise_if (ltb_ℤ a.balance cost) insufficient_balance
              >> (statement env (save_account (record a { balance = int64 (a.balance -ℤ cost) }))
                  >> pure (int64 (a.balance -ℤ cost))))
            t)
  deducted-Succeeds a cost t funded positive =
      Succeeds-bind (λ _. statement env (save_account _) >> pure (int64 (a.balance -ℤ cost))) _
        (Succeeds-passed insufficient_balance (ltb_ℤ a.balance cost) t (ground arith))
        (λ _ u same.
          Succeeds-bind (λ _. pure (int64 (a.balance -ℤ cost))) _
            (statement-Succeeds env all_done (save_account _) u tt _ (saved _ u.tables positive))
            (λ _ v (_, e). Succeeds-ok _ _ v (rw (e, same) refl)))

  -- A deduction that the balance covers.
  pub deduct-Succeeds :
      (account_id : Uuid) (cost : ℤ) (row : AccountModel) (s : Session)
      → find (by_id account_id) s.tables.accounts ≡ some row
      → cost ≤ℤ row.balance
      → pos 0 ≤ℤ int64 (row.balance -ℤ cost)
      → Succeeds
          (λ b u. u ≡ record s.tables {
            accounts =
                save (record row { balance = int64 (row.balance -ℤ cost) }) s.tables.accounts;
          })
          (Account.deduct_locked_balance env account_id cost s)
  unfolding Account.deduct_locked_balance
  deduct-Succeeds account_id cost row s h funded positive =
      Succeeds-bind _ _ (found-Succeeds account_id row s h) λ a t (is_row, same).
        Succeeds-weaken (deducted-Succeeds a cost t (rw is_row funded) (rw is_row positive))
          λ b u e. rw (e, is_row, same) refl

  -- The lock of an account that is there answers its balance.
  pub lock-Succeeds :
      (account_id : Uuid) (row : AccountModel) (s : Session)
      → find (by_id account_id) s.tables.accounts ≡ some row
      → Succeeds
          (λ b u. (b ≡ row.balance) × (u ≡ s.tables))
          (Account.lock_account_for_update env account_id s)
  unfolding Account.lock_account_for_update
  lock-Succeeds account_id row s h =
      Succeeds-bind _ _ (found-Succeeds account_id row s h)
        λ a t (is_row, same). Succeeds-ok _ a.balance t (rw is_row refl, same)
