-- ===== src/Accounting/Opening.antt =====
-- The books and UpsertByTokenHash of internal/repository/account.go.
use arvan.Prelude.{
  String, Bool-cases, none, List, [], ◌∷◌, ◌++◌, ◌==◌, ◌≡◌, refl, inl, inr, arith, if◌then◌else◌,
}
use arvan.Prelude.Int.{pos}
use arvan.Prelude.Lists.{find, has, has-find}
use arvan.Domain.{Uuid, Error, Result, ok, err}
use arvan.Database.{AccountModel, Tables, Env, statement, attempt, new_uuid, time_now}
use arvan.Database.Keeps.{
  Keeps, Keeps-bind, Keeps-pure, Keeps-raise, Keeps-attempt, Keeps-statement,
}
use arvan.Database.Sql.{first}
use arvan.Repository.Account.{
  by_id, by_token_hash, insert_account, to_domain_account, create_account, create_if_missing,
  upsert_by_token_hash,
}
use arvan.Accounting.{balance_or_zero, balance_of, Reconciled}

find-append_one :
    (j : Uuid) (m : AccountModel) (rows : List AccountModel)
    → find (by_id m.id) rows ≡ none
    → balance_or_zero (find (by_id j) (rows ++ m ∷ []))
      ≡ (if m.id == j then m.balance else balance_or_zero (find (by_id j) rows))
find-append_one j m [] h = ground arith
find-append_one j m (x ∷ rows) h = ground (arith, find-append_one j m rows)

same_balance :
    (m : AccountModel) (t : Tables) (j : Uuid)
    → m.balance ≡ pos 0
    → find (by_id m.id) t.accounts ≡ none
    → balance_or_zero (find (by_id j) (t.accounts ++ m ∷ [])) ≡ balance_of j t
same_balance m t j blank new = elim (Bool-cases (m.id == j)) [
  | inl e ↦
      let here : m.id ≡ j = ground arith in
      rw (find-append_one j m t.accounts new, e, blank, ← here, new)
  | inr e ↦ rw (find-append_one j m t.accounts new, e)
]

added-Reconciled :
    (m : AccountModel) (t : Tables)
    → m.balance ≡ pos 0
    → find (by_id m.id) t.accounts ≡ none
    → Reconciled t
    → Reconciled (record t { accounts = t.accounts ++ m ∷ [] })
added-Reconciled m t blank new r = record {
  balanced = λ j. rw (same_balance m t j blank new) (r.balanced j);
  positive = λ j. rw (same_balance m t j blank new) (r.positive j);
  fits = λ j. rw (same_balance m t j blank new) (r.fits j);
}

-- A new account with no balance changes no balance.
insert-Reconciled :
    (m : AccountModel) (t : Tables)
    → m.balance ≡ pos 0
    → Reconciled t
    → Reconciled (insert_account m t).1
unfolding insert_account
insert-Reconciled m t blank r = elim (Bool-cases (has (by_id m.id) t.accounts)) [
  | inl taken ↦ rw taken r
  | inr free ↦ rw free (elim (Bool-cases (has (by_token_hash m.token_hash) t.accounts)) [
    | inl taken ↦ rw taken r
    | inr new ↦ rw new (added-Reconciled m t blank (has-find (by_id m.id) t.accounts free) r)
  ])
]

module _ (env : Env) where
  create_account-Reconciled :
      (token_hash : String) → Keeps Reconciled (create_account env token_hash)
  unfolding create_account
  create_account-Reconciled token_hash =
      Keeps-bind (new_uuid env) _ (record { at = λ s h. h })
        λ id.
          Keeps-bind (time_now env) _ (record { at = λ s h. h })
            λ now.
              let m : AccountModel = record {
                id = id;
                token_hash = token_hash;
                balance = pos 0;
                created_at = now;
              } in
              Keeps-bind (statement env (insert_account m)) _
                (Keeps-statement env (insert_account m) (λ t h. insert-Reconciled m t refl h))
                (λ _. Keeps-pure (to_domain_account m))

  create_if_missing-Reconciled :
      (token_hash : String) (r : Result AccountModel)
      → Keeps Reconciled (create_if_missing env token_hash r)
  unfolding create_if_missing
  create_if_missing-Reconciled token_hash (ok m) = Keeps-pure (to_domain_account m)
  create_if_missing-Reconciled token_hash (err Error.record_not_found) =
      create_account-Reconciled token_hash
  create_if_missing-Reconciled token_hash (err e) = Keeps-raise e

  -- Finding or creating an account keeps the books, however it ends.
  pub upsert-Reconciled :
      (token_hash : String) → Keeps Reconciled (upsert_by_token_hash env token_hash)
  unfolding upsert_by_token_hash
  upsert-Reconciled token_hash =
      let q : Tables → Result AccountModel × Tables =
        first (λ t. t.accounts) (by_token_hash token_hash) in
      Keeps-bind (attempt (statement env q)) (create_if_missing env token_hash)
        (Keeps-attempt (statement env q) (Keeps-statement env q (λ t h. h)))
        (create_if_missing-Reconciled token_hash)
