-- ===== src/Repository/Ledger/Laws.antt =====
-- What the insertion of a ledger entry does to the rows.
use arvan.Prelude.{◌≡◌, refl, [], ◌∷◌, ◌++◌, ◌==◌, arith}
use arvan.Domain.{LedgerEntry, ok}
use arvan.Database.{LedgerModel, Tables, Env, Session, pure, new_uuid, time_now}
use arvan.Database.Laws.{Yields, Yields-bind, Yields-weaken, Yields-if, statement-Yields}
use arvan.Repository.Ledger.{insert_ledger, entry_id, create}

insert_ledger-ok :
    (m : LedgerModel) (t : Tables) {u : Tables}
    → insert_ledger m t ≡ (ok tt, u)
    → u ≡ record t { account_ledger = t.account_ledger ++ m ∷ [] }
unfolding insert_ledger
insert_ledger-ok m t h = ground arith

-- The rows after an entry with these fields was appended.
pub record Appended (entry : LedgerEntry) (t u : Tables) : Type 0 where
  pub row : LedgerModel
  pub rows : u ≡ record t { account_ledger = t.account_ledger ++ row ∷ [] }
  pub account_id : row.account_id ≡ entry.account_id
  pub delta : row.delta ≡ entry.delta
  pub reason : row.reason ≡ entry.reason
  pub ref_id : row.ref_id ≡ entry.ref_id

module _ (env : Env) where
  entry_id-Yields :
      (entry : LedgerEntry) (s : Session)
      → Yields (λ _ t. t.tables ≡ s.tables) (entry_id env entry.id s)
  unfolding entry_id
  entry_id-Yields entry s =
      Yields-if (entry.id == 0) (new_uuid env) (pure entry.id) s (record { holds = refl })
        (record { holds = refl })

  pub create-Yields :
      (entry : LedgerEntry) (s : Session)
      → Yields (λ _ t. Appended entry s.tables t.tables) (create env entry s)
  unfolding create
  create-Yields entry s = Yields-bind (entry_id-Yields entry s) λ id s1 same.
      let s2 : Session = (time_now env s1).1 in
      let m : LedgerModel = record {
        id = id;
        account_id = entry.account_id;
        delta = entry.delta;
        reason = entry.reason;
        ref_id = entry.ref_id;
        created_at = env.now s1.step;
      } in
      Yields-weaken (statement-Yields env (insert_ledger m) s2) λ _ s3 saved. record {
        row = m;
        rows = rw (← same) (insert_ledger-ok m s2.tables saved);
        account_id = refl;
        delta = refl;
        reason = refl;
        ref_id = refl;
      }
