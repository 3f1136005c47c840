-- ===== src/Repository/Idempotency/Laws.antt =====
-- What the claim of a key and the update of its snapshot do to the rows.
use arvan.Prelude.{
  ⊤, String, Bool, true, false, ◌≡◌, refl, subst, none, some, [], ◌∷◌, ◌++◌, ◌==◌, arith,
}
use arvan.Prelude.Lists.{find, has, update, has-find}
use arvan.Domain.{Uuid, IdempotencyRecord, Snapshot, placeholder, Error, Result, ok, err}
use arvan.Database.{IdempotencyKeyModel, Tables, Env, Session, new_uuid, time_now, statement}
use arvan.Database.Laws.{
  Yields, Yields-bind, Yields-weaken, OnOk, statement-Yields, raise_if-Yields,
}
use arvan.Database.Sql.{unchanged}
use arvan.Database.Sql.Laws.{first-Yields}
use arvan.Repository.Idempotency.{
  to_domain_idempotency, by_account_and_key, insert_key, set_snapshot, write_snapshot,
  find_by_account_and_key, claimed_or_existing, claim_or_get, update_snapshot,
}

-- The rows after the key was claimed: no row had it before, and the new one has the placeholder.
pub record Claimed (account_id : Uuid) (key : String) (t u : Tables) : Type 0 where
  pub row : IdempotencyKeyModel
  pub rows : u ≡ record t { idempotency_keys = t.idempotency_keys ++ row ∷ [] }
  pub account : row.account_id ≡ account_id
  pub named : row.idempotency_key ≡ key
  pub snapshot : row.response_snapshot ≡ placeholder
  pub fresh : find (by_account_and_key account_id key) t.idempotency_keys ≡ none

-- What the claim of a key answers and leaves.
abbrev pub ClaimsOrGets : Uuid → String → Tables → IdempotencyRecord × Bool → Tables → Type 0
ClaimsOrGets account_id key t (found, true) u = Claimed account_id key t u
ClaimsOrGets account_id key t (found, false) u =
    (row : IdempotencyKeyModel) × (find (by_account_and_key account_id key) t.idempotency_keys
      ≡ some row)
    × (found ≡ to_domain_idempotency row)
    × (u ≡ t)

insert_key-ok :
    (m : IdempotencyKeyModel) (t : Tables) {u : Tables}
    → insert_key m t ≡ (ok tt, u)
    → (has (by_account_and_key m.account_id m.idempotency_key) t.idempotency_keys ≡ false)
      × (u ≡ record t { idempotency_keys = t.idempotency_keys ++ m ∷ [] })
unfolding insert_key
insert_key-ok m t h = ground arith

unchanged-ok : (t u : Tables) → unchanged t ≡ (ok tt, u) → u ≡ t
unchanged-ok t u h = ground arith

module _ (env : Env) where
  find_by_account_and_key-Yields :
      (account_id : Uuid) (key : String) (s : Session)
      → Yields
          (λ found t.
            (row : IdempotencyKeyModel) × (find
                (by_account_and_key account_id key)
                s.tables.idempotency_keys
              ≡ some row)
            × (found ≡ to_domain_idempotency row)
            × (t.tables ≡ s.tables))
          (find_by_account_and_key env account_id key s)
  unfolding find_by_account_and_key
  find_by_account_and_key-Yields account_id key s =
      Yields-bind (first-Yields env (λ t. t.idempotency_keys) (by_account_and_key account_id key) s)
        (λ row t (at_key, same). record { holds = (row, at_key, refl, same) })

  claimed_or_existing-Yields :
      (m : IdempotencyKeyModel) (t : Tables) (r : Result ⊤) (s : Session)
      → OnOk (λ _ u. insert_key m t ≡ (ok tt, u.tables)) (r, s)
      → m.response_snapshot ≡ placeholder
      → Yields
          (λ a u. ClaimsOrGets m.account_id m.idempotency_key t a u.tables)
          (claimed_or_existing env m t r s)
  unfolding claimed_or_existing
  claimed_or_existing-Yields m t (ok _) s saved blank =
      let (none_has, rows) = insert_key-ok m t saved in
      record {
        holds = record {
          row = m;
          rows = rows;
          account = refl;
          named = refl;
          snapshot = blank;
          fresh =
              has-find (by_account_and_key m.account_id m.idempotency_key) t.idempotency_keys
                none_has;
        };
      }
  claimed_or_existing-Yields m t (err Error.duplicated_key) s saved blank =
      Yields-bind (statement-Yields env (λ _. (ok tt, t)) s) λ _ s1 back.
        Yields-bind (find_by_account_and_key-Yields m.account_id m.idempotency_key s1)
          λ found s2 (row, at_key, is_row, same). record {
            holds = (row, ground arith, is_row, ground arith);
          }
  claimed_or_existing-Yields m t (err _) s saved blank = record { holds = tt }

  -- A successful claim inserted the placeholder under a key that was free, or changed nothing and
  -- answers the row that holds the key.
  pub claim_or_get-Yields :
      (account_id : Uuid) (key : String) (s : Session)
      → Yields
          (λ a t. ClaimsOrGets account_id key s.tables a t.tables)
          (claim_or_get env account_id key s)
  unfolding claim_or_get
  claim_or_get-Yields account_id key s =
      Yields-bind (statement-Yields env unchanged (new_uuid env s).1) λ _ s1 same.
        let s2 : Session = (time_now env s1).1 in
        let m : IdempotencyKeyModel = record {
          id = env.new_uuid s.step;
          account_id = account_id;
          idempotency_key = key;
          response_snapshot = placeholder;
          created_at = env.now s1.step;
        } in
        let (r, s3) = statement env (insert_key m) s2 in
        Yields-weaken
          (claimed_or_existing-Yields m s1.tables r s3
            (statement-Yields env (insert_key m) s2).holds refl)
          (λ a u h. subst (λ t. ClaimsOrGets account_id key t a u.tables) (unchanged-ok _ _ same) h)

  -- A successful update wrote the snapshot of the key's rows, of which there was one.
  pub update_snapshot-Yields :
      (account_id : Uuid) (key : String) (snapshot : Snapshot) (s : Session)
      → Yields
          (λ _ t. t.tables ≡ record s.tables {
            idempotency_keys =
                update
                  (by_account_and_key account_id key)
                  (set_snapshot snapshot)
                  s.tables.idempotency_keys;
          })
          (update_snapshot env account_id key snapshot s)
  unfolding update_snapshot write_snapshot
  update_snapshot-Yields account_id key snapshot s =
      Yields-bind (statement-Yields env (write_snapshot account_id key snapshot) s)
        λ affected s1 written.
          Yields-weaken (raise_if-Yields (affected == 0) Error.not_found s1)
            λ _ s2 (some_row, same). ground arith
