-- ===== src/Api/Reads.antt =====
-- The operations behind the handlers that change no table.
use arvan.Prelude.{ℕ, String, Bool, Option, none, some, List}
use arvan.Prelude.Int.{ℤ}
use arvan.Domain.{Uuid, Time, Result, ok, err}
use arvan.Database.{Env, Session, Tables}
use arvan.Database.Keeps.{Keeps, Keeps-bind, Keeps-pure, Keeps-statement}
use arvan.Database.Sql.Laws.{Keeps-first}
use arvan.Repository.Account.{find_by_token_hash, account_by_id, get_balance}
use arvan.Repository.Page.{translate_cursor, anchor_row, list_behind, list_page, list_mapped}
use arvan.Repository.Sms as Rows
use arvan.Repository.Ledger
use arvan.Service.Account
use arvan.Service.Sms

translate_cursor-Keeps :
    (P : Tables → Type 0) {A : Type 0} (r : Result A × Session)
    → P r.1.tables
    → P (translate_cursor r).1.tables
translate_cursor-Keeps P (ok a, s) h = h
translate_cursor-Keeps P (err e, s) h = h

module _ {P : Tables → Type 0} (env : Env) where
  module _ {A : Type 0} (created_at : A → Time) (id : A → Uuid) (table : Tables → List A)
      (p : A → Bool) where
    list_behind-Keeps :
        (limit : ℕ) (anchor : Option A)
        → Keeps P (list_behind env created_at id table p limit anchor)
    unfolding list_behind
    list_behind-Keeps limit anchor = Keeps-statement env _ (λ t h. h)

    list_page-Keeps :
        (limit : ℤ) (cursor : Option Uuid)
        → Keeps P (list_page env created_at id table p limit cursor)
    unfolding list_page anchor_row
    list_page-Keeps limit none = list_behind-Keeps _ none
    list_page-Keeps limit (some cursor) =
        Keeps-bind (anchor_row env created_at id table p cursor) _
          (record {
            at = λ s h.
                translate_cursor-Keeps P _ ((Keeps-statement {P = P} env _ (λ t k. k)).at s h);
          })
          (λ anchor. list_behind-Keeps _ (some anchor))

    list_mapped-Keeps :
        {B : Type 0} (f : A → B) (limit : ℤ) (cursor : Option Uuid)
        → Keeps P (list_mapped env created_at id table p f limit cursor)
    unfolding list_mapped
    list_mapped-Keeps f limit cursor =
        Keeps-bind (list_page env created_at id table p limit cursor) _
          (list_page-Keeps limit cursor) (λ models. Keeps-pure _)

  pub list_ledger-Keeps :
      (account_id : Uuid) (limit : ℤ) (cursor : Option Uuid)
      → Keeps P (Account.list_ledger env account_id limit cursor)
  unfolding Account.list_ledger Ledger.list_by_account
  list_ledger-Keeps account_id limit cursor = list_mapped-Keeps _ _ _ _ _ limit cursor

  pub list-Keeps :
      (account_id : Uuid) (limit : ℤ) (cursor : Option Uuid)
      → Keeps P (Sms.list env account_id limit cursor)
  unfolding Sms.list Rows.list_by_account
  list-Keeps account_id limit cursor = list_mapped-Keeps _ _ _ _ _ limit cursor

  pub get-Keeps : (account_id message_id : Uuid) → Keeps P (Sms.get env account_id message_id)
  unfolding Sms.get Rows.get_by_account_and_id
  get-Keeps account_id message_id =
      Keeps-bind _ _ (Keeps-first env (λ t. t.sms_messages) _) (λ model. Keeps-pure _)

  pub get_balance-Keeps : (account_id : Uuid) → Keeps P (Account.get_balance env account_id)
  unfolding Account.get_balance get_balance account_by_id
  get_balance-Keeps account_id =
      Keeps-bind _ _ (Keeps-first env (λ t. t.accounts) _) (λ model. Keeps-pure _)

  pub find_by_token_hash-Keeps : (token_hash : String) → Keeps P (find_by_token_hash env token_hash)
  unfolding find_by_token_hash
  find_by_token_hash-Keeps token_hash =
      Keeps-bind _ _ (Keeps-first env (λ t. t.accounts) _) (λ model. Keeps-pure _)
