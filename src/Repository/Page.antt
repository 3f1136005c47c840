-- ===== src/Repository/Page.antt =====
-- The keyset pagination that ListByAccount of internal/repository/ledger.go and sms.go share: the
-- rows of an account, newest first, behind the row that the cursor names. A UUID is compared as the
-- number that it stands for, as PostgreSQL compares it.
pub mod Order
pub mod Own
pub mod Walk
pub mod Complete
use mathlib.Core.List.{map}
use arvan.Prelude.{
  ℕ, zero, suc, Bool, true, false, ◌&&◌, ◌||◌, ◌==◌, Option, none, some, List, [], ◌∷◌, ◌++◌, ltb,
  if◌then◌else◌,
}
use arvan.Prelude.Int.{ℤ, pos, pos_part, leb_ℤ}
use arvan.Prelude.Lists.{find, select, take, length}
use arvan.Domain.{Uuid, Time, Error, record_not_found, invalid_cursor, Result, ok, err}
use arvan.Database.{Tables, Env, Session, Exec, pure, ◌>>=◌, statement}
use arvan.Database.Sql.{first}

-- `if limit <= 0 { limit = 20 }` and `if limit > 100 { limit = 100 }`
abbrev pub page_limit : ℤ → ℕ
page_limit limit =
    if leb_ℤ limit (pos 0) then 20 else if leb_ℤ limit (pos 100) then pos_part limit else 100

module _ {A : Type 0} (created_at : A → Time) (id : A → Uuid) where
  -- (created_at < ?) OR (created_at = ? AND id < ?), of the row `a` behind the anchor.
  abbrev pub behind : A → A → Bool
  behind anchor a =
      ltb (created_at a) (created_at anchor)
      || ((created_at a == created_at anchor) && ltb (id a) (id anchor))

  -- ORDER BY created_at DESC, id DESC: the row `a` stands before `b`.
  abbrev pub precedes : A → A → Bool
  precedes a b =
      ltb (created_at b) (created_at a) || ((created_at b == created_at a) && ltb (id b) (id a))

  unfoldable pub insert_newest : A → List A → List A
  insert_newest a [] = a ∷ []
  insert_newest a (b ∷ rest) = if precedes a b then a ∷ b ∷ rest else b ∷ insert_newest a rest

  unfoldable pub newest_first : List A → List A
  unfolding insert_newest
  newest_first [] = []
  newest_first (a ∷ rest) = insert_newest a (newest_first rest)

  -- WHERE id = ? AND p
  abbrev pub row_of : (A → Bool) → Uuid → A → Bool
  row_of p cursor a = (id a == cursor) && p a

  -- WHERE p AND the row is behind the anchor
  abbrev pub accepted_behind : (A → Bool) → Option A → A → Bool
  accepted_behind p none a = p a
  accepted_behind p (some anchor) a = p a && behind anchor a

  unfoldable pub page_rows : (A → Bool) → ℕ → Option A → List A → List A
  unfolding newest_first
  page_rows p limit anchor rows = take limit (newest_first (select (accepted_behind p anchor) rows))

-- errors.Is(err, gorm.ErrRecordNotFound) of the row that the cursor names
abbrev pub cursor_error : Error → Error
cursor_error record_not_found = invalid_cursor
cursor_error e = e

abbrev pub translate_cursor : {A : Type 0} → Result A × Session → Result A × Session
translate_cursor (ok a, s) = (ok a, s)
translate_cursor (err e, s) = (err (cursor_error e), s)

module _ (env : Env) {A : Type 0} (created_at : A → Time) (id : A → Uuid) (table : Tables → List A)
    (p : A → Bool) where
  unfoldable pub anchor_row : Uuid → Exec A
  anchor_row cursor s =
      translate_cursor (statement env (first table (row_of created_at id p cursor)) s)

  unfoldable pub list_behind : ℕ → Option A → Exec (List A)
  list_behind limit anchor =
      statement env (λ t. (ok (page_rows created_at id p limit anchor (table t)), t))

  unfoldable pub list_page : ℤ → Option Uuid → Exec (List A)
  list_page limit none = list_behind (page_limit limit) none
  list_page limit (some cursor) = do
    anchor ← anchor_row cursor
    list_behind (page_limit limit) (some anchor)

  -- The page as values of the domain.
  unfoldable pub list_mapped : {B : Type 0} → (A → B) → ℤ → Option Uuid → Exec (List B)
  unfolding list_page
  list_mapped f limit cursor = do models ← list_page limit cursor; pure (map f models)
