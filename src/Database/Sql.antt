-- ===== src/Database/Sql.antt =====
-- The shapes of statement that the repositories send, as functions of the rows.
pub mod Laws
use arvan.Prelude.{⊤, Bool, Option, none, some, List}
use arvan.Prelude.Lists.{find}
use arvan.Domain.{Error, record_not_found, not_found, Result, ok, err}
use arvan.Database.Rows.{Tables}
use arvan.Database.Action.{Session, Exec}

abbrev pub found : {A : Type 0} → Option A → Result A
found none = err record_not_found
found (some a) = ok a

-- db.Where(p).First(&model)
abbrev pub first : {A : Type 0} → (Tables → List A) → (A → Bool) → Tables → Result A × Tables
first table p t = (found (find p (table t)), t)

-- The rows without effect.
abbrev pub unchanged : Tables → Result ⊤ × Tables
unchanged t = (ok tt, t)

-- `if errors.Is(err, gorm.ErrRecordNotFound) { return domainerrors.ErrNotFound }`
abbrev pub domain_error : Error → Error
domain_error record_not_found = not_found
domain_error e = e

abbrev pub translate : {A : Type 0} → Result A × Session → Result A × Session
translate (ok a, s) = (ok a, s)
translate (err e, s) = (err (domain_error e), s)

abbrev pub with_domain_errors : {A : Type 0} → Exec A → Exec A
with_domain_errors m s = translate (m s)
