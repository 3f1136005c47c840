-- ===== src/Database/Sql/Laws.antt =====
-- What a successful SELECT has found.
use arvan.Prelude.{Bool, ◌≡◌, Option, none, some, List, arith}
use arvan.Prelude.Lists.{find}
use arvan.Domain.{Result, ok, err}
use arvan.Database.Rows.{Tables}
use arvan.Database.Action.{Env, Session, statement}
use arvan.Database.Laws.{Yields, Yields-weaken, statement-Yields}
use arvan.Database.Keeps.{Keeps, Keeps-statement}
use arvan.Database.Sql.{found, first, translate, with_domain_errors}

module _ {A : Type 0} where
  translate-Yields :
      {Q : A → Session → Type 0} (r : Result A × Session) → Yields Q r → Yields Q (translate r)
  translate-Yields (ok a, s) h = h
  translate-Yields (err e, s) h = record { holds = tt }

  found-ok :
      (o : Option A) (a : A) (t u : Tables)
      → ◌≡◌ {A = Result A × Tables} (found o, t) (ok a, u)
      → (o ≡ some a) × (u ≡ t)
  found-ok none a t u h = cc
  found-ok (some b) a t u h = ground arith

  -- A row that a SELECT answers is the first that its clause accepts, and nothing has changed.
  pub first-Yields :
      (env : Env) (table : Tables → List A) (p : A → Bool) (s : Session)
      → Yields
          (λ a t. (find p (table s.tables) ≡ some a) × (t.tables ≡ s.tables))
          (with_domain_errors (statement env (first table p)) s)
  first-Yields env table p s = translate-Yields _ (
      Yields-weaken (statement-Yields env (first table p) s)
        (λ a t h. found-ok (find p (table s.tables)) a s.tables t.tables h))

  translate-Keeps :
      (P : Tables → Type 0) (r : Result A × Session) → P r.1.tables → P (translate r).1.tables
  translate-Keeps P (ok a, s) h = h
  translate-Keeps P (err e, s) h = h

-- A SELECT keeps everything.
pub Keeps-first :
    {A : Type 0} {P : Tables → Type 0} (env : Env) (table : Tables → List A) (p : A → Bool)
    → Keeps P (with_domain_errors (statement env (first table p)))
Keeps-first {P} env table p = record {
  at = λ s h.
      translate-Keeps P (statement env (first table p) s)
        ((Keeps-statement {P = P} env (first table p) (λ t h. h)).at s h);
}
