-- ===== src/Database/Spares.antt =====
-- Actions that leave the cache of responses as it was.
use arvan.Prelude.{⊤, Bool, true, false, ◌≡◌, refl, ◌∙◌, if◌then◌else◌}
use arvan.Domain.{Error, Result, ok, err}
use arvan.Database.Rows.{Tables}
use arvan.Database.Action.{
  Outcome, done, refused, lost, Env, Session, Exec, pure, raise, raise_if, attempt, continue, ◌>>=◌,
  settle, finish, enclose, statement, transaction,
}
use arvan.Database.Sql.{translate, with_domain_errors}

-- However the action ends, the cache is as it was.
pub record Spares {A : Type 0} (m : Exec A) : Type 0 where
  pub at : (s : Session) → (m s).1.cache ≡ s.cache

settle-cache :
    {A : Type 0} (o : Outcome) (p : Result A × Tables) (s : Session)
    → (settle o p s).1.cache ≡ s.cache
settle-cache done p s = refl
settle-cache refused p s = refl
settle-cache lost p s = refl

finish-cache :
    {A : Type 0} (o : Outcome) (t : Tables) (r : Result A × Session)
    → (finish o t r).1.cache ≡ r.1.cache
finish-cache o t (err e, s) = refl
finish-cache done t (ok a, s) = refl
finish-cache refused t (ok a, s) = refl
finish-cache lost t (ok a, s) = refl

translate-cache : {A : Type 0} (r : Result A × Session) → (translate r).1.cache ≡ r.1.cache
translate-cache (ok a, s) = refl
translate-cache (err e, s) = refl

module _ {A : Type 0} where
  pub Spares-statement : (env : Env) (q : Tables → Result A × Tables) → Spares (statement env q)
  unfolding statement
  Spares-statement env q = record { at = λ s. settle-cache (env.outcome s.step) (q s.tables) s }

  pub Spares-translate : (m : Exec A) → Spares m → Spares (with_domain_errors m)
  Spares-translate m h = record { at = λ s. translate-cache (m s) ∙ h.at s }

  pub Spares-pure : (a : A) → Spares (pure a)
  Spares-pure a = record { at = λ s. refl }

  pub Spares-raise : (e : Error) → Spares (raise {A = A} e)
  Spares-raise e = record { at = λ s. refl }

  pub Spares-attempt : (m : Exec A) → Spares m → Spares (attempt m)
  Spares-attempt m h = record { at = λ s. h.at s }

module _ {A B : Type 0} where
  Spares-continue :
      (f : A → Exec B) (r : Result A × Session)
      → ((a : A) → Spares (f a))
      → (continue f r).1.cache ≡ r.1.cache
  Spares-continue f (ok a, s) h = (h a).at s
  Spares-continue f (err e, s) h = refl

  pub Spares-bind :
      (m : Exec A) (f : A → Exec B) → Spares m → ((a : A) → Spares (f a)) → Spares (m >>= f)
  Spares-bind m f h k = record { at = λ s. Spares-continue f (m s) k ∙ h.at s }

pub Spares-if :
    {A : Type 0} (b : Bool) (m n : Exec A) → Spares m → Spares n → Spares (if b then m else n)
Spares-if true m n h k = h
Spares-if false m n h k = k

pub Spares-raise_if : (b : Bool) (e : Error) → Spares (raise_if b e)
Spares-raise_if true e = record { at = λ s. refl }
Spares-raise_if false e = record { at = λ s. refl }

pub Spares-transaction :
    {A : Type 0} (env : Env) (m : Exec A) → Spares m → Spares (transaction env m)
unfolding transaction
Spares-transaction env m h =
    Spares-bind (statement env (λ t. (ok tt, t))) (λ _. enclose env.outcome m)
      (Spares-statement {A = ⊤} env (λ t. (ok tt, t)))
      (λ _. record { at = λ s. finish-cache (env.outcome (m s).1.step) s.tables (m s) ∙ h.at s })
