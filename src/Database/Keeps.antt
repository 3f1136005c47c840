-- ===== src/Database/Keeps.antt =====
-- What every action of a chain keeps true of the tables, however each of them ends.
use arvan.Prelude.{⊤, Bool, true, false, if◌then◌else◌}
use arvan.Domain.{Error, Result, ok, err}
use arvan.Database.Rows.{Tables}
use arvan.Database.Action.{
  Effect, Outcome, done, refused, lost, Env, Session, Exec, pure, raise, raise_if, continue, ◌>>=◌,
  settle, finish, enclose, statement, transaction, attempt, dispatched, dispatch,
}

pub record Keeps {A : Type 0} (P : Tables → Type 0) (m : Exec A) : Type 0 where
  pub at : (s : Session) → P s.tables → P (m s).1.tables

settle-Keeps :
    {A : Type 0} (P : Tables → Type 0) (o : Outcome) (p : Result A × Tables) (s : Session)
    → P s.tables
    → P p.1
    → P (settle o p s).1.tables
settle-Keeps P done p s h k = k
settle-Keeps P refused p s h k = h
settle-Keeps P lost p s h k = k

finish-Keeps :
    {A : Type 0} (P : Tables → Type 0) (o : Outcome) (t : Tables) (r : Result A × Session)
    → P t
    → P r.1.tables
    → P (finish o t r).1.tables
finish-Keeps P o t (err e, s) h k = h
finish-Keeps P done t (ok a, s) h k = k
finish-Keeps P refused t (ok a, s) h k = h
finish-Keeps P lost t (ok a, s) h k = k

module _ {A B : Type 0} {P : Tables → Type 0} where
  continue-Keeps :
      (f : A → Exec B) (r : Result A × Session)
      → P r.1.tables
      → ((a : A) → Keeps P (f a))
      → P (continue f r).1.tables
  continue-Keeps f (ok a, s) h k = (k a).at s h
  continue-Keeps f (err e, s) h k = h

  pub Keeps-bind :
      (m : Exec A) (f : A → Exec B) → Keeps P m → ((a : A) → Keeps P (f a)) → Keeps P (m >>= f)
  Keeps-bind m f km kf = record { at = λ s h. continue-Keeps f (m s) (km.at s h) kf }

module _ {A : Type 0} {P : Tables → Type 0} where
  pub Keeps-pure : (a : A) → Keeps P (pure a)
  Keeps-pure a = record { at = λ s h. h }

  pub Keeps-raise : (e : Error) → Keeps P (raise {A = A} e)
  Keeps-raise e = record { at = λ s h. h }

  pub Keeps-attempt : (m : Exec A) → Keeps P m → Keeps P (attempt m)
  Keeps-attempt m k = record { at = λ s h. k.at s h }

  pub Keeps-statement :
      (env : Env) (q : Tables → Result A × Tables)
      → ((t : Tables) → P t → P (q t).1)
      → Keeps P (statement env q)
  unfolding statement
  Keeps-statement env q k = record {
    at = λ s h. settle-Keeps P (env.outcome s.step) (q s.tables) s h (k s.tables h);
  }

-- A transaction keeps what its function keeps.
dispatched-Keeps :
    (P : Tables → Type 0) (o : Outcome) (e : Effect) (s : Session)
    → P s.tables
    → P (dispatched o e s).1.tables
dispatched-Keeps P done e s h = h
dispatched-Keeps P refused e s h = h
dispatched-Keeps P lost e s h = h

pub Keeps-dispatch : {P : Tables → Type 0} (env : Env) (e : Effect) → Keeps P (dispatch env e)
unfolding dispatch
Keeps-dispatch {P} env e = record { at = λ s h. dispatched-Keeps P (env.outcome s.step) e s h }

pub Keeps-transaction :
    {A : Type 0} {P : Tables → Type 0} (env : Env) (m : Exec A)
    → Keeps P m
    → Keeps P (transaction env m)
unfolding transaction
Keeps-transaction {P = P} env m k =
    Keeps-bind (statement env (λ t. (ok tt, t))) (λ _. enclose env.outcome m)
      (Keeps-statement {A = ⊤} env (λ t. (ok tt, t)) (λ t h. h))
      (λ _. record {
        at = λ s h. finish-Keeps P (env.outcome (m s).1.step) s.tables (m s) h (k.at s h);
      })

pub Keeps-raise_if : {P : Tables → Type 0} (b : Bool) (e : Error) → Keeps P (raise_if b e)
Keeps-raise_if true e = record { at = λ s h. h }
Keeps-raise_if false e = record { at = λ s h. h }

pub Keeps-if :
    {A : Type 0} {P : Tables → Type 0} (b : Bool) (m n : Exec A)
    → Keeps P m
    → Keeps P n
    → Keeps P (if b then m else n)
Keeps-if true m n h k = h
Keeps-if false m n h k = k
