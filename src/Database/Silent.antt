-- ===== src/Database/Silent.antt =====
-- Actions that leave what `view` sees of the effects as it was.
use arvan.Prelude.{⊤, ℕ, suc, Bool, true, false, List, [], ◌∷◌, ◌≡◌, refl, if◌then◌else◌}
use arvan.Domain.{Error, Result, ok, err}
use arvan.Database.Rows.{Tables}
use arvan.Database.Action.{
  Effect, called_operator, published_to, Outcome, done, refused, lost, Env, Session, Exec, pure,
  raise, attempt, continue, ◌>>=◌, settle, finish, enclose, statement, transaction, dispatched,
  dispatch,
}
use arvan.Database.Sql.{translate, with_domain_errors}

-- How many of the effects are calls of the operator.
unfoldable pub operator_calls : List Effect → ℕ
operator_calls [] = 0
operator_calls (called_operator req ∷ rest) = suc (operator_calls rest)
operator_calls (published_to queue body ∷ rest) = operator_calls rest

-- However the action ends, what `view` sees of the effects is as it was.
pub record Silent {X A : Type 0} (view : List Effect → X) (m : Exec A) : Type 0 where
  pub at : (s : Session) → view (m s).1.effects ≡ view s.effects

settle-effects :
    {A : Type 0} (o : Outcome) (p : Result A × Tables) (s : Session)
    → (settle o p s).1.effects ≡ s.effects
settle-effects done p s = refl
settle-effects refused p s = refl
settle-effects lost p s = refl

finish-effects :
    {A : Type 0} (o : Outcome) (t : Tables) (r : Result A × Session)
    → (finish o t r).1.effects ≡ r.1.effects
finish-effects o t (err e, s) = refl
finish-effects done t (ok a, s) = refl
finish-effects refused t (ok a, s) = refl
finish-effects lost t (ok a, s) = refl

translate-effects : {A : Type 0} (r : Result A × Session) → (translate r).1.effects ≡ r.1.effects
translate-effects (ok a, s) = refl
translate-effects (err e, s) = refl

module _ {X : Type 0} {view : List Effect → X} where
  pub Silent-statement :
      {A : Type 0} (env : Env) (q : Tables → Result A × Tables) → Silent view (statement env q)
  unfolding statement
  Silent-statement env q = record {
    at = λ s. rw (settle-effects (env.outcome s.step) (q s.tables) s);
  }

  dispatched-effects :
      (o : Outcome) (e : Effect) (s : Session)
      → ((es : List Effect) → view (e ∷ es) ≡ view es)
      → view (dispatched o e s).1.effects ≡ view s.effects
  dispatched-effects done e s h = h s.effects
  dispatched-effects refused e s h = refl
  dispatched-effects lost e s h = h s.effects

  -- A message that the view leaves out.
  pub Silent-dispatch :
      (env : Env) (e : Effect)
      → ((es : List Effect) → view (e ∷ es) ≡ view es)
      → Silent view (dispatch env e)
  unfolding dispatch
  Silent-dispatch env e h = record { at = λ s. dispatched-effects (env.outcome s.step) e s h }

  pub Silent-translate :
      {A : Type 0} (m : Exec A) → Silent view m → Silent view (with_domain_errors m)
  Silent-translate m h = record { at = λ s. rw (translate-effects (m s), h.at s) }

  module _ {A B : Type 0} where
    Silent-continue :
        (f : A → Exec B) (r : Result A × Session)
        → ((a : A) → Silent view (f a))
        → view (continue f r).1.effects ≡ view r.1.effects
    Silent-continue f (ok a, s) h = (h a).at s
    Silent-continue f (err e, s) h = refl

    pub Silent-bind :
        (m : Exec A) (f : A → Exec B)
        → Silent view m
        → ((a : A) → Silent view (f a))
        → Silent view (m >>= f)
    Silent-bind m f h k = record { at = λ s. rw (Silent-continue f (m s) k, h.at s) }

  pub Silent-pure : {A : Type 0} (a : A) → Silent view (pure a)
  Silent-pure a = record { at = λ s. refl }

  pub Silent-raise : {A : Type 0} (e : Error) → Silent view (raise {A = A} e)
  Silent-raise e = record { at = λ s. refl }

  pub Silent-attempt : {A : Type 0} (m : Exec A) → Silent view m → Silent view (attempt m)
  Silent-attempt m h = record { at = λ s. h.at s }

  pub Silent-if :
      {A : Type 0} (b : Bool) (m n : Exec A)
      → Silent view m
      → Silent view n
      → Silent view (if b then m else n)
  Silent-if true m n h k = h
  Silent-if false m n h k = k

  pub Silent-transaction :
      {A : Type 0} (env : Env) (m : Exec A) → Silent view m → Silent view (transaction env m)
  unfolding transaction
  Silent-transaction env m h =
      Silent-bind (statement env (λ t. (ok tt, t))) (λ _. enclose env.outcome m)
        (Silent-statement {A = ⊤} env (λ t. (ok tt, t)))
        (λ _. record {
          at = λ s. rw (finish-effects (env.outcome (m s).1.step) s.tables (m s), h.at s);
        })
