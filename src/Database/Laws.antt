-- ===== src/Database/Laws.antt =====
-- Reasoning about actions: what holds of every successful run, one rule for each way to build an
-- action, and what a transaction leaves.
use arvan.Prelude.{⊤, Bool, true, false, suc, ◌≡◌, refl, ◌⊎◌, inl, inr, if◌then◌else◌}
use arvan.Domain.{Error, driver_error, Result, ok, err}
use arvan.Database.Rows.{Tables}
use arvan.Database.Action.{
  Outcome, done, refused, lost, Env, Session, Exec, raise_if, continue, settle, finish, enclose,
  statement, transaction,
}

abbrev pub OnOk : {A : Type 0} → (A → Session → Type 0) → Result A × Session → Type 0
OnOk Q (ok a, s) = Q a s
OnOk Q (err e, s) = Unit

-- If the run succeeded, `Q` holds of its answer and of the session that it left.
pub record Yields {A : Type 0} (Q : A → Session → Type 0) (r : Result A × Session) : Type 0 where
  pub holds : OnOk Q r

module _ {A B : Type 0} where
  -- The rest of a chain may use what the first action yields.
  pub Yields-bind :
      {P : A → Session → Type 0} {Q : B → Session → Type 0} {f : A → Exec B}
      {r : Result A × Session}
      → Yields P r
      → ((a : A) (t : Session) → P a t → Yields Q (f a t))
      → Yields Q (continue f r)
  Yields-bind {r = (ok a, s)} h k = k a s h.holds
  Yields-bind {r = (err e, s)} h k = record { holds = tt }

module _ {A : Type 0} where
  pub Yields-ok :
      {P : A → Session → Type 0} {r : Result A × Session} {a : A} {t : Session}
      → Yields P r
      → r ≡ (ok a, t)
      → P a t
  Yields-ok {P} h e = (rw e at h).holds

  pub Yields-weaken :
      {P Q : A → Session → Type 0} {r : Result A × Session}
      → Yields P r
      → ((a : A) (t : Session) → P a t → Q a t)
      → Yields Q r
  Yields-weaken {r = (ok a, s)} h k = record { holds = k a s h.holds }
  Yields-weaken {r = (err e, s)} h k = record { holds = tt }

  settle-Yields :
      (o : Outcome) (p : Result A × Tables) (s : Session)
      → Yields (λ a t. p ≡ (ok a, t.tables)) (settle o p s)
  settle-Yields done (ok a, u) s = record { holds = refl }
  settle-Yields done (err e, u) s = record { holds = tt }
  settle-Yields refused p s = record { holds = tt }
  settle-Yields lost p s = record { holds = tt }

  -- A successful statement has its answer and its effect.
  pub statement-Yields :
      (env : Env) (q : Tables → Result A × Tables) (s : Session)
      → Yields (λ a t. q s.tables ≡ (ok a, t.tables)) (statement env q s)
  unfolding statement
  statement-Yields env q s = settle-Yields (env.outcome s.step) (q s.tables) s

-- Both branches yield.
pub Yields-if :
    {A : Type 0} {Q : A → Session → Type 0} (b : Bool) (m n : Exec A) (s : Session)
    → Yields Q (m s)
    → Yields Q (n s)
    → Yields Q ((if b then m else n) s)
Yields-if true m n s h k = h
Yields-if false m n s h k = k

pub raise_if-Yields :
    (b : Bool) (e : Error) (s : Session) → Yields (λ _ t. (b ≡ false) × (t ≡ s)) (raise_if b e s)
raise_if-Yields true e s = record { holds = tt }
raise_if-Yields false e s = record { holds = (refl, refl) }

-- What a transaction leaves: its effect, or the tables as they were; the effect under an error only
-- where the acknowledgement of the commit was lost.
abbrev pub Ends : {A : Type 0} → (A → Tables → Type 0) → Tables → Result A × Session → Type 0
Ends Post t (ok a, s) = Post a s.tables
Ends {A} Post t (err e, s) = (s.tables ≡ t) ⊎ ((e ≡ driver_error) × ((a : A) × Post a s.tables))

module _ {A : Type 0} (Post : A → Tables → Type 0) where
  finish-Ends :
      (o : Outcome) (t : Tables) (r : Result A × Session)
      → Yields (λ a u. Post a u.tables) r
      → Ends Post t (finish o t r)
  finish-Ends o t (err e, s) h = inl refl
  finish-Ends done t (ok a, s) h = h.holds
  finish-Ends refused t (ok a, s) h = inl refl
  finish-Ends lost t (ok a, s) h = inr (refl, (a, h.holds))

  begin-Ends :
      (env : Env) (m : Exec A) (o : Outcome) (s : Session)
      → ((s' : Session) → s'.tables ≡ s.tables → Yields (λ a u. Post a u.tables) (m s'))
      → Ends Post s.tables
          (continue (λ _. enclose env.outcome m) (settle {A = ⊤} o (ok tt, s.tables) s))
  begin-Ends env m done s h =
      let s' : Session = record s { step = suc s.step } in
      finish-Ends (env.outcome (m s').1.step) s.tables (m s') (h s' refl)
  begin-Ends env m refused s h = inl refl
  begin-Ends env m lost s h = inl refl

  -- Whatever holds of the tables after its function returns holds after the transaction, or the
  -- tables are as they were before it.
  pub transaction-Ends :
      (env : Env) (m : Exec A) (s : Session)
      → ((s' : Session) → s'.tables ≡ s.tables → Yields (λ a u. Post a u.tables) (m s'))
      → Ends Post s.tables (transaction env m s)
  unfolding transaction
  transaction-Ends env m s h = begin-Ends env m (env.outcome s.step) s h
