-- ===== src/Database/Success.antt =====
-- Actions that succeed where every statement is done.
use arvan.Prelude.{⊤, ℕ, suc, ◌≡◌, refl}
use arvan.Domain.{Result, ok}
use arvan.Database.Rows.{Tables}
use arvan.Database.Action.{
  done, Env, Session, Exec, continue, finish, enclose, statement, transaction,
}

-- The run answers, and `P` holds of its answer and of the tables that it left.
pub record Succeeds {A : Type 0} (P : A → Tables → Type 0) (r : Result A × Session) : Type 0 where
  pub answer : A
  pub left : Session
  pub runs : r ≡ (ok answer, left)
  pub holds : P answer left.tables

pub Succeeds-ok :
    {A : Type 0} (P : A → Tables → Type 0) (a : A) (s : Session)
    → P a s.tables
    → Succeeds P (ok a, s)
Succeeds-ok P a s h = record { answer = a; left = s; runs = refl; holds = h }

pub Succeeds-weaken :
    {A : Type 0} {P Q : A → Tables → Type 0} {r : Result A × Session}
    → Succeeds P r
    → ((a : A) (t : Tables) → P a t → Q a t)
    → Succeeds Q r
Succeeds-weaken h k = record {
  answer = h.answer;
  left = h.left;
  runs = h.runs;
  holds = k h.answer h.left.tables h.holds;
}

pub Succeeds-bind :
    {A B : Type 0} {P : A → Tables → Type 0} {Q : B → Tables → Type 0} (f : A → Exec B)
    (r : Result A × Session)
    → Succeeds P r
    → ((a : A) (t : Session) → P a t.tables → Succeeds Q (f a t))
    → Succeeds Q (continue f r)
Succeeds-bind f r h k =
    let rest = k h.answer h.left h.holds in
    record {
      answer = rest.answer;
      left = rest.left;
      runs = rw (h.runs, rest.runs);
      holds = rest.holds;
    }

module _ (env : Env) (all_done : (n : ℕ) → env.outcome n ≡ done) where
  pub statement-Succeeds :
      {A : Type 0} (q : Tables → Result A × Tables) (s : Session) (a : A) (t : Tables)
      → q s.tables ≡ (ok a, t)
      → Succeeds (λ b u. (b ≡ a) × (u ≡ t)) (statement env q s)
  unfolding statement
  statement-Succeeds q s a t h = record {
    answer = a;
    left = record s { tables = t; step = suc s.step };
    runs = rw (all_done s.step, h);
    holds = (refl, refl);
  }

  finish-Succeeds :
      {A : Type 0} (P : A → Tables → Type 0) (t : Tables) (r : Result A × Session)
      → Succeeds P r
      → Succeeds P (finish (env.outcome r.1.step) t r)
  finish-Succeeds P t r h = record {
    answer = h.answer;
    left = record h.left { step = suc h.left.step };
    runs = rw (h.runs, all_done h.left.step);
    holds = h.holds;
  }

  pub transaction-Succeeds :
      {A : Type 0} (P : A → Tables → Type 0) (m : Exec A) (s : Session)
      → ((s' : Session) → s'.tables ≡ s.tables → Succeeds P (m s'))
      → Succeeds P (transaction env m s)
  unfolding transaction
  transaction-Succeeds P m s h =
      Succeeds-bind {A = ⊤} (λ _. enclose env.outcome m) _
        (statement-Succeeds {A = ⊤} (λ t. (ok tt, t)) s tt s.tables refl)
        λ _ s' (_, same). finish-Succeeds P s'.tables (m s') (h s' same)
