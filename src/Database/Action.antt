-- ===== src/Database/Action.antt =====
-- One process at work: its actions read and write the tables by the SQL of the repositories, and
-- may fail at any statement. The libraries and the servers behind them are the environment.
use arvan.Prelude.{⊤, ℕ, suc, String, Bool, true, false, Option, List, ◌∷◌}
use arvan.Domain.{
  Uuid, Time, Snapshot, PayloadBytes, SendRequest, Queue, Error, driver_error, Result, ok, err,
}
use arvan.Database.Rows.{Tables}

-- How a statement or a commit ends: it is done; it is refused and has no effect; or it takes effect
-- and its acknowledgement is lost, so that the caller sees an error all the same.
pub data Outcome : Type 0 where
  done refused lost : Outcome

-- The reply to an HTTP request: none at all, one whose body cannot be read, or a status with what
-- the decoder makes of the body.
pub data HttpReply : Type 0 where
  no_reply unreadable_body : HttpReply
  replied : ℕ → Option String → HttpReply

-- What the circuit breaker says to a call.
pub data Breaker : Type 0 where
  admits open_state too_many_requests : Breaker

-- What the program takes from outside, by the number of the step that asks for it. Any choice of
-- outcomes and replies is an environment.
pub record Env : Type 0 where
  pub outcome : ℕ → Outcome
  pub new_uuid : ℕ → Uuid
  pub now : ℕ → Time
  pub uuid_string : Uuid → String
  pub uuid_parse : String → Option Uuid
  pub trace_context : List (String × String)
  pub http_reply : ℕ → HttpReply
  pub breaker : ℕ → Breaker
  pub cache_enabled : Bool

-- What left the process for another service.
pub data Effect : Type 0 where
  called_operator : SendRequest → Effect
  published_to : Queue → PayloadBytes → Effect

-- One entry of the cache of responses, under its account and key.
pub record CacheEntry : Type 0 where
  pub account_id : Uuid
  pub key : String
  pub snapshot : Snapshot

-- The tables, the cache, what left the process so far (the latest first), and how many steps the
-- environment has been asked for.
pub record Session : Type 0 where
  pub tables : Tables
  pub cache : List CacheEntry
  pub effects : List Effect
  pub step : ℕ

abbrev pub Exec : Type 0 → Type 0
Exec A = Session → Result A × Session

module _ {A : Type 0} where
  abbrev pub pure : A → Exec A
  pure a s = (ok a, s)

  abbrev pub raise : Error → Exec A
  raise e s = (err e, s)

  abbrev pub lift : Result A → Exec A
  lift r s = (r, s)

-- The rest of a chain, from what the first action answered and left.
abbrev pub continue : {A B : Type 0} → (A → Exec B) → Result A × Session → Result B × Session
continue f (ok a, s) = f a s
continue f (err e, s) = (err e, s)

infixl 5 ◌>>=◌ ◌>>◌
abbrev pub ◌>>=◌ : {A B : Type 0} → Exec A → (A → Exec B) → Exec B
◌>>=◌ m f s = continue f (m s)

abbrev pub ◌>>◌ : {A B : Type 0} → Exec A → Exec B → Exec B
m >> k = m >>= λ _. k

abbrev pub raise_if : Bool → Error → Exec ⊤
raise_if true e = raise e
raise_if false e = pure tt

-- An error as a value, where the code goes on after it.
abbrev pub attempt : {A : Type 0} → Exec A → Exec (Result A)
attempt m s = let (r, s') = m s in (ok r, s')

module _ (env : Env) where
  abbrev pub new_uuid : Exec Uuid
  new_uuid s = (ok (env.new_uuid s.step), record s { step = suc s.step })

  abbrev pub time_now : Exec Time
  time_now s = (ok (env.now s.step), record s { step = suc s.step })

-- Something leaves the process.
abbrev pub emit : Effect → Exec ⊤
emit e s = (ok tt, record s { effects = e ∷ s.effects; step = suc s.step })

-- What a statement answers and leaves, by its outcome.
abbrev pub settle : {A : Type 0} → Outcome → Result A × Tables → Session → Result A × Session
settle done (r, t) s = (r, record s { tables = t; step = suc s.step })
settle refused (r, t) s = (err driver_error, record s { step = suc s.step })
settle lost (r, t) s = (err driver_error, record s { tables = t; step = suc s.step })

-- What a message to another service leaves, by its outcome: one that is refused is not sent.
abbrev pub dispatched : Outcome → Effect → Session → Result ⊤ × Session
dispatched done e s = (ok tt, record s { effects = e ∷ s.effects; step = suc s.step })
dispatched refused e s = (err driver_error, record s { step = suc s.step })
dispatched lost e s = (err driver_error, record s { effects = e ∷ s.effects; step = suc s.step })

-- The end of a transaction that began at the tables `t`: an error of its function rolls back, and
-- otherwise the commit decides.
abbrev pub finish : {A : Type 0} → Outcome → Tables → Result A × Session → Result A × Session
finish o t (err e, s) = (err e, record s { tables = t })
finish done t (ok a, s) = (ok a, record s { step = suc s.step })
finish refused t (ok a, s) = (err driver_error, record s { tables = t; step = suc s.step })
finish lost t (ok a, s) = (err driver_error, record s { step = suc s.step })

-- The transaction behind its BEGIN.
abbrev pub enclose : {A : Type 0} → (ℕ → Outcome) → Exec A → Exec A
enclose outcome m s = let (r, s') = m s in finish (outcome s'.step) s.tables (r, s')

module _ (env : Env) where
  -- One SQL statement: its meaning on the rows is `q`.
  unfoldable pub statement : {A : Type 0} → (Tables → Result A × Tables) → Exec A
  statement q s = settle (env.outcome s.step) (q s.tables) s

  -- A message to another service, which may not leave, or leave without an answer.
  unfoldable pub dispatch : Effect → Exec ⊤
  dispatch e s = dispatched (env.outcome s.step) e s

  -- gorm's db.Transaction(func(tx) error { … }).
  unfoldable pub transaction : {A : Type 0} → Exec A → Exec A
  unfolding statement
  transaction m = statement (λ t. (ok tt, t)) >> enclose env.outcome m
