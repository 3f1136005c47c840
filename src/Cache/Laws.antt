-- ===== src/Cache/Laws.antt =====
-- internal/idempotency/cache.go against the tables.
use arvan.Prelude.{◌≡◌, refl, String}
use arvan.Domain.{Uuid, IdempotencyResponse}
use arvan.Database.{Outcome, done, refused, lost, CacheEntry, Env, Session, Tables}
use arvan.Database.Keeps.{Keeps}
use arvan.Cache.{get_settled, get, set_settled, set}

set_settled-tables :
    (o : Outcome) (e : CacheEntry) (s : Session) → (set_settled o e s).1.tables ≡ s.tables
set_settled-tables done e s = refl
set_settled-tables refused e s = refl
set_settled-tables lost e s = refl

pub set-tables :
    (env : Env) (account_id : Uuid) (key : String) (resp : IdempotencyResponse) (s : Session)
    → (set env account_id key resp s).1.tables ≡ s.tables
unfolding set
set-tables env account_id key resp s = set_settled-tables (env.outcome s.step) _ s

get_settled-Keeps :
    (P : Tables → Type 0) (o : Outcome) (account_id : Uuid) (key : String) (s : Session)
    → P s.tables
    → P (get_settled o account_id key s).1.tables
get_settled-Keeps P done account_id key s h = h
get_settled-Keeps P refused account_id key s h = h
get_settled-Keeps P lost account_id key s h = h

pub get-Keeps :
    {P : Tables → Type 0} (env : Env) (account_id : Uuid) (key : String)
    → Keeps P (get env account_id key)
unfolding get
get-Keeps {P} env account_id key = record {
  at = λ s h. get_settled-Keeps P (env.outcome s.step) account_id key s h;
}
