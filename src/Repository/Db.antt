-- ===== src/Repository/Db.antt =====
-- NewDB of internal/repository/db.go: the databases behind the repositories. gorm and its resolver are
-- outside: each call of them is done or fails.
use arvan.Prelude.{
  ℕ, String, Bool, true, false, Option, none, some, ◌&&◌, ◌≡◌, ◌⊎◌, arith, str_eq, if◌then◌else◌,
}
use arvan.Config.{DatabaseConfig}

-- Whether gorm.Open, db.Use and db.DB are done.
pub record Driver : Type 0 where
  pub opens : Bool
  pub registers : Bool
  pub gives_pool : Bool

-- Where writeDB and readDB go, with the limits of the pool.
pub record Db : Type 0 where
  pub source : String
  pub replica : String
  pub max_open_conns : ℕ
  pub max_idle_conns : ℕ

unfoldable pub replica_or_primary : DatabaseConfig → String
replica_or_primary cfg = if str_eq cfg.replica_dsn "" then cfg.primary_dsn else cfg.replica_dsn

-- All of the calls are done.
abbrev pub is_open : Driver → Bool
is_open d = d.opens && d.registers && d.gives_pool

unfoldable pub new_db : Driver → DatabaseConfig → Option Db
new_db d cfg =
    if is_open d
    then some (record {
      source = cfg.primary_dsn;
      replica = replica_or_primary cfg;
      max_open_conns = 25;
      max_idle_conns = 5;
    })
    else none

-- The reads go to a replica that has a name, or to the primary.
abbrev pub ReadsSomewhere : Db → Type 0
ReadsSomewhere db = (db.replica ≡ db.source) ⊎ (str_eq db.replica "" ≡ false)

pub new_db-ReadsSomewhere :
    (d : Driver) (cfg : DatabaseConfig) (db : Db) → new_db d cfg ≡ some db → ReadsSomewhere db
unfolding new_db replica_or_primary
new_db-ReadsSomewhere d cfg db h = ground (arith, h)

-- Whether NewDB succeeds.
pub new_db-opens :
    (d : Driver) (cfg : DatabaseConfig)
    → (new_db d cfg ≡ none → is_open d ≡ false)
      × ((db : Db) → new_db d cfg ≡ some db → is_open d ≡ true)
unfolding new_db
new_db-opens d cfg = (λ h. ground (arith, h), λ db h. ground (arith, h))

pub new_db-source :
    (d : Driver) (cfg : DatabaseConfig) (db : Db)
    → new_db d cfg ≡ some db
    → db.source ≡ cfg.primary_dsn
unfolding new_db
new_db-source d cfg db h = ground (arith, h)
