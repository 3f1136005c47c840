-- ===== src/Commands.antt =====
-- The commands of cmd: what they build from their configuration, or that they exit.
pub mod Api
pub mod Background
pub mod Seed
use arvan.Prelude.{Bool, true, false}
use arvan.Config.{Config}
use arvan.Config.Load.{Loaded, read_error, unmarshal_error, loaded}

-- A command exits with status 1, or runs with the parts that it built.
pub data Started (A : Type 0) : Type 0 where
  exits : Started A
  runs : A → Started A

-- `if err != nil { … os.Exit(1) }` behind config.Load.
abbrev pub configured : {A : Type 0} → Loaded → (Config → Started A) → Started A
configured read_error go_on = exits
configured unmarshal_error go_on = exits
configured (loaded cfg) go_on = go_on cfg

-- InitTracer, which is done or fails, is called where telemetry is enabled.
abbrev pub traced : {A : Type 0} → Bool → Bool → Started A → Started A
traced true true go_on = go_on
traced true false go_on = exits
traced false tracer go_on = go_on
