-- ===== src/Database.antt =====
-- The database as the repositories see it: the rows of the tables, the environment that the program
-- does not control, and the actions of one process against both.
mod Rows
mod Action
pub mod Sql
pub mod Laws
pub mod Keeps
pub mod Silent
pub mod Spares
pub mod Success
pub use Rows.*
unfoldable pub use Action.*
