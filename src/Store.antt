-- ===== src/Store.antt =====
-- The database and what surrounds it (backend/src/models): the values of the columns, the rows of
-- the tables, and the session that the services work on.
mod Values
mod Rows
mod State
mod Keeping
pub use Values.*
pub use Rows.*
pub use State.*
pub use Keeping.*
