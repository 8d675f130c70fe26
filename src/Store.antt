-- ===== src/Store.antt =====
-- app/database.py, app/errors.py and the schema of alembic/versions: the database, the session of one
-- request with its transactions, and the queries that the repositories build.
mod Errors
mod Tables
mod Constraints
mod Sessions
mod Uniqueness
pub use Errors.*
pub use Tables.*
unfoldable pub use Constraints.*
pub use Sessions.*
pub use Uniqueness.*
