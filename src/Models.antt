-- ===== src/Models.antt =====
-- app/models.py: the tables, one record type to a table.
mod Statuses
mod Times
mod Accounts
mod Photos
mod Matches
pub use Statuses.*
pub use Times.*
pub use Accounts.*
pub use Photos.*
pub use Matches.*
