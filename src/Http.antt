-- ===== src/Http.antt =====
-- app/main.py: the handlers of the HTTP application, on the sessions of `Store`. A request's data
-- is taken as parsed and checked against its schema.
pub mod Cursors
pub mod Access
pub mod Days
pub mod Accounts
pub mod Home
pub mod Gallery
pub mod Matched
pub mod Lists
pub mod Reading
pub mod Jobs
pub mod Uploads
