-- ===== src/Tests.antt =====
-- Runs of the model at concrete rows, and the theorems at them.
pub mod Fixtures
pub mod Formats
mod Caches
mod Lives
mod Workers
mod Pairs
mod Social
mod Logins
mod Embeddings
mod Web
mod Runs
