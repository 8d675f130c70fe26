-- ===== src/PhotoValidations.antt =====
-- app/repositories.py `PhotoValidationRepository`: the queue of photo validations, which workers
-- claim under a lease and then complete or fail.
mod Claims
mod Results
mod Failures
pub mod Atomic
pub mod Delivery
pub mod Leases
pub mod Oldest
pub mod Retries
pub mod Stored
pub mod Settled
unfoldable pub use Claims.*
unfoldable pub use Results.*
unfoldable pub use Failures.*
