-- ===== src/PhotoValidations/Atomic.antt =====
-- A request of a worker that is refused changes nothing.
use dalm_backend.Models.{
  Photo, PhotoValidation, Uuid, embedding_status_eq, notification_type_eq, photo_status_eq,
  report_target_eq, term_type_eq, user_status_eq, validation_status_eq,
}
use dalm_backend.PhotoValidations.Failures.{FailureRequest, fail_job, record_failure}
use dalm_backend.PhotoValidations.Results.{ResultRequest, apply_result, complete_job}
use dalm_backend.Prelude.{
  Rows-cases, arith, inl, inr, nat_eq, option_eq, select, string_eq, ℕ, ◌==◌,
}
use dalm_backend.Store.{Env, IsAtomic}

complete_job-IsAtomic :
    (e : Env) (b : ResultRequest) (v : PhotoValidation) → IsAtomic (complete_job e b v)
unfolding complete_job
complete_job-IsAtomic e b v db x h =
    elim (Rows-cases (select (λ (p : Photo). p.id == v.photo_id) db.photos)) [
      | inl none_found ↦ ground arith
      | inr (inl (p, found)) ↦ ground arith
      | inr (inr (p, q, r, many)) ↦ ground arith
    ]

fail_job-IsAtomic :
    (e : Env) (b : FailureRequest) (m base : ℕ) (v : PhotoValidation)
    → IsAtomic (fail_job e b m base v)
unfolding fail_job
fail_job-IsAtomic e b m base v db x h =
    elim (Rows-cases (select (λ (p : Photo). p.id == v.photo_id) db.photos)) [
      | inl none_found ↦ ground arith
      | inr (inl (p, found)) ↦ ground arith
      | inr (inr (p, q, r, many)) ↦ ground arith
    ]

-- `apply_result` that raises any error leaves the database as it was.
pub apply_result-IsAtomic :
    (e : Env) (id : Uuid) (b : ResultRequest) → IsAtomic (apply_result e id b)
unfolding apply_result
apply_result-IsAtomic e id b db x h =
    elim (Rows-cases (select (λ (v : PhotoValidation). v.id == id) db.photo_validations)) [
      | inl none_found ↦ ground arith
      | inr (inl (v, found)) ↦ ground (arith, complete_job-IsAtomic e b v db x)
      | inr (inr (v, w, r, many)) ↦ ground arith
    ]

-- `record_failure` that raises any error leaves the database as it was.
pub record_failure-IsAtomic :
    (e : Env) (id : Uuid) (b : FailureRequest) (m base : ℕ)
    → IsAtomic (record_failure e id b m base)
unfolding record_failure
record_failure-IsAtomic e id b m base db x h =
    elim (Rows-cases (select (λ (v : PhotoValidation). v.id == id) db.photo_validations)) [
      | inl none_found ↦ ground arith
      | inr (inl (v, found)) ↦ ground (arith, fail_job-IsAtomic e b m base v db x)
      | inr (inr (v, w, r, many)) ↦ ground arith
    ]
