-- ===== src/Workers/Requests.antt =====
-- The requests of the validation worker: what each leaves in the tables, and what its errors do.
use dalm_backend.Http.Access.{verify_internal_key}
use dalm_backend.Http.Jobs.{
  FailureData, ValidationJobData, ValidationResultData, apply_photo_validation_result,
  claim_photo_validation, fail_photo_validation, validation_job_data,
}
use dalm_backend.Models.{Float, Photo, PhotoValidation, Uuid}
use dalm_backend.PhotoValidations.{
  FailureRequest, ResultRequest, apply_result, claim_next, claimed, record_failure,
}
use dalm_backend.PhotoValidations.Atomic.{apply_result-IsAtomic, record_failure-IsAtomic}
use dalm_backend.Prelude.{List, Option-cases, String, arith, inl, inr, refl, some, ◌≡◌, ◌⊎◌}
use dalm_backend.Store.{Db, Error, IsAtomic, Result-cases, err, ok, request}
use dalm_backend.Workers.Served.{Endpoint, post_result}

-- With the key of the workers, the handler hands out the job that the queue hands out, and leaves
-- the tables as the queue does, also where it raises.
pub claimed_job_lem :
    (p : Endpoint) (worker : String) (db : Db) (v : PhotoValidation) (photo : Photo)
    → verify_internal_key p.app.settings.internal_api_key p.internal_key ≡ ok tt
    → (request (claim_next p.at_claim worker p.app.settings.validation_lease_seconds p.locked) db).0
      ≡ ok (some (v, photo))
    → let handler =
        claim_photo_validation p.app p.at_claim p.signed_url p.locked worker p.internal_key in
      ((request handler db).1
        ≡ (request
            (claim_next p.at_claim worker p.app.settings.validation_lease_seconds p.locked)
            db).1)
      × (((x : Error) × ((request handler db).0 ≡ err x))
          ⊎ ((d : ValidationJobData) × ((request handler db).0 ≡ ok (some d)) × (d.job_id ≡ v.id)))
unfolding claim_photo_validation
claimed_job_lem p worker db v photo key claimed = elim (Option-cases photo.storage_key) [
  | inl no_key ↦ (ground arith, inl (Error.type_error, ground arith))
  | inr (k, stored_key) ↦
      elim (Result-cases (p.signed_url k p.app.settings.photo_signed_url_ttl_seconds)) [
        | inl (x, unsigned) ↦ (ground arith, inl (x, ground arith))
        | inr (url, signed) ↦
            (ground arith, inr (validation_job_data v photo k url, ground arith, refl))
      ]
]

pub posted_result :
    (p : Endpoint) (id : Uuid) (body : ResultRequest) (scores : List (String × Float)) (db : Db)
    (d : ValidationResultData)
    → (request (post_result p id body scores) db).0 ≡ ok d
    → (w : PhotoValidation) × ((request (apply_result p.at_report id body) db).0 ≡ ok w)
      × ((request (post_result p id body scores) db).1
          ≡ (request (apply_result p.at_report id body) db).1)
unfolding apply_photo_validation_result
posted_result p id body scores db d h =
    elim (Result-cases (request (apply_result p.at_report id body) db).0) [
      | inl (x, failed) ↦ absurd (ground arith)
      | inr (w, applied) ↦ (w, applied, ground arith)
    ]

pub posted_failure :
    (p : Endpoint) (id : Uuid) (body : FailureRequest) (db : Db) (d : FailureData)
    → (request (fail_photo_validation p.app p.at_report id body p.internal_key) db).0 ≡ ok d
    → let m = p.app.settings.validation_max_attempts in
      let base = p.app.settings.validation_retry_base_seconds in
      (w : PhotoValidation) × ((request (record_failure p.at_report id body m base) db).0 ≡ ok w)
      × ((request (fail_photo_validation p.app p.at_report id body p.internal_key) db).1
          ≡ (request (record_failure p.at_report id body m base) db).1)
unfolding fail_photo_validation
posted_failure p id body db d h =
    let m = p.app.settings.validation_max_attempts in
    let base = p.app.settings.validation_retry_base_seconds in
    elim (Result-cases (request (record_failure p.at_report id body m base) db).0) [
      | inl (x, failed) ↦ absurd (ground arith)
      | inr (w, applied) ↦ (w, applied, ground arith)
    ]

pub post_result-IsAtomic :
    (p : Endpoint) (id : Uuid) (body : ResultRequest) (scores : List (String × Float))
    → IsAtomic (post_result p id body scores)
unfolding apply_photo_validation_result
post_result-IsAtomic p id body scores db x h =
    elim (Result-cases (request (apply_result p.at_report id body) db).0) [
      | inl (y, failed) ↦ ground (arith, apply_result-IsAtomic p.at_report id body db y failed)
      | inr (w, applied) ↦ ground arith
    ]

pub fail_photo_validation-IsAtomic :
    (p : Endpoint) (id : Uuid) (body : FailureRequest)
    → IsAtomic (fail_photo_validation p.app p.at_report id body p.internal_key)
unfolding fail_photo_validation
fail_photo_validation-IsAtomic p id body db x h =
    let m = p.app.settings.validation_max_attempts in
    let base = p.app.settings.validation_retry_base_seconds in
    elim (Result-cases (request (record_failure p.at_report id body m base) db).0) [
      | inl (y, failed) ↦
          ground (arith, record_failure-IsAtomic p.at_report id body m base db y failed)
      | inr (w, applied) ↦ ground arith
    ]
