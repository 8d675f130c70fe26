-- ===== src/Tests/Workers.antt =====
-- Validation workers at the queue of two jobs.
use dalm_backend.Models.{
  Photo, PhotoStatus, PhotoValidation, ValidationStatus, embedding_status_eq, notification_type_eq,
  photo_status_eq, report_target_eq, term_type_eq, user_status_eq, validation_status_eq,
}
use dalm_backend.PhotoValidations.{
  apply_result, claim_job, claim_next, claimed, complete_job, completed, fail_job, given_up,
  next_job, passed, record_failure, rejected, retried, retry_delay,
}
use dalm_backend.PhotoValidations.Atomic.{apply_result-IsAtomic, record_failure-IsAtomic}
use dalm_backend.PhotoValidations.Delivery.{apply_result_again}
use dalm_backend.PhotoValidations.Leases.{claim_next_exclusive}
use dalm_backend.PhotoValidations.Retries.{record_failure_waits}
use dalm_backend.PhotoValidations.Settled.{IsSettled, apply_result-AllAre, record_failure_settles}
use dalm_backend.PhotoValidations.Stored.{AllAre, IsStored}
use dalm_backend.Prelude.{
  [], arith, nat_eq, none, option_eq, refl, select, some, string_eq, true, ◌+◌, ◌<◌, ◌==◌, ◌∷◌, ◌≡◌,
  ◌≢◌,
}
use dalm_backend.Store.{Code, Db, api_error, err, ok, request, satisfies_constraints}
use dalm_backend.Tests.Fixtures.{
  env, failure_of, photo_of, queued_db, stored, unlocked, verdict, waiting,
}

abbrev claimed_job_1 : PhotoValidation
claimed_job_1 = claimed 10 "w" (waiting 21 11)

abbrev claimed_job_2 : PhotoValidation
claimed_job_2 = claimed 20 "x" (waiting 22 12)

abbrev photo_1 : Photo
photo_1 = stored "a" (photo_of 11 1 PhotoStatus.validating none)

abbrev photo_2 : Photo
photo_2 = stored "b" (photo_of 12 2 PhotoStatus.validating none)

abbrev after_claim : Db
after_claim = (request (claim_next (env 10 100) "w" 60 unlocked) queued_db).1

first_claim :
    (request (claim_next (env 10 100) "w" 60 unlocked) queued_db).0
    ≡ ok (some (claimed_job_1, photo_1))
unfolding claim_next claim_job next_job satisfies_constraints
first_claim = refl

second_claim :
    (request (claim_next (env 20 200) "x" 60 unlocked) after_claim).0
    ≡ ok (some (claimed_job_2, photo_2))
unfolding claim_next claim_job next_job satisfies_constraints
second_claim = refl

claim_next_exclusive_example :
    (photo_1.status ≡ PhotoStatus.validating)
    × (claimed_job_1.status ≡ ValidationStatus.processing)
    × (claimed_job_1.worker_id ≡ some "w")
    × (claimed_job_2.id ≢ claimed_job_1.id)
claim_next_exclusive_example =
    claim_next_exclusive (env 10 100) (env 20 200) "w" "x" 60 unlocked unlocked queued_db
      claimed_job_1 claimed_job_2 photo_1 photo_2 first_claim (omega arith) second_claim

first_job : next_job 10 60 unlocked queued_db ≡ some (waiting 21 11)
unfolding next_job
first_job = refl

abbrev finished : PhotoValidation
finished = completed 30 (verdict passed) claimed_job_1

abbrev after_result : Db
after_result = (request (apply_result (env 30 300) 21 (verdict passed)) after_claim).1

job_passes : (request (apply_result (env 30 300) 21 (verdict passed)) after_claim).0 ≡ ok finished
unfolding apply_result complete_job claim_next claim_job next_job satisfies_constraints
job_passes = refl

apply_result_again_example :
    ((verdict rejected).status ≡ passed
      → request (apply_result (env 40 400) 21 (verdict rejected)) after_result
        ≡ (ok finished, after_result))
    × ((verdict rejected).status ≢ passed
        → request (apply_result (env 40 400) 21 (verdict rejected)) after_result
          ≡ (err (api_error 409 Code.validation_already_completed), after_result))
apply_result_again_example =
    apply_result_again (env 30 300) (env 40 400) 21 (verdict passed) (verdict rejected) finished
      after_claim job_passes

claimed_row :
    select (λ (u : PhotoValidation). u.id == 21) after_claim.photo_validations ≡ claimed_job_1 ∷ []
unfolding claim_next claim_job next_job satisfies_constraints
claimed_row = refl

apply_result-AllAre_example :
    (finished ≡ completed 30 (verdict passed) claimed_job_1)
    × AllAre 11 PhotoStatus.searching after_result
    × IsStored finished after_result
apply_result-AllAre_example =
    apply_result-AllAre (env 30 300) 21 (verdict passed) claimed_job_1 finished after_claim
      claimed_row refl job_passes

job_fails :
    (request (record_failure (env 30 300) 21 (failure_of true) 1 30) after_claim).0
    ≡ ok (given_up 30 (failure_of true) claimed_job_1)
unfolding record_failure fail_job claim_next claim_job next_job satisfies_constraints
job_fails = refl

record_failure_settles_example :
    IsSettled
      (env 30 300)
      (failure_of true)
      1
      30
      claimed_job_1
      (given_up 30 (failure_of true) claimed_job_1)
      after_claim
      (request (record_failure (env 30 300) 21 (failure_of true) 1 30) after_claim).1
    × IsStored
        (given_up 30 (failure_of true) claimed_job_1)
        (request (record_failure (env 30 300) 21 (failure_of true) 1 30) after_claim).1
record_failure_settles_example =
    record_failure_settles (env 30 300) 21 (failure_of true) 1 30 claimed_job_1
      (given_up 30 (failure_of true) claimed_job_1) after_claim claimed_row refl job_fails

-- The job 22 has not been claimed.
early_failure :
    (request (record_failure (env 30 300) 22 (failure_of true) 3 30) after_claim).0
    ≡ err (api_error 409 Code.validation_not_processing)
unfolding record_failure claim_next claim_job next_job satisfies_constraints
early_failure = refl

record_failure-IsAtomic_example :
    (request (record_failure (env 30 300) 22 (failure_of true) 3 30) after_claim).1 ≡ after_claim
record_failure-IsAtomic_example =
    record_failure-IsAtomic (env 30 300) 22 (failure_of true) 3 30 after_claim
      (api_error 409 Code.validation_not_processing) early_failure

unknown_job :
    (request (apply_result (env 30 300) 29 (verdict passed)) after_claim).0
    ≡ err (api_error 404 Code.validation_job_not_found)
unfolding apply_result claim_next claim_job next_job satisfies_constraints
unknown_job = refl

apply_result-IsAtomic_example :
    (request (apply_result (env 30 300) 29 (verdict passed)) after_claim).1 ≡ after_claim
apply_result-IsAtomic_example =
    apply_result-IsAtomic (env 30 300) 29 (verdict passed) after_claim
      (api_error 404 Code.validation_job_not_found) unknown_job

abbrev after_failure : Db
after_failure = (request (record_failure (env 30 300) 21 (failure_of true) 3 30) after_claim).1

job_waits :
    (request (record_failure (env 30 300) 21 (failure_of true) 3 30) after_claim).0
    ≡ ok (retried 30 30 (failure_of true) claimed_job_1)
unfolding record_failure fail_job claim_next claim_job next_job satisfies_constraints
job_waits = refl

abbrev other_job : PhotoValidation
other_job = claimed 40 "x" (waiting 22 12)

other_claim :
    (request (claim_next (env 40 400) "x" 60 unlocked) after_failure).0
    ≡ ok (some (other_job, photo_2))
unfolding record_failure fail_job claim_next claim_job next_job retry_delay satisfies_constraints
other_claim = refl

still_early : 40 < 30 + retry_delay 30 1
unfolding retry_delay
still_early = omega arith

record_failure_waits_example : other_job.id ≢ claimed_job_1.id
record_failure_waits_example =
    record_failure_waits (env 30 300) (env 40 400) 21 (failure_of true) 3 30 "x" 60 unlocked
      after_claim claimed_job_1 (retried 30 30 (failure_of true) claimed_job_1) other_job photo_2
      claimed_row refl job_waits refl still_early other_claim
