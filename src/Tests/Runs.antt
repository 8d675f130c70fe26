-- ===== src/Tests/Runs.antt =====
-- A run of the validation worker over two queued jobs.
use dalm_backend.Http.Access.{verify_internal_key}
use dalm_backend.Http.Jobs.{apply_photo_validation_result, claim_photo_validation, validate_result}
use dalm_backend.Models.{
  Photo, PhotoStatus, PhotoValidation, embedding_status_eq, notification_type_eq, photo_status_eq,
  report_target_eq, seconds, term_type_eq, user_status_eq, validation_status_eq,
}
use dalm_backend.PhotoValidations.{
  apply_result, claim_job, claim_next, claimed, complete_job, next_job,
}
use dalm_backend.Prelude.{
  [], arith, nat_eq, none, option_eq, refl, select, some, string_eq, true, ◌+◌, ◌<◌, ◌==◌, ◌∷◌, ◌≡◌,
}
use dalm_backend.Store.{ok, request, satisfies_constraints}
use dalm_backend.Tests.Fixtures.{env, photo_of, queued_db, stored, unlocked, waiting}
use dalm_backend.Tests.Formats.{app}
use dalm_backend.Tests.Pairs.{hundredths_ops}
use dalm_backend.Workers.{
  MockMode, Provider, mock_validate, report_judgement, returns, run_validation_once,
  validation_decision,
}
use dalm_backend.Workers.Ends.{RunEnds, run_validation_once_ends}
use dalm_backend.Workers.Served.{Endpoint, http_backend}

abbrev endpoint : Endpoint
endpoint = record {
  app = app;
  ops = hundredths_ops;
  at_claim = env 10 100;
  at_report = env 20 200;
  signed_url = λ key ttl. ok key;
  locked = unlocked;
  internal_key = some "k";
  fetch_image = λ url. returns (record { content = 1 ∷ []; content_type = "image/webp" });
  json_scores = λ scores. "{}";
}

abbrev first_row : PhotoValidation
first_row = claimed 10 "w" (waiting 21 11)

abbrev first_photo : Photo
first_photo = stored "a" (photo_of 11 1 PhotoStatus.validating none)

abbrev mock_provider : Provider
mock_provider = mock_validate hundredths_ops MockMode.mock_passed "SCREENSHOT"

hands_out :
    (request (claim_next (env 10 100) "w" 300 unlocked) queued_db).0
    ≡ ok (some (first_row, first_photo))
unfolding claim_next claim_job next_job satisfies_constraints
hands_out = refl

row_there :
    select
      (λ (u : PhotoValidation). u.id == 21)
      (request (claim_next (env 10 100) "w" 300 unlocked) queued_db).1.photo_validations
    ≡ first_row ∷ []
unfolding claim_next claim_job next_job satisfies_constraints
row_there = refl

had_job :
    (run_validation_once (http_backend endpoint) mock_provider "w" 5 queued_db).0 ≡ returns true
unfolding run_validation_once report_judgement mock_validate validation_decision
    claim_photo_validation apply_photo_validation_result verify_internal_key validate_result
    claim_next claim_job next_job apply_result complete_job satisfies_constraints
had_job = refl

key_accepted : verify_internal_key app.settings.internal_api_key (some "k") ≡ ok tt
unfolding verify_internal_key
key_accepted = refl

lease_over : 10 + seconds 300 < 300_000_011
lease_over = ground arith

run_validation_once_ends_example :
    RunEnds endpoint mock_provider "w" 5 300_000_011 first_row queued_db
      (request (claim_next (env 10 100) "w" 300 unlocked) queued_db).1
      (run_validation_once (http_backend endpoint) mock_provider "w" 5 queued_db)
run_validation_once_ends_example =
    run_validation_once_ends endpoint mock_provider "w" 5 300_000_011 first_row first_photo
      queued_db key_accepted hands_out row_there lease_over
