-- ===== src/Workers/Served.antt =====
-- app/ai_validation_worker.py `HttpValidationBackend`, over the handlers that answer its requests:
-- each call is one request, and a response that is an error is raised. The download is a parameter.
use mathlib.Core.Option
use dalm_backend.Floats.{FloatOps}
use dalm_backend.Http.Access.{App}
use dalm_backend.Http.Jobs.{
  ValidationJobData, ValidationResultData, apply_photo_validation_result, claim_photo_validation,
  fail_photo_validation, validate_result,
}
use dalm_backend.Models.{Float, Uuid}
use dalm_backend.Pages.{map_result}
use dalm_backend.PhotoValidations.{FailureRequest, ResultRequest}
use dalm_backend.Prelude.{Bool, List, Option, String, some, ℕ}
use dalm_backend.Store.{Action, Db, Env, Result, err, lift, ok, request, ◌>>◌}
use dalm_backend.Workers.{
  DownloadedImage, Outcome, Raised, ValidationBackend, ValidationDecision, ValidationJob,
  ValidationProviderError, raises, returns,
}

-- What the backend talks to: the application and its environment at the claim and at the report,
-- the storage that signs addresses, the rows other transactions hold, the key of the header, and the
-- text of a JSON object of scores.
pub record Endpoint : Type 0 where
  pub app : App
  pub ops : FloatOps
  pub at_claim : Env
  pub at_report : Env
  pub signed_url : String → ℕ → Result String
  pub locked : Uuid → Bool
  pub internal_key : Option String
  pub fetch_image : String → Outcome DownloadedImage
  pub json_scores : List (String × Float) → String

-- `raise_for_status`.
abbrev pub raise_for_status : {A : Type 0} → Result A → Outcome A
raise_for_status (ok a) = returns a
raise_for_status (err x) = raises (Raised.other_error x)

abbrev pub job_of : ValidationJobData → ValidationJob
job_of d = record {
  job_id = d.job_id;
  photo_id = d.photo_id;
  image_url = d.image_url;
  checks = d.checks;
  attempt = d.attempt;
}

abbrev pub result_body : Endpoint → String → ValidationDecision → ℕ → ResultRequest
result_body p worker_id d elapsed = record {
  status = d.status;
  scores = some (p.json_scores d.scores);
  rejection_code = d.rejection_code;
  model_name = d.model_name;
  model_version = d.model_version;
  processing_time_ms = elapsed;
  worker_id = some worker_id;
}

abbrev pub failure_body : String → ValidationProviderError → FailureRequest
failure_body worker_id x = record {
  worker_id = worker_id;
  error_code = x.code;
  error_message = some x.message;
  retryable = x.retryable;
}

-- The body of the result is checked against its schema first.
abbrev pub post_result :
    Endpoint → Uuid → ResultRequest → List (String × Float) → Action ValidationResultData
post_result p job_id body scores = do
  lift (validate_result p.ops body.status body.rejection_code scores)
  apply_photo_validation_result p.app p.at_report job_id body p.internal_key

abbrev pub http_backend : Endpoint → ValidationBackend Db
http_backend p = record {
  claim_job_of = λ worker_id db.
      let (r, db') =
        request
          (claim_photo_validation p.app p.at_claim p.signed_url p.locked worker_id p.internal_key)
          db in
      (raise_for_status (map_result (Option.map job_of) r), db');
  download = λ url db. p.fetch_image url;
  complete = λ job_id worker_id d elapsed db.
      let (r, db') =
        request (post_result p job_id (result_body p worker_id d elapsed) d.scores) db in
      (raise_for_status (map_result (λ _. tt) r), db');
  fail = λ job_id worker_id x db.
      let (r, db') =
        request
          (fail_photo_validation p.app p.at_report job_id (failure_body worker_id x) p.internal_key)
          db in
      (raise_for_status (map_result (λ _. tt) r), db');
}
