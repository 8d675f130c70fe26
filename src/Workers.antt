-- ===== src/Workers.antt =====
-- app/ai_validation_worker.py and app/ai_embedding_worker.py: one run of a worker. The model that
-- judges or embeds an image is a parameter, and so is the download.
pub mod Served
pub mod Requests
pub mod Ends
pub mod Embedding
use dalm_backend.Floats.{FloatOps, in_unit}
use dalm_backend.Models.{
  Float, Uuid, ValidationStatus, embedding_status_eq, notification_type_eq, photo_status_eq,
  report_target_eq, term_type_eq, user_status_eq, validation_status_eq,
}
use dalm_backend.PhotoUpload.{Bytes}
use dalm_backend.PhotoValidations.{Verdict, verdict_status}
use dalm_backend.Prelude.{
  Bool, List, Option, String, [], all, false, if◌then◌else◌, is_none, is_some, map, nat_eq, none,
  not, option_eq, some, string_eq, true, ℕ, ◌&&◌, ◌==◌, ◌||◌, ◌∷◌,
}
use dalm_backend.Store.{Error, Result, err, ok}

pub record ValidationJob : Type 0 where
  pub job_id : Uuid
  pub photo_id : Uuid
  pub image_url : String
  pub checks : List String
  pub attempt : ℕ

pub record DownloadedImage : Type 0 where
  pub content : Bytes
  pub content_type : String

pub record ValidationDecision : Type 0 where
  pub status : Verdict
  pub scores : List (String × Float)
  pub model_name : String
  pub model_version : String
  pub rejection_code : Option String

pub record ValidationProviderError : Type 0 where
  pub code : String
  pub message : String
  pub retryable : Bool

-- What a call of the worker can raise.
pub data Raised : Type 0 where
  provider_error : ValidationProviderError → Raised
  other_error : Error → Raised

-- What a call returns, or the exception it raises.
pub data Outcome (A : Type 0) : Type 0 where
  returns : A → Outcome A
  raises : Raised → Outcome A

-- `ValidationDecision.__post_init__`.
unfoldable pub validation_decision : FloatOps → ValidationDecision → Outcome ValidationDecision
validation_decision ops d =
    if (verdict_status d.status == ValidationStatus.rejected && is_none d.rejection_code)
      || (verdict_status d.status == ValidationStatus.passed && is_some d.rejection_code)
      || not (all (λ s. in_unit ops s.1) d.scores)
    then raises (Raised.other_error Error.value_error)
    else returns d

-- `PhotoValidationProvider.validate`.
abbrev pub Provider : Type 0
Provider = Bytes → String → List String → Outcome ValidationDecision

pub data MockMode : Type 0 where
  mock_passed mock_rejected mock_error : MockMode

abbrev pub no_bytes : Bytes → Bool
no_bytes [] = true
no_bytes (b ∷ bs) = false

abbrev pub mock_decision : Verdict → List (String × Float) → Option String → ValidationDecision
mock_decision verdict scores rejection_code = record {
  status = verdict;
  scores = scores;
  model_name = "dalm-mock-validator";
  model_version = "1";
  rejection_code = rejection_code;
}

-- `MockPhotoValidationProvider.validate`.
unfoldable pub mock_validate : FloatOps → MockMode → String → Provider
unfolding validation_decision
mock_validate ops mode rejection_code image content_type checks =
    if no_bytes image
    then raises (
        Raised.provider_error (record {
          code = "EMPTY_IMAGE";
          message = "downloaded image is empty";
          retryable = false;
        }))
    else elim mode [
      | mock_error ↦ raises (
          Raised.provider_error (record {
            code = "MOCK_PROVIDER_UNAVAILABLE";
            message = "mock provider was configured to simulate a retryable failure";
            retryable = true;
          }))
      | mock_rejected ↦ validation_decision ops (
          mock_decision Verdict.rejected
            (map (λ c. (c, if c == rejection_code then ops.hundredths 99 else ops.hundredths 1))
              checks)
            (some rejection_code))
      | mock_passed ↦
          validation_decision ops
            (mock_decision Verdict.passed (map (λ c. (c, ops.hundredths 1)) checks) none)
    ]

-- `create_mock_validation_provider`, over `str.upper`.
unfoldable pub create_mock_mode : (String → String) → String → Result MockMode
create_mock_mode upper mode =
    let normalized = upper mode in
    if normalized == "PASSED"
    then ok mock_passed
    else if normalized == "REJECTED"
    then ok mock_rejected
    else if normalized == "ERROR"
    then ok mock_error
    else err Error.value_error

-- `ValidationBackend`, on a state of its own.
pub record ValidationBackend (B : Type 0) : Type 0 where
  pub claim_job_of : String → B → Outcome (Option ValidationJob) × B
  pub download : String → B → Outcome DownloadedImage
  pub complete : Uuid → String → ValidationDecision → ℕ → B → Outcome (Unit {0}) × B
  pub fail : Uuid → String → ValidationProviderError → B → Outcome (Unit {0}) × B

abbrev pub then_true : {B : Type 0} → Outcome (Unit {0}) × B → Outcome Bool × B
then_true (returns _, b) = (returns true, b)
then_true (raises x, b) = (raises x, b)

-- The download and the judgement inside the `try`.
abbrev pub judge :
    {B : Type 0} → ValidationBackend B → Provider → ValidationJob → B → Outcome ValidationDecision
judge backend provider job b = elim (backend.download job.image_url b) [
  | raises x ↦ raises x
  | returns image ↦ provider image.content image.content_type job.checks
]

-- What follows the `try`; `elapsed` are the measured milliseconds.
unfoldable pub report_judgement :
    {B : Type 0}
    → ValidationBackend B
    → String
    → ℕ
    → ValidationJob
    → Outcome ValidationDecision
    → B
    → Outcome Bool × B
report_judgement backend worker_id elapsed job (returns decision) b =
    then_true (backend.complete job.job_id worker_id decision elapsed b)
report_judgement backend worker_id elapsed job (raises (Raised.provider_error x)) b =
    then_true (backend.fail job.job_id worker_id x b)
report_judgement backend worker_id elapsed job (raises (Raised.other_error x)) b =
    (raises (Raised.other_error x), b)

unfoldable pub run_validation_once :
    {B : Type 0} → ValidationBackend B → Provider → String → ℕ → B → Outcome Bool × B
unfolding report_judgement
run_validation_once backend provider worker_id elapsed b =
    let (r, b') = backend.claim_job_of worker_id b in
    elim r [
      | raises x ↦ (raises x, b')
      | returns none ↦ (returns false, b')
      | returns (some job) ↦
          report_judgement backend worker_id elapsed job (judge backend provider job b') b'
    ]
