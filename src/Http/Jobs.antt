-- ===== src/Http/Jobs.antt =====
-- app/main.py: the internal handlers under /internal/v1, for the workers.
use dalm_backend.Candidates.{embedding_data, orchestrate_match}
use dalm_backend.EmbeddingJobs.{
  PhotoEmbeddingData, apply_embedding_result, claim_next_embedding, record_embedding_failure,
}
use dalm_backend.Floats.{FloatOps, in_unit}
use dalm_backend.Http.Access.{App, verify_internal_key, with_key}
use dalm_backend.Models.{
  DateTime, EmbeddingStatus, Float, Photo, PhotoEmbeddingJob, PhotoStatus, PhotoValidation, Uuid,
  ValidationStatus, embedding_status_eq, notification_type_eq, photo_status_eq, report_target_eq,
  term_type_eq, user_status_eq, validation_status_eq,
}
use dalm_backend.PhotoValidations.{
  FailureRequest, ResultRequest, Verdict, apply_result, claim_next, record_failure, verdict_status,
}
use dalm_backend.Prelude.{
  Bool, List, Option, String, [], all, if◌then◌else◌, is_none, is_some, nat_eq, none, not,
  option_eq, some, string_eq, ℕ, ◌&&◌, ◌==◌, ◌||◌, ◌∷◌,
}
use dalm_backend.Store.{Action, Env, Error, Result, err, lift, ok, or_raise, pure, ◌>>=◌}

pub record ValidationJobData : Type 0 where
  pub job_id : Uuid
  pub photo_id : Uuid
  pub storage_key : String
  pub image_url : String
  pub checks : List String
  pub attempt : ℕ

abbrev pub all_checks : List String
all_checks =
    "QUALITY" ∷ "SCREENSHOT" ∷ "TEXT_DOMINANT" ∷ "QR_BARCODE" ∷ "SENSITIVE_INFORMATION" ∷ "SAFETY"
    ∷ "ADVERTISEMENT" ∷ []

abbrev pub validation_job_data : PhotoValidation → Photo → String → String → ValidationJobData
validation_job_data v p key url = record {
  job_id = v.id;
  photo_id = p.id;
  storage_key = key;
  image_url = url;
  checks = all_checks;
  attempt = v.attempt_count;
}

-- The storage signs an address; a photo that is handed out has a key.
abbrev pub sign_key : (String → ℕ → Result String) → ℕ → Photo → Action (String × String)
sign_key signed_url ttl p = do
  key ← or_raise p.storage_key Error.type_error
  url ← lift (signed_url key ttl)
  pure (key, url)

unfoldable pub claim_photo_validation :
    App
    → Env
    → (String → ℕ → Result String)
    → (Uuid → Bool)
    → String
    → Option String
    → Action (Option ValidationJobData)
unfolding claim_next verify_internal_key
claim_photo_validation app e signed_url locked worker_id key = with_key app key (do
  found ← claim_next e worker_id app.settings.validation_lease_seconds locked
  elim found [
    | none ↦ pure none
    | some (v, p) ↦ (do
      signed ← sign_key signed_url app.settings.photo_signed_url_ttl_seconds p
      pure (some (validation_job_data v p signed.0 signed.1)))
  ])

pub record ValidationResultData : Type 0 where
  pub job_id : Uuid
  pub photo_id : Uuid
  pub status : ValidationStatus
  pub photo_status : PhotoStatus
  pub completed_at : Option DateTime

abbrev pub validation_result_data : PhotoValidation → ValidationResultData
validation_result_data v = record {
  job_id = v.id;
  photo_id = v.photo_id;
  status = v.status;
  photo_status =
      if v.status == ValidationStatus.passed then PhotoStatus.searching else PhotoStatus.rejected;
  completed_at = v.completed_at;
}

unfoldable pub apply_photo_validation_result :
    App → Env → Uuid → ResultRequest → Option String → Action ValidationResultData
unfolding apply_result verify_internal_key
apply_photo_validation_result app e job_id body key =
    with_key app key (do v ← apply_result e job_id body; pure (validation_result_data v))

pub record FailureData : Type 0 where
  pub job_id : Uuid
  pub status : ValidationStatus
  pub attempt_count : ℕ
  pub next_attempt_at : Option DateTime

abbrev pub failure_data : PhotoValidation → FailureData
failure_data v = record {
  job_id = v.id;
  status = v.status;
  attempt_count = v.attempt_count;
  next_attempt_at = v.next_attempt_at;
}

unfoldable pub fail_photo_validation :
    App → Env → Uuid → FailureRequest → Option String → Action FailureData
unfolding record_failure verify_internal_key
fail_photo_validation app e job_id body key = with_key app key (do
  v ←
      record_failure e job_id body app.settings.validation_max_attempts
        app.settings.validation_retry_base_seconds
  pure (failure_data v))

-- `PhotoValidationResultRequest.validate_result`, with the rejection code and the scores of the body.
unfoldable pub validate_result :
    FloatOps → Verdict → Option String → List (String × Float) → Result (Unit {0})
validate_result ops verdict rejection_code scores =
    if (verdict_status verdict == ValidationStatus.rejected && is_none rejection_code)
      || (verdict_status verdict == ValidationStatus.passed && is_some rejection_code)
      || not (all (λ s. in_unit ops s.1) scores)
    then err Error.value_error
    else ok tt

pub record EmbeddingJobData : Type 0 where
  pub job_id : Uuid
  pub photo_id : Uuid
  pub image_url : String
  pub attempt : ℕ

abbrev pub embedding_job_data : PhotoEmbeddingJob → Photo → String → EmbeddingJobData
embedding_job_data j p url = record {
  job_id = j.id;
  photo_id = p.id;
  image_url = url;
  attempt = j.attempt_count;
}

unfoldable pub claim_photo_embedding :
    App
    → Env
    → (String → ℕ → Result String)
    → (Uuid → Bool)
    → String
    → Option String
    → Action (Option EmbeddingJobData)
unfolding claim_next_embedding verify_internal_key
claim_photo_embedding app e signed_url locked worker_id key = with_key app key (do
  found ← claim_next_embedding e worker_id app.settings.validation_lease_seconds locked
  elim found [
    | none ↦ pure none
    | some (j, p) ↦ (do
      signed ← sign_key signed_url app.settings.photo_signed_url_ttl_seconds p
      pure (some (embedding_job_data j p signed.1)))
  ])

pub record EmbeddingResultData : Type 0 where
  pub job_id : Uuid
  pub photo_id : Uuid
  pub status : EmbeddingStatus
  pub match_id : Option Uuid

-- The embedding is checked where it is made, stored, and then matched.
unfoldable pub apply_photo_embedding_result :
    FloatOps
    → App
    → Env
    → Uuid
    → String
    → PhotoEmbeddingData
    → Option String
    → Action EmbeddingResultData
unfolding embedding_data apply_embedding_result orchestrate_match verify_internal_key
apply_photo_embedding_result ops app e job_id worker_id body key = with_key app key (do
  d ← lift (embedding_data ops body)
  j ← apply_embedding_result e job_id worker_id d
  match_id ← orchestrate_match ops e j.photo_id
  pure (record { job_id = j.id; photo_id = j.photo_id; status = j.status; match_id = match_id }))

pub record EmbeddingFailureData : Type 0 where
  pub job_id : Uuid
  pub status : EmbeddingStatus
  pub attempt_count : ℕ
  pub next_attempt_at : Option DateTime

unfoldable pub fail_photo_embedding :
    App → Env → Uuid → FailureRequest → Option String → Action EmbeddingFailureData
unfolding record_embedding_failure verify_internal_key
fail_photo_embedding app e job_id body key = with_key app key (do
  j ←
      record_embedding_failure e job_id body app.settings.validation_max_attempts
        app.settings.validation_retry_base_seconds
  pure (record {
    job_id = j.id;
    status = j.status;
    attempt_count = j.attempt_count;
    next_attempt_at = j.next_attempt_at;
  }))
