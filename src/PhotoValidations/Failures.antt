-- ===== src/PhotoValidations/Failures.antt =====
-- app/repositories.py `PhotoValidationRepository.record_failure`: another attempt, or the end of a job.
use dalm_backend.Models.{
  DateTime, Notification, NotificationType, Photo, PhotoStatus, PhotoValidation, Uuid,
  ValidationStatus, embedding_status_eq, notification_type_eq, photo_status_eq, report_target_eq,
  seconds, term_type_eq, user_status_eq, validation_status_eq,
}
use dalm_backend.Notifications.{add_notification, new_notification, templates}
use dalm_backend.PhotoValidations.Claims.{update_validation}
use dalm_backend.Prelude.{
  Bool, Option, String, if◌then◌else◌, ltb, nat_eq, none, not, option_eq, select, some, string_eq,
  suc, zero, ℕ, ◌&&◌, ◌*◌, ◌+◌, ◌==◌, ◌^◌, ◌||◌,
}
use dalm_backend.Store.{
  Action, Code, Db, Env, api_error, commit, modify, or_raise, pure, query, raise_if, scalar_one,
  scalar_one_or_none, update_photo, ◌>>=◌, ◌>>◌,
}

pub record FailureRequest : Type 0 where
  pub worker_id : String
  pub error_code : String
  pub error_message : Option String
  pub retryable : Bool

-- `retry_base_seconds * 2 ** (attempt_count - 1)` seconds; at no attempt Python's power is one half.
unfoldable pub retry_delay : ℕ → ℕ → ℕ
retry_delay base zero = base * 500_000
retry_delay base (suc n) = seconds (base * 2 ^ n)

abbrev pub retried : DateTime → ℕ → FailureRequest → PhotoValidation → PhotoValidation
retried now base b v = record v {
  status = ValidationStatus.pending;
  worker_id = none;
  error_code = some b.error_code;
  error_message = b.error_message;
  next_attempt_at = some (now + retry_delay base v.attempt_count);
  started_at = none;
}

abbrev pub given_up : DateTime → FailureRequest → PhotoValidation → PhotoValidation
given_up now b v = record v {
  status = ValidationStatus.failed;
  worker_id = none;
  error_code = some b.error_code;
  error_message = b.error_message;
  next_attempt_at = none;
  started_at = none;
  completed_at = some now;
}

abbrev pub failed_photo : Photo → Photo
failed_photo p = record p {
  status = PhotoStatus.rejected;
  rejection_code = some "VALIDATION_FAILED";
  rejection_message = some "사진을 확인하지 못했습니다. 잠시 후 다시 등록해주세요.";
}

abbrev pub failure_notification : Env → Photo → Notification
failure_notification e p =
    new_notification e (e.uuid4 0) p.user_id NotificationType.photo_rejected "사진 확인이 지연됐어요"
      "잠시 후 새로운 순간을 등록해주세요." (some (templates NotificationType.photo_rejected).target_type)
      (some p.id)

-- A photo that is still being validated is rejected with the job that has failed.
abbrev pub reject_photo : Env → Photo → Db → Db
reject_photo e p db =
    if p.status == PhotoStatus.validating
    then add_notification (failure_notification e p) (update_photo p.id failed_photo db)
    else db

unfoldable pub fail_job : Env → FailureRequest → ℕ → ℕ → PhotoValidation → Action PhotoValidation
fail_job e b max_attempts base v =
    if b.retryable && ltb v.attempt_count max_attempts
    then (do
      modify (update_validation v.id (retried e.now base b))
      commit
      pure (retried e.now base b v))
    else (do
      modify (update_validation v.id (given_up e.now b))
      photos ← query (λ db. select (λ p. p.id == v.photo_id) db.photos)
      photo ← scalar_one photos
      modify (reject_photo e photo)
      commit
      pure (given_up e.now b v))

abbrev pub is_final : PhotoValidation → Bool
is_final v = v.status == ValidationStatus.passed || v.status == ValidationStatus.rejected

unfoldable pub record_failure : Env → Uuid → FailureRequest → ℕ → ℕ → Action PhotoValidation
unfolding fail_job
record_failure e job_id b max_attempts base = do
  rows ← query (λ db. select (λ v. v.id == job_id) db.photo_validations)
  found ← scalar_one_or_none rows
  v ← or_raise found (api_error 404 Code.validation_job_not_found)
  raise_if (is_final v) (api_error 409 Code.validation_already_completed)
  if v.status == ValidationStatus.failed then pure v else (do
    raise_if (not (v.status == ValidationStatus.processing))
        (api_error 409 Code.validation_not_processing)
    raise_if (not (v.worker_id == some b.worker_id)) (api_error 409 Code.validation_lease_lost)
    fail_job e b max_attempts base v)
