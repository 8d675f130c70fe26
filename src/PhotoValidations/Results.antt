-- ===== src/PhotoValidations/Results.antt =====
-- app/repositories.py `PhotoValidationRepository.apply_result`: the verdict on a photo.
use dalm_backend.Models.{
  DateTime, EmbeddingStatus, NotificationType, Photo, PhotoEmbeddingJob, PhotoStatus,
  PhotoValidation, Uuid, ValidationStatus, days, embedding_status_eq, notification_type_eq,
  photo_status_eq, report_target_eq, term_type_eq, user_status_eq, validation_status_eq,
}
use dalm_backend.Notifications.{add_notification, event_notification}
use dalm_backend.PhotoValidations.Claims.{update_validation}
use dalm_backend.Prelude.{
  Bool, Option, String, [], if◌then◌else◌, nat_eq, none, not, option_eq, select, some, string_eq, ℕ,
  ◌&&◌, ◌++◌, ◌+◌, ◌==◌, ◌||◌, ◌∷◌,
}
use dalm_backend.Store.{
  Action, Code, Db, Env, api_error, commit, modify, or_raise, pure, query, raise, raise_if,
  scalar_one, scalar_one_or_none, update_photo, ◌>>=◌, ◌>>◌,
}

-- The two statuses that a result may have (app/schemas.py `PhotoValidationResultRequest`).
pub data Verdict : Type 0 where
  passed rejected : Verdict

abbrev pub verdict_status : Verdict → ValidationStatus
verdict_status passed = ValidationStatus.passed
verdict_status rejected = ValidationStatus.rejected

pub record ResultRequest : Type 0 where
  pub status : Verdict
  pub scores : Option String
  pub rejection_code : Option String
  pub model_name : String
  pub model_version : String
  pub processing_time_ms : ℕ
  pub worker_id : Option String

-- `REJECTION_MESSAGES.get(rejection_code or "", …)`.
unfoldable pub rejection_message : Option String → String
rejection_message none = "사진 검증을 통과하지 못했습니다."
rejection_message (some c) =
    if c == "TOO_BLURRY"
    then "사진이 너무 흐립니다."
    else if c == "TOO_DARK"
    then "사진이 너무 어둡습니다."
    else if c == "SCREENSHOT"
    then "스크린샷이나 메신저 캡처는 등록할 수 없습니다."
    else if c == "TEXT_DOMINANT"
    then "문자 위주의 사진은 등록할 수 없습니다."
    else if c == "QR_OR_BARCODE"
    then "QR 코드나 바코드가 포함된 사진은 등록할 수 없습니다."
    else if c == "SENSITIVE_INFORMATION"
    then "민감한 개인정보가 포함된 사진은 등록할 수 없습니다."
    else if c == "SEXUAL_OR_VIOLENT"
    then "안전 정책에 맞지 않는 사진입니다."
    else if c == "ADVERTISEMENT"
    then "광고 또는 홍보성 사진은 등록할 수 없습니다."
    else if c == "DUPLICATE_PHOTO"
    then "이미 등록한 사진입니다."
    else "사진 검증을 통과하지 못했습니다."

abbrev pub completed : DateTime → ResultRequest → PhotoValidation → PhotoValidation
completed now b v = record v {
  status = verdict_status b.status;
  scores = b.scores;
  rejection_code = b.rejection_code;
  model_name = some b.model_name;
  model_version = some b.model_version;
  processing_time_ms = some b.processing_time_ms;
  worker_id = none;
  error_code = none;
  error_message = none;
  next_attempt_at = none;
  completed_at = some now;
}

abbrev pub judged : ResultRequest → Photo → Photo
judged b p = elim b.status [
  | passed ↦ record p {
    status = PhotoStatus.searching;
    search_expires_at = some (p.registered_at + days 7);
    rejection_code = none;
    rejection_message = none;
  }
  | rejected ↦ record p {
    status = PhotoStatus.rejected;
    rejection_code = b.rejection_code;
    rejection_message = some (rejection_message b.rejection_code);
  }
]

abbrev pub pending_embedding_job : Env → Uuid → Uuid → PhotoEmbeddingJob
pending_embedding_job e id photo_id = record {
  id = id;
  photo_id = photo_id;
  status = EmbeddingStatus.pending;
  attempt_count = 0;
  worker_id = none;
  error_code = none;
  error_message = none;
  next_attempt_at = none;
  started_at = none;
  completed_at = none;
  created_at = e.db_now;
}

-- A photo that has passed is queued for its embedding.
abbrev pub queue_embedding : Env → Verdict → Photo → Db → Db
queue_embedding e passed p db = record db {
  photo_embedding_jobs = db.photo_embedding_jobs ++ pending_embedding_job e (e.uuid4 0) p.id ∷ [];
}
queue_embedding e rejected p db = db

abbrev pub verdict_notification : Verdict → NotificationType
verdict_notification passed = NotificationType.validation_passed
verdict_notification rejected = NotificationType.photo_rejected

-- What `apply_result` writes, for the job and its photo.
abbrev pub write_result : Env → ResultRequest → PhotoValidation → Photo → Db → Db
write_result e b v p db =
    add_notification
      (event_notification e (e.uuid4 1) p.user_id (verdict_notification b.status) p.id)
      (queue_embedding e b.status p
        (update_photo p.id (judged b) (update_validation v.id (completed e.now b) db)))

abbrev pub is_open : PhotoValidation → Bool
is_open v = v.status == ValidationStatus.pending || v.status == ValidationStatus.processing

-- The rest of `apply_result`, for a job that is still open.
unfoldable pub complete_job : Env → ResultRequest → PhotoValidation → Action PhotoValidation
complete_job e b v = do
  raise_if (v.status == ValidationStatus.processing && not (v.worker_id == b.worker_id))
      (api_error 409 Code.validation_lease_lost)
  photos ← query (λ db. select (λ p. p.id == v.photo_id) db.photos)
  photo ← scalar_one photos
  raise_if (not (photo.status == PhotoStatus.validating)) (api_error 409 Code.photo_not_validating)
  modify (write_result e b v photo)
  commit
  pure (completed e.now b v)

unfoldable pub apply_result : Env → Uuid → ResultRequest → Action PhotoValidation
unfolding complete_job
apply_result e job_id b = do
  rows ← query (λ db. select (λ v. v.id == job_id) db.photo_validations)
  found ← scalar_one_or_none rows
  v ← or_raise found (api_error 404 Code.validation_job_not_found)
  if is_open v
      then complete_job e b v
      else if v.status == verdict_status b.status
      then pure v
      else raise (api_error 409 Code.validation_already_completed)
