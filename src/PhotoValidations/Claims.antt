-- ===== src/PhotoValidations/Claims.antt =====
-- app/repositories.py `PhotoValidationRepository.claim_next`: the lease of a job.
use dalm_backend.Models.{
  DateTime, Photo, PhotoStatus, PhotoValidation, Uuid, ValidationStatus, embedding_status_eq,
  notification_type_eq, photo_status_eq, report_target_eq, seconds, term_type_eq, user_status_eq,
  validation_status_eq,
}
use dalm_backend.Prelude.{
  Bool, Option, String, head?, if◌then◌else◌, is_none, is_some, is_some_and, leb, ltb, nat_eq, none,
  not, option_eq, order_by, select, some, string_eq, update_where, ℕ, ◌&&◌, ◌+◌, ◌==◌, ◌||◌,
}
use dalm_backend.Store.{
  Action, Db, Env, commit, get_photo, modify, pure, query, rollback, ◌>>=◌, ◌>>◌,
}

-- Waiting with its delay over, or claimed by a worker whose lease has run out.
abbrev pub is_due : DateTime → ℕ → PhotoValidation → Bool
is_due now lease_seconds v =
    v.status == ValidationStatus.pending
      && (is_none v.next_attempt_at || is_some_and (λ t. leb t now) v.next_attempt_at)
    || v.status == ValidationStatus.processing
      && is_some_and (λ t. ltb (t + seconds lease_seconds) now) v.started_at

-- `ORDER BY created_at, id`.
abbrev pub created_before : PhotoValidation → PhotoValidation → Bool
created_before v w = ltb v.created_at w.created_at || v.created_at == w.created_at && leb v.id w.id

abbrev pub update_validation : Uuid → (PhotoValidation → PhotoValidation) → Db → Db
update_validation id f db = record db {
  photo_validations = update_where (λ v. v.id == id) f db.photo_validations;
}

abbrev pub unavailable : DateTime → PhotoValidation → PhotoValidation
unavailable now v = record v {
  status = ValidationStatus.failed;
  error_code = some "PHOTO_NOT_AVAILABLE";
  completed_at = some now;
}

abbrev pub claimed : DateTime → String → PhotoValidation → PhotoValidation
claimed now worker_id v = record v {
  status = ValidationStatus.processing;
  attempt_count = v.attempt_count + 1;
  worker_id = some worker_id;
  next_attempt_at = none;
  started_at = some now;
}

abbrev pub is_claimable : Photo → Bool
is_claimable p = p.status == PhotoStatus.validating && is_some p.storage_key

-- The rest of `claim_next`, from the photo of the job on.
unfoldable pub claim_job :
    Env → String → PhotoValidation → Option Photo → Action (Option (PhotoValidation × Photo))
claim_job e worker_id v none = do
  modify (update_validation v.id (unavailable e.now))
  commit
  pure none
claim_job e worker_id v (some photo) =
    if is_claimable photo
    then (do
      modify (update_validation v.id (claimed e.now worker_id))
      commit
      pure (some (claimed e.now worker_id v, photo)))
    else (do modify (update_validation v.id (unavailable e.now)); commit; pure none)

-- `locked` are the rows that other transactions hold, which `SKIP LOCKED` passes over.
unfoldable pub next_job : DateTime → ℕ → (Uuid → Bool) → Db → Option PhotoValidation
next_job now lease_seconds locked db = head? (
    order_by created_before
      (select (λ v. is_due now lease_seconds v && not (locked v.id)) db.photo_validations))

unfoldable pub claim_next :
    Env → String → ℕ → (Uuid → Bool) → Action (Option (PhotoValidation × Photo))
unfolding claim_job next_job
claim_next e worker_id lease_seconds locked = do
  job ← query (next_job e.now lease_seconds locked)
  elim job [
    | none ↦ (do rollback; pure none)
    | some v ↦ (do photo ← query (get_photo v.photo_id); claim_job e worker_id v photo)
  ]
