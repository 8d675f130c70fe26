-- ===== src/EmbeddingJobs.antt =====
-- app/embedding_jobs.py `PhotoEmbeddingJobRepository`: the queue of embedding jobs.
pub mod Fencing
pub mod Leases
pub mod Retries
use dalm_backend.Models.{
  DateTime, EmbeddingStatus, Float, Photo, PhotoEmbedding, PhotoEmbeddingJob, PhotoStatus, Uuid,
  embedding_status_eq, notification_type_eq, photo_status_eq, report_target_eq, seconds,
  term_type_eq, user_status_eq, validation_status_eq,
}
use dalm_backend.PhotoValidations.{FailureRequest, retry_delay}
use dalm_backend.Prelude.{
  Bool, List, Option, String, [], any, false, head?, if◌then◌else◌, is_none, is_some, is_some_and,
  leb, ltb, nat_eq, none, not, option_eq, order_by, select, some, string_eq, true, update_where, ℕ,
  ◌&&◌, ◌++◌, ◌+◌, ◌==◌, ◌||◌, ◌∷◌,
}
use dalm_backend.Store.{
  Action, Code, Db, Env, api_error, commit, flush, get_photo, modify, or_raise, pure, query,
  raise_if, rollback, scalar_one_or_none, ◌>>=◌, ◌>>◌,
}

abbrev pub is_due_job : DateTime → ℕ → PhotoEmbeddingJob → Bool
is_due_job now lease_seconds j =
    j.status == EmbeddingStatus.pending
      && (is_none j.next_attempt_at || is_some_and (λ t. leb t now) j.next_attempt_at)
    || j.status == EmbeddingStatus.processing
      && is_some_and (λ t. ltb (t + seconds lease_seconds) now) j.started_at

abbrev pub job_before : PhotoEmbeddingJob → PhotoEmbeddingJob → Bool
job_before i j = ltb i.created_at j.created_at || i.created_at == j.created_at && leb i.id j.id

abbrev pub update_job : Uuid → (PhotoEmbeddingJob → PhotoEmbeddingJob) → Db → Db
update_job id f db = record db {
  photo_embedding_jobs = update_where (λ j. j.id == id) f db.photo_embedding_jobs;
}

abbrev pub unavailable_job : DateTime → PhotoEmbeddingJob → PhotoEmbeddingJob
unavailable_job now j = record j {
  status = EmbeddingStatus.failed;
  error_code = some "PHOTO_NOT_AVAILABLE";
  completed_at = some now;
}

abbrev pub claimed_job : DateTime → String → PhotoEmbeddingJob → PhotoEmbeddingJob
claimed_job now worker_id j = record j {
  status = EmbeddingStatus.processing;
  attempt_count = j.attempt_count + 1;
  worker_id = some worker_id;
  next_attempt_at = none;
  started_at = some now;
}

abbrev pub is_embeddable : Photo → Bool
is_embeddable p = p.status == PhotoStatus.searching && is_some p.storage_key

unfoldable pub claim_embedding_job :
    Env → String → PhotoEmbeddingJob → Option Photo → Action (Option (PhotoEmbeddingJob × Photo))
claim_embedding_job e worker_id j none = do
  modify (update_job j.id (unavailable_job e.now))
  commit
  pure none
claim_embedding_job e worker_id j (some photo) =
    if is_embeddable photo
    then (do
      modify (update_job j.id (claimed_job e.now worker_id))
      commit
      pure (some (claimed_job e.now worker_id j, photo)))
    else (do modify (update_job j.id (unavailable_job e.now)); commit; pure none)

unfoldable pub next_embedding_job : DateTime → ℕ → (Uuid → Bool) → Db → Option PhotoEmbeddingJob
next_embedding_job now lease_seconds locked db = head? (
    order_by job_before
      (select (λ j. is_due_job now lease_seconds j && not (locked j.id)) db.photo_embedding_jobs))

-- `PhotoEmbeddingJobRepository.claim_next`.
unfoldable pub claim_next_embedding :
    Env → String → ℕ → (Uuid → Bool) → Action (Option (PhotoEmbeddingJob × Photo))
unfolding claim_embedding_job next_embedding_job
claim_next_embedding e worker_id lease_seconds locked = do
  job ← query (next_embedding_job e.now lease_seconds locked)
  elim job [
    | none ↦ (do rollback; pure none)
    | some j ↦ (do photo ← query (get_photo j.photo_id); claim_embedding_job e worker_id j photo)
  ]

-- `PhotoEmbeddingData`, whose `__post_init__` is `embedding_data` of Candidates.
pub record PhotoEmbeddingData : Type 0 where
  pub scene : List Float
  pub object_action : List Float
  pub composition : List Float
  pub color : List Float
  pub mood : List Float
  pub labels : String
  pub model_name : String
  pub model_version : String

-- `_locked_job`, on the rows that the query for the identifier gives.
unfoldable pub locked_job : Uuid → String → Bool → Action PhotoEmbeddingJob
locked_job job_id worker_id completed_ok = do
  rows ← query (λ db. select (λ j. j.id == job_id) db.photo_embedding_jobs)
  found ← scalar_one_or_none rows
  j ← or_raise found (api_error 404 Code.embedding_job_not_found)
  if j.status == EmbeddingStatus.completed
      then raise_if (not completed_ok) (api_error 409 Code.embedding_already_completed)
      else raise_if
          (not (j.status == EmbeddingStatus.processing) || not (j.worker_id == some worker_id))
          (api_error 409 Code.embedding_lease_lost)
  pure j

abbrev pub embedding_row : Env → Uuid → PhotoEmbeddingData → Uuid → PhotoEmbedding
embedding_row e id d photo_id = record {
  id = id;
  photo_id = photo_id;
  scene_vector = d.scene;
  object_action_vector = d.object_action;
  composition_vector = d.composition;
  color_vector = d.color;
  mood_vector = d.mood;
  labels = some d.labels;
  model_name = d.model_name;
  model_version = d.model_version;
  created_at = e.db_now;
}

abbrev pub overwrite_embedding : PhotoEmbeddingData → PhotoEmbedding → PhotoEmbedding
overwrite_embedding d r = record r {
  scene_vector = d.scene;
  object_action_vector = d.object_action;
  composition_vector = d.composition;
  color_vector = d.color;
  mood_vector = d.mood;
  labels = some d.labels;
  model_name = d.model_name;
  model_version = d.model_version;
}

-- `INSERT … ON CONFLICT (photo_id) DO UPDATE`.
abbrev pub upsert_embedding : Env → PhotoEmbeddingData → Uuid → Db → Db
upsert_embedding e d photo_id db = record db {
  photo_embeddings =
      if any (λ r. r.photo_id == photo_id) db.photo_embeddings
      then update_where (λ r. r.photo_id == photo_id) (overwrite_embedding d) db.photo_embeddings
      else db.photo_embeddings ++ embedding_row e (e.uuid4 0) d photo_id ∷ [];
}

abbrev pub completed_job : DateTime → PhotoEmbeddingJob → PhotoEmbeddingJob
completed_job now j = record j {
  status = EmbeddingStatus.completed;
  worker_id = none;
  completed_at = some now;
}

-- `PhotoEmbeddingJobRepository.apply_result`.
unfoldable pub apply_embedding_result :
    Env → Uuid → String → PhotoEmbeddingData → Action PhotoEmbeddingJob
unfolding locked_job
apply_embedding_result e job_id worker_id d = do
  j ← locked_job job_id worker_id true
  if j.status == EmbeddingStatus.completed then pure j else (do
    modify (upsert_embedding e d j.photo_id)
    flush
    modify (update_job j.id (completed_job e.now))
    commit
    pure (completed_job e.now j))

abbrev pub retried_job : DateTime → ℕ → FailureRequest → PhotoEmbeddingJob → PhotoEmbeddingJob
retried_job now base b j = record j {
  status = EmbeddingStatus.pending;
  worker_id = none;
  error_code = some b.error_code;
  error_message = b.error_message;
  next_attempt_at = some (now + retry_delay base j.attempt_count);
  started_at = none;
}

abbrev pub given_up_job : DateTime → FailureRequest → PhotoEmbeddingJob → PhotoEmbeddingJob
given_up_job now b j = record j {
  status = EmbeddingStatus.failed;
  worker_id = none;
  error_code = some b.error_code;
  error_message = b.error_message;
  started_at = none;
  completed_at = some now;
}

-- `PhotoEmbeddingJobRepository.record_failure`.
unfoldable pub record_embedding_failure :
    Env → Uuid → FailureRequest → ℕ → ℕ → Action PhotoEmbeddingJob
unfolding locked_job
record_embedding_failure e job_id b max_attempts base = do
  j ← locked_job job_id b.worker_id false
  let next =
      if b.retryable && ltb j.attempt_count max_attempts
      then retried_job e.now base b
      else given_up_job e.now b
  modify (update_job j.id next)
  commit
  pure (next j)
