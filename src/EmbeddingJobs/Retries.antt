-- ===== src/EmbeddingJobs/Retries.antt =====
-- The delay before an embedding job is handed out again.
use dalm_backend.EmbeddingJobs.{
  claim_next_embedding, is_due_job, locked_job, record_embedding_failure, retried_job, update_job,
}
use dalm_backend.EmbeddingJobs.Leases.{NoJobDue, NoJobDue-next_job, claim_next_embedding_lem}
use dalm_backend.Models.{
  DateTime, EmbeddingStatus, Photo, PhotoEmbeddingJob, Uuid, embedding_status_eq,
  notification_type_eq, photo_status_eq, report_target_eq, term_type_eq, user_status_eq,
  validation_status_eq,
}
use dalm_backend.Pages.Keys.{later}
use dalm_backend.PhotoValidations.{FailureRequest, retry_delay}
use dalm_backend.Prelude.{
  ==_sound, All, All-select, Bool, String, [], ap, arith, false, nat_eq, option_eq,
  quiet-update_where, select, select-passes, some, string_eq, subst, sym, true, ℕ, ◌+◌, ◌<◌, ◌==◌,
  ◌∙◌, ◌∷◌, ◌≡◌, ◌≢◌,
}
use dalm_backend.Store.{Db, Env, ok, request}

record_embedding_failure_lem :
    (e : Env) (id : Uuid) (b : FailureRequest) (m base : ℕ) (j w : PhotoEmbeddingJob) (db : Db)
    → select (λ (i : PhotoEmbeddingJob). i.id == id) db.photo_embedding_jobs ≡ j ∷ []
    → (request (record_embedding_failure e id b m base) db).0 ≡ ok w
    → w.status ≡ EmbeddingStatus.pending
    → (w ≡ retried_job e.now base b j)
      × ((request (record_embedding_failure e id b m base) db).1
          ≡ update_job j.id (retried_job e.now base b) db)
unfolding record_embedding_failure locked_job
record_embedding_failure_lem e id b m base j w db found h waiting = ground arith

retried_job-is_due_job :
    (now later : DateTime) (lease base : ℕ) (b : FailureRequest) (j : PhotoEmbeddingJob)
    → later < now + retry_delay base j.attempt_count
    → is_due_job later lease (retried_job now base b j) ≡ false
retried_job-is_due_job now later lease base b j h = ground arith

-- An embedding job that fails and is put back to wait is handed out by no claim, of any worker and
-- with any lease and locks, before the retry delay of its attempts has passed. One row has the
-- identifier.
pub record_embedding_failure_waits :
    (e later : Env) (id : Uuid) (b : FailureRequest) (m base : ℕ) (worker : String) (lease : ℕ)
    (locked : Uuid → Bool) (db : Db) (j w j' : PhotoEmbeddingJob) (p' : Photo)
    → select (λ (i : PhotoEmbeddingJob). i.id == id) db.photo_embedding_jobs ≡ j ∷ []
    → (request (record_embedding_failure e id b m base) db).0 ≡ ok w
    → w.status ≡ EmbeddingStatus.pending
    → later.now < e.now + retry_delay base j.attempt_count
    → let db' = (request (record_embedding_failure e id b m base) db).1 in
      (request (claim_next_embedding later worker lease locked) db').0 ≡ ok (some (j', p'))
      → j'.id ≢ id
record_embedding_failure_waits e later id b m base worker lease locked db j w j' p' found h waiting
      soon h' same =
    let db' = (request (record_embedding_failure e id b m base) db).1 in
    let written = (record_embedding_failure_lem e id b m base j w db found h waiting).1 in
    let next = claim_next_embedding_lem later worker lease locked db' j' p' h' in
    NoJobDue-next_job id later.now lease locked db' next.0
      (subst (NoJobDue id later.now lease) (sym written) quiet) next.1
      (sym (ap (λ i. i.id) next.2) ∙ same)
  where
    same_id : j.id ≡ id
    same_id =
        let passes : All (λ (i : PhotoEmbeddingJob). (i.id == id) ≡ true) (j ∷ []) =
          rw found at
            (select-passes (λ (i : PhotoEmbeddingJob). i.id == id) db.photo_embedding_jobs) in
        ==_sound j.id id passes.0

    quiet : NoJobDue id later.now lease (update_job j.id (retried_job e.now base b) db)
    quiet = rw same_id (
        quiet-update_where (λ i. i.id == id) (is_due_job later.now lease) (retried_job e.now base b)
          db.photo_embedding_jobs
          (All-select (λ i. is_due_job later.now lease (retried_job e.now base b i) ≡ false)
            (λ (i : PhotoEmbeddingJob). i.id == id) db.photo_embedding_jobs
            (rw found (retried_job-is_due_job e.now later.now lease base b j soon, tt))))
