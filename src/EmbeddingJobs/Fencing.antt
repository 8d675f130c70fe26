-- ===== src/EmbeddingJobs/Fencing.antt =====
-- Workers that have lost their job, and results that are delivered twice.
use dalm_backend.EmbeddingJobs.{
  PhotoEmbeddingData, apply_embedding_result, completed_job, locked_job, record_embedding_failure,
}
use dalm_backend.Models.{
  EmbeddingStatus, PhotoEmbeddingJob, Uuid, embedding_status_eq, notification_type_eq,
  photo_status_eq, report_target_eq, term_type_eq, user_status_eq, validation_status_eq,
}
use dalm_backend.PhotoValidations.{FailureRequest}
use dalm_backend.Prelude.{
  ==_sound, All, Rows-cases, String, [], ap, arith, inl, inr, nat_eq, option_beq_iff, option_eq,
  select, select-passes, select-update_found, some, string_eq, true, update_where, ℕ, ◌==◌, ◌∷◌,
  ◌≡◌, ◌≢◌,
}
use dalm_backend.Store.{Code, Db, Env, api_error, err, ok, request}

-- For a job that is not completed, and that is not being processed by this worker: a result and
-- a failure of the worker are both answered with `EMBEDDING_LEASE_LOST`, and nothing is written.
pub embedding_lease_lost :
    (e : Env) (id : Uuid) (b : FailureRequest) (d : PhotoEmbeddingData) (m base : ℕ)
    (j : PhotoEmbeddingJob) (db : Db)
    → select (λ (i : PhotoEmbeddingJob). i.id == id) db.photo_embedding_jobs ≡ j ∷ []
    → j.status ≢ EmbeddingStatus.completed
    → (j.status ≡ EmbeddingStatus.processing → j.worker_id ≢ some b.worker_id)
    → (request (apply_embedding_result e id b.worker_id d) db
        ≡ (err (api_error 409 Code.embedding_lease_lost), db))
      × (request (record_embedding_failure e id b m base) db
          ≡ (err (api_error 409 Code.embedding_lease_lost), db))
unfolding apply_embedding_result record_embedding_failure locked_job
embedding_lease_lost e id b d m base j db found unfinished other = (
  ground (arith, option_beq_iff j.worker_id (some b.worker_id)),
  ground (arith, option_beq_iff j.worker_id (some b.worker_id)),
)

abbrev IsCompleted : Uuid → PhotoEmbeddingJob → Db → Type 0
IsCompleted id j db =
    (select (λ (i : PhotoEmbeddingJob). i.id == id) db.photo_embedding_jobs ≡ j ∷ [])
    × (j.status ≡ EmbeddingStatus.completed)

completed_again :
    (e : Env) (id : Uuid) (worker : String) (d : PhotoEmbeddingData) (j : PhotoEmbeddingJob)
    (db : Db)
    → IsCompleted id j db
    → request (apply_embedding_result e id worker d) db ≡ (ok j, db)
unfolding apply_embedding_result locked_job
completed_again e id worker d j db h = ground arith

apply_found :
    (e : Env) (id : Uuid) (worker : String) (d : PhotoEmbeddingData) (j k : PhotoEmbeddingJob)
    (db : Db)
    → select (λ (i : PhotoEmbeddingJob). i.id == id) db.photo_embedding_jobs ≡ j ∷ []
    → (request (apply_embedding_result e id worker d) db).0 ≡ ok k
    → IsCompleted id k (request (apply_embedding_result e id worker d) db).1
unfolding apply_embedding_result locked_job
apply_found e id worker d j k db found h = ground (arith, written)
  where
    passes : All (λ (i : PhotoEmbeddingJob). (i.id == id) ≡ true) (j ∷ [])
    passes =
        rw found at (select-passes (λ (i : PhotoEmbeddingJob). i.id == id) db.photo_embedding_jobs)

    written :
        select
          (λ (i : PhotoEmbeddingJob). i.id == id)
          (update_where (λ i. i.id == j.id) (completed_job e.now) db.photo_embedding_jobs)
        ≡ completed_job e.now j ∷ []
    written =
        select-update_found (λ (i : PhotoEmbeddingJob). i.id == id) (λ i. i.id == j.id)
          (completed_job e.now) db.photo_embedding_jobs j
          (λ i. ap (λ n. i.id == n) (==_sound j.id id passes.0)) (λ i n. n) found

apply-IsCompleted :
    (e : Env) (id : Uuid) (worker : String) (d : PhotoEmbeddingData) (k : PhotoEmbeddingJob)
    (db : Db)
    → (request (apply_embedding_result e id worker d) db).0 ≡ ok k
    → IsCompleted id k (request (apply_embedding_result e id worker d) db).1
unfolding apply_embedding_result locked_job
apply-IsCompleted e id worker d k db h =
    elim (Rows-cases (select (λ (i : PhotoEmbeddingJob). i.id == id) db.photo_embedding_jobs)) [
      | inl none_found ↦ absurd (ground arith)
      | inr (inl (j, found)) ↦ apply_found e id worker d j k db found h
      | inr (inr (i, j, r, many)) ↦ absurd (ground arith)
    ]

-- An embedding that has been accepted may be delivered again, by any worker, at any time and with any
-- vectors: the answer is the same completed job, and nothing is written.
pub embedding_result_again :
    (e e' : Env) (id : Uuid) (worker worker' : String) (d d' : PhotoEmbeddingData)
    (j : PhotoEmbeddingJob) (db : Db)
    → (request (apply_embedding_result e id worker d) db).0 ≡ ok j
    → let db' = (request (apply_embedding_result e id worker d) db).1 in
      (j.status ≡ EmbeddingStatus.completed)
      × (request (apply_embedding_result e' id worker' d') db' ≡ (ok j, db'))
embedding_result_again e e' id worker worker' d d' j db h =
    let done = apply-IsCompleted e id worker d j db h in
    (
      done.1,
      completed_again e' id worker' d' j (request (apply_embedding_result e id worker d) db).1 done,
    )
