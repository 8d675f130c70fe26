-- ===== src/Tests/Embeddings.antt =====
-- Embedding workers at one job.
use mathlib.Core.Option.{some-injective}
use dalm_backend.EmbeddingJobs.{
  PhotoEmbeddingData, apply_embedding_result, claim_embedding_job, claim_next_embedding,
  claimed_job, completed_job, is_embeddable, locked_job, next_embedding_job,
  record_embedding_failure, retried_job,
}
use dalm_backend.EmbeddingJobs.Fencing.{embedding_lease_lost, embedding_result_again}
use dalm_backend.EmbeddingJobs.Leases.{
  claim_next_embedding_exclusive, claim_next_embedding_overtakes,
}
use dalm_backend.EmbeddingJobs.Retries.{record_embedding_failure_waits}
use dalm_backend.Models.{
  EmbeddingStatus, PhotoEmbeddingJob, PhotoStatus, days, embedding_status_eq, notification_type_eq,
  photo_status_eq, report_target_eq, term_type_eq, user_status_eq, validation_status_eq,
}
use dalm_backend.PhotoValidations.{FailureRequest, pending_embedding_job, retry_delay}
use dalm_backend.Prelude.{
  String, [], arith, eq_iff, nat_eq, option_eq, refl, select, some, string_eq, true, ◌+◌, ◌<◌, ◌==◌,
  ◌∷◌, ◌≡◌, ◌≢◌,
}
use dalm_backend.Store.{Code, Db, api_error, err, ok, request, satisfies_constraints}
use dalm_backend.Tests.Fixtures.{env, failure_of, photo_of, searching_db, stored, unlocked}

abbrev embedding_job : PhotoEmbeddingJob
embedding_job = claimed_job 5 "w" (pending_embedding_job (env 1 100) 51 11)

abbrev busy_db : Db
busy_db = record searching_db { photo_embedding_jobs = embedding_job ∷ [] }

abbrev vectors : PhotoEmbeddingData
vectors = record {
  scene = 1 ∷ [];
  object_action = 2 ∷ [];
  composition = 3 ∷ [];
  color = 4 ∷ [];
  mood = 5 ∷ [];
  labels = "{}";
  model_name = "m";
  model_version = "1";
}

abbrev stranger : FailureRequest
stranger = record (failure_of true) { worker_id = "x" }

other_worker : embedding_job.worker_id ≢ some "x"
other_worker h =
    let k : Path String "w" "x" = some-injective "w" "x" h in ground (arith, eq_iff "w" "x")

embedding_lease_lost_example :
    (request (apply_embedding_result (env 9 900) 51 "x" vectors) busy_db
      ≡ (err (api_error 409 Code.embedding_lease_lost), busy_db))
    × (request (record_embedding_failure (env 9 900) 51 stranger 3 30) busy_db
        ≡ (err (api_error 409 Code.embedding_lease_lost), busy_db))
embedding_lease_lost_example =
    embedding_lease_lost (env 9 900) 51 stranger vectors 3 30 embedding_job busy_db refl (cc)
      (λ h. other_worker)

abbrev embedded : PhotoEmbeddingJob
embedded = completed_job 9 embedding_job

embedding_accepted :
    (request (apply_embedding_result (env 9 900) 51 "w" vectors) busy_db).0 ≡ ok embedded
unfolding apply_embedding_result locked_job satisfies_constraints
embedding_accepted = refl

abbrev embedded_db : Db
embedded_db = (request (apply_embedding_result (env 9 900) 51 "w" vectors) busy_db).1

embedding_result_again_example :
    (embedded.status ≡ EmbeddingStatus.completed)
    × (request (apply_embedding_result (env 10 1000) 51 "x" vectors) embedded_db
        ≡ (ok embedded, embedded_db))
embedding_result_again_example =
    embedding_result_again (env 9 900) (env 10 1000) 51 "w" "x" vectors vectors embedded busy_db
      embedding_accepted

abbrev stored_db : Db
stored_db = record searching_db {
  photos =
      stored "a" (photo_of 11 1 PhotoStatus.searching (some (days 7)))
      ∷ stored "b" (photo_of 12 2 PhotoStatus.searching (some (days 7)))
      ∷ [];
  photo_embedding_jobs =
      pending_embedding_job (env 1 100) 51 11 ∷ pending_embedding_job (env 2 200) 52 12 ∷ [];
}

abbrev second_job : PhotoEmbeddingJob
second_job = claimed_job 6 "x" (pending_embedding_job (env 2 200) 52 12)

abbrev claimed_db : Db
claimed_db = (request (claim_next_embedding (env 5 500) "w" 60 unlocked) stored_db).1

first_embedding_claim :
    (request (claim_next_embedding (env 5 500) "w" 60 unlocked) stored_db).0
    ≡ ok (some (embedding_job, stored "a" (photo_of 11 1 PhotoStatus.searching (some (days 7)))))
unfolding claim_next_embedding claim_embedding_job next_embedding_job satisfies_constraints
first_embedding_claim = refl

second_embedding_claim :
    (request (claim_next_embedding (env 6 600) "x" 60 unlocked) claimed_db).0
    ≡ ok (some (second_job, stored "b" (photo_of 12 2 PhotoStatus.searching (some (days 7)))))
unfolding claim_next_embedding claim_embedding_job next_embedding_job satisfies_constraints
second_embedding_claim = refl

claim_next_embedding_exclusive_example :
    (is_embeddable (stored "a" (photo_of 11 1 PhotoStatus.searching (some (days 7)))) ≡ true)
    × (embedding_job.status ≡ EmbeddingStatus.processing)
    × (embedding_job.worker_id ≡ some "w")
    × (second_job.id ≢ embedding_job.id)
claim_next_embedding_exclusive_example =
    claim_next_embedding_exclusive (env 5 500) (env 6 600) "w" "x" 60 unlocked unlocked stored_db
      embedding_job second_job (stored "a" (photo_of 11 1 PhotoStatus.searching (some (days 7))))
      (stored "b" (photo_of 12 2 PhotoStatus.searching (some (days 7)))) first_embedding_claim
      (ground arith) second_embedding_claim

-- The first job, whose lease has run out, goes to the other worker.
abbrev taken_job : PhotoEmbeddingJob
taken_job = claimed_job 99_000_000 "x" embedding_job

abbrev taken_db : Db
taken_db = (request (claim_next_embedding (env 99_000_000 900) "x" 60 unlocked) claimed_db).1

third_embedding_claim :
    (request (claim_next_embedding (env 99_000_000 900) "x" 60 unlocked) claimed_db).0
    ≡ ok (some (taken_job, stored "a" (photo_of 11 1 PhotoStatus.searching (some (days 7)))))
unfolding claim_next_embedding claim_embedding_job next_embedding_job satisfies_constraints
third_embedding_claim = refl

one_row :
    select (λ (k : PhotoEmbeddingJob). k.id == taken_job.id) claimed_db.photo_embedding_jobs
    ≡ embedding_job ∷ []
unfolding claim_next_embedding claim_embedding_job next_embedding_job satisfies_constraints
one_row = refl

claim_next_embedding_overtakes_example :
    (request (apply_embedding_result (env 99_000_001 950) 51 "w" vectors) taken_db
      ≡ (err (api_error 409 Code.embedding_lease_lost), taken_db))
    × (request (record_embedding_failure (env 99_000_001 950) 51 (failure_of true) 3 30) taken_db
        ≡ (err (api_error 409 Code.embedding_lease_lost), taken_db))
claim_next_embedding_overtakes_example =
    claim_next_embedding_overtakes (env 99_000_000 900) (env 99_000_001 950) "x" 60 unlocked
      (failure_of true) vectors 3 30 claimed_db embedding_job taken_job
      (stored "a" (photo_of 11 1 PhotoStatus.searching (some (days 7)))) one_row
      third_embedding_claim different
  where
    different : ¬ (Path String "x" "w")
    different h = ground (arith, eq_iff "x" "w")

-- The second job fails at its first attempt, and the first one is handed out before its delay is over.
abbrev failing_db : Db
failing_db = record stored_db {
  photo_embedding_jobs =
      pending_embedding_job (env 1 100) 51 11
      ∷ claimed_job 3 "w" (pending_embedding_job (env 0 200) 52 12)
      ∷ [];
}

abbrev failing_job : PhotoEmbeddingJob
failing_job = claimed_job 3 "w" (pending_embedding_job (env 0 200) 52 12)

abbrev waiting_job : PhotoEmbeddingJob
waiting_job = retried_job 4 30 (failure_of true) failing_job

abbrev failed_db : Db
failed_db = (request (record_embedding_failure (env 4 400) 52 (failure_of true) 3 30) failing_db).1

retry_accepted :
    (request (record_embedding_failure (env 4 400) 52 (failure_of true) 3 30) failing_db).0
    ≡ ok waiting_job
unfolding record_embedding_failure locked_job satisfies_constraints retry_delay
retry_accepted = refl

claim_while_waiting :
    (request (claim_next_embedding (env 5 500) "w" 60 unlocked) failed_db).0
    ≡ ok (some (embedding_job, stored "a" (photo_of 11 1 PhotoStatus.searching (some (days 7)))))
unfolding record_embedding_failure locked_job claim_next_embedding claim_embedding_job
    next_embedding_job satisfies_constraints retry_delay
claim_while_waiting = refl

before_delay : 5 < 4 + retry_delay 30 failing_job.attempt_count
unfolding retry_delay
before_delay = ground arith

record_embedding_failure_waits_example : embedding_job.id ≢ 52
record_embedding_failure_waits_example =
    record_embedding_failure_waits (env 4 400) (env 5 500) 52 (failure_of true) 3 30 "w" 60 unlocked
      failing_db failing_job waiting_job embedding_job
      (stored "a" (photo_of 11 1 PhotoStatus.searching (some (days 7)))) refl retry_accepted refl
      before_delay claim_while_waiting
