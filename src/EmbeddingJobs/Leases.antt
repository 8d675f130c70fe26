-- ===== src/EmbeddingJobs/Leases.antt =====
-- Leases of the embedding queue.
use mathlib.Core.Option.{some-injective}
use dalm_backend.EmbeddingJobs.{
  PhotoEmbeddingData, apply_embedding_result, claim_embedding_job, claim_next_embedding,
  claimed_job, is_due_job, is_embeddable, job_before, next_embedding_job, record_embedding_failure,
  update_job,
}
use dalm_backend.EmbeddingJobs.Fencing.{embedding_lease_lost}
use dalm_backend.Models.{
  DateTime, EmbeddingStatus, Photo, PhotoEmbeddingJob, Uuid, embedding_status_eq,
  notification_type_eq, photo_status_eq, report_target_eq, seconds, term_type_eq, user_status_eq,
  validation_status_eq,
}
use dalm_backend.Pages.Keys.{later}
use dalm_backend.PhotoValidations.{FailureRequest}
use dalm_backend.Prelude.{
  All, All-intro, Bool, Option, Option-cases, String, [], ap, arith, false, head?-order_by, inl,
  inr, nat_eq, none, not, option_eq, quiet-head?, quiet-update_where, select, select-update_found,
  some, string_eq, subst, sym, true, ℕ, ◌&&◌, ◌+◌, ◌==◌, ◌∙◌, ◌∷◌, ◌≡◌, ◌≢◌, ◌≤◌,
}
use dalm_backend.Store.{Code, Db, Env, api_error, err, get_photo, ok, request}

abbrev is_ready_job : DateTime → ℕ → (Uuid → Bool) → PhotoEmbeddingJob → Bool
is_ready_job now lease locked j = is_due_job now lease j && not (locked j.id)

-- No embedding job under this identifier is due.
abbrev pub NoJobDue : Uuid → DateTime → ℕ → Db → Type 0
NoJobDue id now lease db =
    All (λ j. (j.id == id) ≡ true → is_due_job now lease j ≡ false) db.photo_embedding_jobs

next_embedding_job-ready :
    (now : DateTime) (lease : ℕ) (locked : Uuid → Bool) (db : Db) (j : PhotoEmbeddingJob)
    → next_embedding_job now lease locked db ≡ some j
    → is_ready_job now lease locked j ≡ true
unfolding next_embedding_job
next_embedding_job-ready now lease locked db j h =
    (head?-order_by job_before (λ i k. ground arith) (λ i k l. ground arith)
      (is_ready_job now lease locked) db.photo_embedding_jobs j h).0

pub NoJobDue-next_job :
    (id : Uuid) (now : DateTime) (lease : ℕ) (locked : Uuid → Bool) (db : Db)
    (j : PhotoEmbeddingJob)
    → NoJobDue id now lease db
    → next_embedding_job now lease locked db ≡ some j
    → j.id ≢ id
unfolding next_embedding_job
NoJobDue-next_job id now lease locked db j h e same =
    let ready = next_embedding_job-ready now lease locked db j e in
    let not_due : is_due_job now lease j ≡ false =
      quiet-head? (λ i. i.id == id) (is_due_job now lease) (is_ready_job now lease locked)
        job_before db.photo_embedding_jobs j h e (ground arith) in
    ground arith

claimed_job-is_due_job :
    (now later : DateTime) (lease : ℕ) (worker : String) (j : PhotoEmbeddingJob)
    → later ≤ now + seconds lease
    → is_due_job later lease (claimed_job now worker j) ≡ false
claimed_job-is_due_job now later lease worker j h = ground arith

claim_embedding_job_lem :
    (e : Env) (worker : String) (j : PhotoEmbeddingJob) (photo : Option Photo) (db : Db)
    (w : PhotoEmbeddingJob) (p : Photo)
    → (request (claim_embedding_job e worker j photo) db).0 ≡ ok (some (w, p))
    → (w ≡ claimed_job e.now worker j)
      × (photo ≡ some p)
      × (is_embeddable p ≡ true)
      × ((request (claim_embedding_job e worker j photo) db).1
          ≡ update_job j.id (claimed_job e.now worker) db)
unfolding claim_embedding_job
claim_embedding_job_lem e worker j none db w p h = ground arith
claim_embedding_job_lem e worker j (some q) db w p h = ground arith

pub claim_next_embedding_lem :
    (e : Env) (worker : String) (lease : ℕ) (locked : Uuid → Bool) (db : Db) (w : PhotoEmbeddingJob)
    (p : Photo)
    → (request (claim_next_embedding e worker lease locked) db).0 ≡ ok (some (w, p))
    → (j : PhotoEmbeddingJob) × (next_embedding_job e.now lease locked db ≡ some j)
      × (w ≡ claimed_job e.now worker j)
      × (get_photo j.photo_id db ≡ some p)
      × (is_embeddable p ≡ true)
      × ((request (claim_next_embedding e worker lease locked) db).1
          ≡ update_job j.id (claimed_job e.now worker) db)
unfolding claim_next_embedding
claim_next_embedding_lem e worker lease locked db w p h =
    elim (Option-cases (next_embedding_job e.now lease locked db)) [
      | inl nothing ↦ absurd (ground arith)
      | inr (j, found) ↦
          let r =
            claim_embedding_job_lem e worker j (get_photo j.photo_id db) db w p (ground arith) in
          (j, found, r.0, r.1, r.2, rw found r.3)
    ]

-- A claim of an embedding job that succeeds hands out a job whose photo searches and is stored, and
-- which is now processed by the worker that claims. Until the lease has run out, the claim that follows, by any worker and
-- under any locks, is not handed this job again.
pub claim_next_embedding_exclusive :
    (e later : Env) (worker other : String) (lease : ℕ) (locked locked' : Uuid → Bool) (db : Db)
    (j j' : PhotoEmbeddingJob) (p p' : Photo)
    → (request (claim_next_embedding e worker lease locked) db).0 ≡ ok (some (j, p))
    → later.now ≤ e.now + seconds lease
    → let db' = (request (claim_next_embedding e worker lease locked) db).1 in
      (request (claim_next_embedding later other lease locked') db').0 ≡ ok (some (j', p'))
      → (is_embeddable p ≡ true)
        × (j.status ≡ EmbeddingStatus.processing)
        × (j.worker_id ≡ some worker)
        × (j'.id ≢ j.id)
claim_next_embedding_exclusive e later worker other lease locked locked' db j j' p p' h soon h' =
    let first = claim_next_embedding_lem e worker lease locked db j p h in
    let db' = (request (claim_next_embedding e worker lease locked) db).1 in
    let second = claim_next_embedding_lem later other lease locked' db' j' p' h' in
    let quiet : NoJobDue first.0.id later.now lease db' =
      subst (NoJobDue first.0.id later.now lease) (sym first.5) (
        quiet-update_where (λ i. i.id == first.0.id) (is_due_job later.now lease)
          (claimed_job e.now worker) db.photo_embedding_jobs
          (All-intro _ db.photo_embedding_jobs
            (λ i _. claimed_job-is_due_job e.now later.now lease worker i soon))) in
    (
      first.4,
      ap (λ i. i.status) first.2,
      ap (λ i. i.worker_id) first.2,
      (λ same.
          NoJobDue-next_job first.0.id later.now lease locked' db' second.0 quiet second.1
            (sym (ap (λ i. i.id) second.2) ∙ same ∙ ap (λ i. i.id) first.2)),
    )

-- A job that another worker has claimed is lost to the worker that had it: its result and its failure
-- are both answered with `EMBEDDING_LEASE_LOST` and write nothing. One row has the identifier.
pub claim_next_embedding_overtakes :
    (e later : Env) (other : String) (lease : ℕ) (locked : Uuid → Bool) (b : FailureRequest)
    (d : PhotoEmbeddingData) (m base : ℕ) (db : Db) (i j : PhotoEmbeddingJob) (p : Photo)
    → select (λ (k : PhotoEmbeddingJob). k.id == j.id) db.photo_embedding_jobs ≡ i ∷ []
    → (request (claim_next_embedding e other lease locked) db).0 ≡ ok (some (j, p))
    → other ≢ b.worker_id
    → let db' = (request (claim_next_embedding e other lease locked) db).1 in
      (request (apply_embedding_result later j.id b.worker_id d) db'
        ≡ (err (api_error 409 Code.embedding_lease_lost), db'))
      × (request (record_embedding_failure later j.id b m base) db'
          ≡ (err (api_error 409 Code.embedding_lease_lost), db'))
claim_next_embedding_overtakes e later other lease locked b d m base db i j p found h differ =
    let db' = (request (claim_next_embedding e other lease locked) db).1 in
    let first = claim_next_embedding_lem e other lease locked db j p h in
    let same : first.0.id ≡ j.id = sym (ap (λ k. k.id) first.2) in
    let now_found : select (λ (k : PhotoEmbeddingJob). k.id == j.id) db'.photo_embedding_jobs
        ≡ claimed_job e.now other i ∷ [] =
      rw first.5 (
        select-update_found (λ (k : PhotoEmbeddingJob). k.id == j.id) (λ k. k.id == first.0.id)
          (claimed_job e.now other) db.photo_embedding_jobs i (λ k. ap (λ n. k.id == n) same)
          (λ k n. n) found) in
    embedding_lease_lost later j.id b d m base (claimed_job e.now other i) db' now_found (cc)
      (λ _ k. differ (some-injective other b.worker_id k))
