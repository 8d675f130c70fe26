-- ===== src/Workers/Embedding.antt =====
-- app/ai_embedding_worker.py: one run of the embedding worker.
use dalm_backend.EmbeddingJobs.{PhotoEmbeddingData}
use dalm_backend.Models.{Uuid}
use dalm_backend.PhotoUpload.{Bytes}
use dalm_backend.Prelude.{Bool, Option, String, false, none, some, ℕ}
use dalm_backend.Store.{Error}
use dalm_backend.Workers.{
  DownloadedImage, Outcome, Raised, ValidationProviderError, raises, returns, then_true,
}

pub record EmbeddingTask : Type 0 where
  pub job_id : Uuid
  pub photo_id : Uuid
  pub image_url : String
  pub attempt : ℕ

-- `EmbeddingBackend`, on a state of its own.
pub record EmbeddingBackend (B : Type 0) : Type 0 where
  pub claim_task : String → B → Outcome (Option EmbeddingTask) × B
  pub download_image : String → B → Outcome DownloadedImage
  pub complete_task : Uuid → String → PhotoEmbeddingData → B → Outcome (Unit {0}) × B
  pub fail_task : Uuid → String → ValidationProviderError → B → Outcome (Unit {0}) × B

-- `PhotoEmbeddingProvider.extract`.
abbrev pub Extractor : Type 0
Extractor = Bytes → String → Outcome PhotoEmbeddingData

abbrev pub extract_from :
    {B : Type 0} → EmbeddingBackend B → Extractor → EmbeddingTask → B → Outcome PhotoEmbeddingData
extract_from backend provider task b = elim (backend.download_image task.image_url b) [
  | raises x ↦ raises x
  | returns image ↦ provider image.content image.content_type
]

abbrev pub invalid_input : String → ValidationProviderError
invalid_input message = record {
  code = "EMBEDDING_INVALID_INPUT";
  message = message;
  retryable = false;
}

-- What follows the `try`, where `str(exc)` of a `ValueError` is a parameter.
unfoldable pub report_embedding :
    {B : Type 0}
    → EmbeddingBackend B
    → String
    → String
    → EmbeddingTask
    → Outcome PhotoEmbeddingData
    → B
    → Outcome Bool × B
report_embedding backend worker_id text task (returns embedding) b =
    then_true (backend.complete_task task.job_id worker_id embedding b)
report_embedding backend worker_id text task (raises (Raised.provider_error x)) b =
    then_true (backend.fail_task task.job_id worker_id x b)
report_embedding backend worker_id text task (raises (Raised.other_error Error.value_error)) b =
    then_true (backend.fail_task task.job_id worker_id (invalid_input text) b)
report_embedding backend worker_id text task (raises (Raised.other_error x)) b =
    (raises (Raised.other_error x), b)

unfoldable pub run_embedding_once :
    {B : Type 0} → EmbeddingBackend B → Extractor → String → String → B → Outcome Bool × B
unfolding report_embedding
run_embedding_once backend provider worker_id text b =
    let (r, b') = backend.claim_task worker_id b in
    elim r [
      | raises x ↦ (raises x, b')
      | returns none ↦ (returns false, b')
      | returns (some task) ↦
          report_embedding backend worker_id text task (extract_from backend provider task b') b'
    ]
