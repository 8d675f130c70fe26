-- ===== src/Models/Photos.antt =====
-- app/models.py: photos and the two kinds of work that is queued for them. A JSON column is its text.
use dalm_backend.Prelude.{ℕ, String, Option, List}
use dalm_backend.Models.Times.{Uuid, DateTime, Date, Float}
use dalm_backend.Models.Statuses.{PhotoStatus, ValidationStatus, EmbeddingStatus}

pub record Photo : Type 0 where
  pub id : Uuid
  pub user_id : Uuid
  pub image_url : String
  pub storage_key : Option String
  pub checksum : Option String
  pub ai_title : Option String
  pub status : PhotoStatus
  pub registered_date : Date
  pub registered_at : DateTime
  pub search_expires_at : Option DateTime
  pub rejection_code : Option String
  pub rejection_message : Option String
  pub deleted_at : Option DateTime

pub record PhotoValidation : Type 0 where
  pub id : Uuid
  pub photo_id : Uuid
  pub status : ValidationStatus
  pub scores : Option String
  pub rejection_code : Option String
  pub model_name : Option String
  pub model_version : Option String
  pub processing_time_ms : Option ℕ
  pub attempt_count : ℕ
  pub worker_id : Option String
  pub error_code : Option String
  pub error_message : Option String
  pub next_attempt_at : Option DateTime
  pub started_at : Option DateTime
  pub created_at : DateTime
  pub completed_at : Option DateTime

pub record PhotoEmbedding : Type 0 where
  pub id : Uuid
  pub photo_id : Uuid
  pub scene_vector : List Float
  pub object_action_vector : List Float
  pub composition_vector : List Float
  pub color_vector : List Float
  pub mood_vector : List Float
  pub labels : Option String
  pub model_name : String
  pub model_version : String
  pub created_at : DateTime

pub record PhotoEmbeddingJob : Type 0 where
  pub id : Uuid
  pub photo_id : Uuid
  pub status : EmbeddingStatus
  pub attempt_count : ℕ
  pub worker_id : Option String
  pub error_code : Option String
  pub error_message : Option String
  pub next_attempt_at : Option DateTime
  pub started_at : Option DateTime
  pub completed_at : Option DateTime
  pub created_at : DateTime
