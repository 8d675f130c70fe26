-- ===== src/Tests/Fixtures.antt =====
-- The rows and requests of the tests.
use dalm_backend.Models.{
  DateTime, Photo, PhotoStatus, PhotoValidation, User, UserStatus, Uuid, ValidationStatus, days,
}
use dalm_backend.PhotoValidations.{FailureRequest, ResultRequest, Verdict}
use dalm_backend.Prelude.{Bool, List, Option, String, [], false, none, some, ℕ, ◌+◌, ◌∷◌}
use dalm_backend.Store.{Db, Env}

-- An environment at a time, whose identifiers count up from a number.
abbrev pub env : DateTime → ℕ → Env
env t k = record { now = t; db_now = t; uuid4 = λ n. k + n }

abbrev pub member : Uuid → String → User
member id name = record {
  id = id;
  kakao_id = none;
  apple_id = none;
  nickname = some name;
  profile_image_key = none;
  bio = none;
  marketing_agreed = false;
  status = UserStatus.active;
  created_at = 0;
  updated_at = 0;
  withdrawn_at = none;
}

abbrev pub photo_of : Uuid → Uuid → PhotoStatus → Option DateTime → Photo
photo_of id user_id status window = record {
  id = id;
  user_id = user_id;
  image_url = "u";
  storage_key = none;
  checksum = none;
  ai_title = none;
  status = status;
  registered_date = 0;
  registered_at = 0;
  search_expires_at = window;
  rejection_code = none;
  rejection_message = none;
  deleted_at = none;
}

abbrev pub stored : String → Photo → Photo
stored key p = record p { storage_key = some key }

abbrev pub waiting : Uuid → Uuid → PhotoValidation
waiting id photo_id = record {
  id = id;
  photo_id = photo_id;
  status = ValidationStatus.pending;
  scores = none;
  rejection_code = none;
  model_name = none;
  model_version = none;
  processing_time_ms = none;
  attempt_count = 0;
  worker_id = none;
  error_code = none;
  error_message = none;
  next_attempt_at = none;
  started_at = none;
  created_at = 0;
  completed_at = none;
}

abbrev pub empty_db : Db
empty_db = record {
  users = [];
  user_terms = [];
  photos = [];
  photo_validations = [];
  photo_embeddings = [];
  photo_embedding_jobs = [];
  matches = [];
  match_participants = [];
  blocks = [];
  reports = [];
  notifications = [];
  postcards = [];
  device_tokens = [];
  notification_settings = [];
}

abbrev pub members : List User
members = member 1 "가" ∷ member 2 "나" ∷ []

-- Two photos that are being validated, with their jobs.
abbrev pub queued_db : Db
queued_db = record empty_db {
  users = members;
  photos =
      stored "a" (photo_of 11 1 PhotoStatus.validating none)
      ∷ stored "b" (photo_of 12 2 PhotoStatus.validating none)
      ∷ [];
  photo_validations = waiting 21 11 ∷ waiting 22 12 ∷ [];
}

-- Two photos that search.
abbrev pub searching_db : Db
searching_db = record empty_db {
  users = members;
  photos =
      photo_of 11 1 PhotoStatus.searching (some (days 7))
      ∷ photo_of 12 2 PhotoStatus.searching (some (days 7))
      ∷ [];
}

abbrev pub verdict : Verdict → ResultRequest
verdict s = record {
  status = s;
  scores = none;
  rejection_code = none;
  model_name = "m";
  model_version = "1";
  processing_time_ms = 5;
  worker_id = some "w";
}

abbrev pub failure_of : Bool → FailureRequest
failure_of retryable = record {
  worker_id = "w";
  error_code = "E";
  error_message = none;
  retryable = retryable;
}

abbrev pub unlocked : Uuid → Bool
unlocked id = false
