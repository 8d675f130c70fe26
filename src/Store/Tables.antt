-- ===== src/Store/Tables.antt =====
-- The tables of the database, each a list of its rows in the order of insertion.
use dalm_backend.Models.{
  Block, DeviceToken, Match, MatchParticipant, Notification, NotificationSetting, Photo,
  PhotoEmbedding, PhotoEmbeddingJob, PhotoValidation, Postcard, Report, User, UserTerm, Uuid,
  embedding_status_eq, notification_type_eq, photo_status_eq, report_target_eq, term_type_eq,
  user_status_eq, validation_status_eq,
}
use dalm_backend.Prelude.{
  List, Option, head?, nat_eq, option_eq, select, string_eq, update_where, ◌==◌,
}

pub record Db : Type 0 where
  pub users : List User
  pub user_terms : List UserTerm
  pub photos : List Photo
  pub photo_validations : List PhotoValidation
  pub photo_embeddings : List PhotoEmbedding
  pub photo_embedding_jobs : List PhotoEmbeddingJob
  pub matches : List Match
  pub match_participants : List MatchParticipant
  pub blocks : List Block
  pub reports : List Report
  pub notifications : List Notification
  pub postcards : List Postcard
  pub device_tokens : List DeviceToken
  pub notification_settings : List NotificationSetting

-- `session.get(Photo, id)`.
abbrev pub get_photo : Uuid → Db → Option Photo
get_photo id db = head? (select (λ p. p.id == id) db.photos)

abbrev pub update_photo : Uuid → (Photo → Photo) → Db → Db
update_photo id f db = record db { photos = update_where (λ p. p.id == id) f db.photos }
