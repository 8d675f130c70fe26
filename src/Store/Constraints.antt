-- ===== src/Store/Constraints.antt =====
-- The unique indexes and the checks of alembic/versions and app/models.py that a commit can violate.
use dalm_backend.Models.{
  Block, DeviceToken, MatchParticipant, NotificationSetting, Photo, PhotoEmbedding,
  PhotoEmbeddingJob, PhotoStatus, PhotoValidation, Postcard, Report, User, UserTerm,
  embedding_status_eq, notification_type_eq, photo_status_eq, report_target_eq, term_type_eq,
  user_status_eq, validation_status_eq,
}
use dalm_backend.Prelude.{
  Bool, Eq, List, Option, [], all, any, false, nat_eq, none, not, option_eq, some, string_eq, true,
  ◌&&◌, ◌==◌, ◌||◌, ◌∷◌,
}
use dalm_backend.Store.Tables.{Db}

-- No two rows clash.
abbrev pub unique {ℓ} : {A : Type ℓ} → (A → A → Bool) → List A → Bool
unique clash [] = true
unique clash (x ∷ xs) = not (any (clash x) xs) && unique clash xs

-- Equality of a nullable column in a unique index: nulls are distinct.
abbrev pub same_value {ℓ} : {A : Type ℓ} ⦃e : Eq A⦄ → Option A → Option A → Bool
same_value none b = false
same_value (some a) none = false
same_value (some a) (some b) = a == b

-- 0003_home_domain: photos_one_active_per_day_uq.
abbrev pub is_active : Photo → Bool
is_active p =
    p.status == PhotoStatus.validating
    || p.status == PhotoStatus.searching
    || p.status == PhotoStatus.matched
    || p.status == PhotoStatus.expired

abbrev pub same_active_day : Photo → Photo → Bool
same_active_day p q =
    is_active p && is_active q && p.user_id == q.user_id && p.registered_date == q.registered_date

abbrev pub users_ok : List User → Bool
users_ok us =
    unique (λ u v. u.id == v.id) us
    && unique (λ u v. same_value u.kakao_id v.kakao_id) us
    && unique (λ u v. same_value u.apple_id v.apple_id) us
    && unique (λ u v. same_value u.nickname v.nickname) us

abbrev pub user_terms_ok : List UserTerm → Bool
user_terms_ok =
    unique λ t u.
      t.user_id == u.user_id && t.term_type == u.term_type && t.term_version == u.term_version

abbrev pub photos_ok : List Photo → Bool
photos_ok ps =
    unique (λ p q. p.id == q.id) ps
    && unique (λ p q. same_value p.storage_key q.storage_key) ps
    && unique (λ p q. p.user_id == q.user_id && same_value p.checksum q.checksum) ps
    && unique same_active_day ps

abbrev pub photo_validations_ok : List PhotoValidation → Bool
photo_validations_ok vs =
    unique (λ v w. v.id == w.id) vs && unique (λ v w. v.photo_id == w.photo_id) vs

abbrev pub photo_embeddings_ok : List PhotoEmbedding → Bool
photo_embeddings_ok es =
    unique (λ v w. v.id == w.id) es && unique (λ v w. v.photo_id == w.photo_id) es

abbrev pub photo_embedding_jobs_ok : List PhotoEmbeddingJob → Bool
photo_embedding_jobs_ok js =
    unique (λ v w. v.id == w.id) js && unique (λ v w. v.photo_id == w.photo_id) js

abbrev pub match_participants_ok : List MatchParticipant → Bool
match_participants_ok ms =
    unique (λ m n. m.match_id == n.match_id && m.user_id == n.user_id) ms
    && unique (λ m n. m.photo_id == n.photo_id) ms

abbrev pub blocks_ok : List Block → Bool
blocks_ok bs =
    unique (λ a b. a.blocker_id == b.blocker_id && a.blocked_id == b.blocked_id) bs
    && all (λ b. not (b.blocker_id == b.blocked_id)) bs

abbrev pub reports_ok : List Report → Bool
reports_ok rs =
    unique (λ r s. r.id == s.id) rs
    && unique
        (λ r s.
          r.reporter_id == s.reporter_id
          && r.target_type == s.target_type
          && r.target_id == s.target_id)
        rs

abbrev pub postcards_ok : List Postcard → Bool
postcards_ok ps =
    unique (λ p q. p.id == q.id) ps
    && unique (λ p q. p.sender_id == q.sender_id && same_value p.idempotency_key q.idempotency_key)
        ps
    && all (λ p. not (p.sender_id == p.receiver_id)) ps

abbrev pub device_tokens_ok : List DeviceToken → Bool
device_tokens_ok = unique λ d e. d.token == e.token

abbrev pub notification_settings_ok : List NotificationSetting → Bool
notification_settings_ok = unique λ s t. s.user_id == t.user_id

unfoldable pub satisfies_constraints : Db → Bool
satisfies_constraints db =
    users_ok db.users
    && user_terms_ok db.user_terms
    && photos_ok db.photos
    && photo_validations_ok db.photo_validations
    && photo_embeddings_ok db.photo_embeddings
    && photo_embedding_jobs_ok db.photo_embedding_jobs
    && unique (λ m n. m.id == n.id) db.matches
    && match_participants_ok db.match_participants
    && blocks_ok db.blocks
    && reports_ok db.reports
    && unique (λ m n. m.id == n.id) db.notifications
    && postcards_ok db.postcards
    && device_tokens_ok db.device_tokens
    && notification_settings_ok db.notification_settings
