-- ===== src/Photos.antt =====
-- app/repositories.py `HomeRepository`: the photos of a user, from upload to deletion.
pub mod Uploads
use dalm_backend.Models.{
  Date, DateTime, NotificationType, Photo, PhotoStatus, PhotoValidation, User, UserStatus, Uuid,
  ValidationStatus, days, embedding_status_eq, minutes, notification_type_eq, onboarding_required,
  photo_status_eq, report_target_eq, term_type_eq, user_status_eq, validation_status_eq,
}
use dalm_backend.Notifications.{add_notification, event_notification}
use dalm_backend.Pages.{Cursor, behind}
use dalm_backend.PhotoValidations.{pending_embedding_job, rejection_message}
use dalm_backend.Prelude.{
  Bool, List, Option, String, [], any, head?, if◌then◌else◌, is_none, is_some, is_some_and, leb,
  ltb, nat_eq, none, not, option_eq, order_by, select, some, string_eq, take, true, update_where, ℕ,
  ◌&&◌, ◌++◌, ◌+◌, ◌==◌, ◌||◌, ◌∷◌,
}
use dalm_backend.Store.{
  Action, Code, Db, Env, Error, api_error, commit, commit_or, is_active, modify, or_raise, pure,
  query, raise_if, scalar_one_or_none, update_photo, ◌>>=◌, ◌>>◌,
}
use dalm_backend.TokenStore.{owned}

-- `Photo.status.in_({…})` at the places of the code.
abbrev pub is_stale : DateTime → Uuid → Photo → Bool
is_stale now user_id p =
    p.user_id == user_id
    && p.status == PhotoStatus.validating
    && leb (p.registered_at + minutes 15) now

abbrev pub timed_out : Photo → Photo
timed_out p = record p {
  status = PhotoStatus.rejected;
  rejection_code = some "VALIDATION_TIMEOUT";
  rejection_message = some "사진 확인이 지연됐습니다. 다시 등록해주세요.";
}

unfoldable pub expire_stale_validations : Env → Uuid → Action (Unit {0})
expire_stale_validations e user_id = do
  stale ← query (λ db. any (is_stale e.now user_id) db.photos)
  if stale
      then (do
        modify
            λ db. record db { photos = update_where (is_stale e.now user_id) timed_out db.photos }
        commit)
      else pure tt

-- `ORDER BY registered_at DESC, id DESC`.
abbrev pub newest_first : Photo → Photo → Bool
newest_first p q =
    ltb q.registered_at p.registered_at || p.registered_at == q.registered_at && leb q.id p.id

unfoldable pub get_today_photo : Env → Uuid → Date → Action (Option Photo)
unfolding expire_stale_validations
get_today_photo e user_id today = do
  expire_stale_validations e user_id
  query λ db. head? (
      order_by newest_first (
        select
          (λ p.
            p.user_id == user_id
            && p.registered_date == today
            && not (p.status == PhotoStatus.deleted))
          db.photos))

pub record Upload : Type 0 where
  pub photo_id : Uuid
  pub user_id : Uuid
  pub image_url : String
  pub storage_key : String
  pub checksum : String
  pub registered_date : Date
  pub mock_passed : Bool

abbrev pub is_closed : Photo → Bool
is_closed p = p.status == PhotoStatus.rejected || p.status == PhotoStatus.deleted

abbrev pub has_checksum : Upload → Photo → Bool
has_checksum u p = p.user_id == u.user_id && is_some_and (λ c. c == u.checksum) p.checksum

abbrev pub uploaded_photo : Env → Upload → Photo
uploaded_photo e u = record {
  id = u.photo_id;
  user_id = u.user_id;
  image_url = u.image_url;
  storage_key = some u.storage_key;
  checksum = some u.checksum;
  ai_title = none;
  status = if u.mock_passed then PhotoStatus.searching else PhotoStatus.validating;
  registered_date = u.registered_date;
  registered_at = e.now;
  search_expires_at = if u.mock_passed then some (e.now + days 7) else none;
  rejection_code = none;
  rejection_message = none;
  deleted_at = none;
}

abbrev pub pending_validation : Env → Uuid → Uuid → PhotoValidation
pending_validation e id photo_id = record {
  id = id;
  photo_id = photo_id;
  status = ValidationStatus.pending;
  scores = none;
  rejection_code = none;
  model_name = none;
  model_version = none;
  processing_time_ms = none;
  attempt_count = 0;
  worker_id = none;
  error_code = none;
  error_message = none;
  next_attempt_at = none;
  started_at = none;
  created_at = e.db_now;
  completed_at = none;
}

abbrev pub mock_validation : Env → Uuid → Uuid → PhotoValidation
mock_validation e id photo_id = record (pending_validation e id photo_id) {
  status = ValidationStatus.passed;
  model_name = some "dalm-mock-validator";
  model_version = some "1";
  processing_time_ms = some 0;
  attempt_count = 1;
  completed_at = some e.now;
}

-- The rows that an upload adds: a job for the validation worker, or its result and what follows.
abbrev pub add_upload : Env → Upload → Db → Db
add_upload e u db =
    if u.mock_passed
    then add_notification
        (event_notification e (e.uuid4 2) u.user_id NotificationType.validation_passed u.photo_id)
        (record db {
          photos = db.photos ++ uploaded_photo e u ∷ [];
          photo_validations = db.photo_validations ++ mock_validation e (e.uuid4 0) u.photo_id ∷ [];
          photo_embedding_jobs =
              db.photo_embedding_jobs ++ pending_embedding_job e (e.uuid4 1) u.photo_id ∷ [];
        })
    else record db {
      photos = db.photos ++ uploaded_photo e u ∷ [];
      photo_validations = db.photo_validations ++ pending_validation e (e.uuid4 0) u.photo_id ∷ [];
    }

abbrev pub release_checksum : Upload → Db → Db
release_checksum u db = record db {
  photos =
      update_where (λ p. has_checksum u p && is_closed p) (λ p. record p { checksum = none })
        db.photos;
}

-- The part of `create_photo` behind the checks of the account and the day.
unfoldable pub store_upload : Env → Upload → Action Photo
store_upload e u = do
  modify (release_checksum u)
  rows ← query (λ db. select (λ p. has_checksum u p && not (is_closed p)) db.photos)
  duplicate ← scalar_one_or_none rows
  raise_if (is_some duplicate) (api_error 409 Code.duplicate_photo)
  modify (add_upload e u)
  commit_or (api_error 409 Code.photo_conflict)
  pure (uploaded_photo e u)

abbrev pub get_user : Uuid → Db → Option User
get_user id db = head? (select (λ u. u.id == id) db.users)

-- The part of `create_photo` behind the checks of the account and the timeouts.
unfoldable pub create_checked : Env → Upload → Action Photo
create_checked e u = do
  rows ← query λ db.
      select (λ p. p.user_id == u.user_id && p.registered_date == u.registered_date && is_active p)
        db.photos
  active_photo ← scalar_one_or_none rows
  raise_if (is_some active_photo) (api_error 409 Code.today_photo_already_exists)
  store_upload e u

unfoldable pub create_photo : Env → Upload → Action Photo
create_photo e u = do
  account ← query (get_user u.user_id)
  user ← or_raise account (api_error 403 Code.account_not_active)
  raise_if (not (user.status == UserStatus.active)) (api_error 403 Code.account_not_active)
  raise_if (onboarding_required user) (api_error 409 Code.onboarding_required)
  expire_stale_validations e u.user_id
  create_checked e u

-- The viewer's own photo, or one of a match in which the viewer takes part.
unfoldable pub can_access_photo : Uuid → Uuid → Action Bool
can_access_photo user_id photo_id = do
  rows ←
      query λ db.
        select (λ p. p.id == photo_id && p.user_id == user_id && is_none p.deleted_at) db.photos
  owned ← scalar_one_or_none rows
  if is_some owned
      then pure true
      else query λ db.
        any
          (λ target.
            target.photo_id == photo_id
            && any (λ viewer. viewer.match_id == target.match_id && viewer.user_id == user_id)
                db.match_participants)
          db.match_participants

abbrev pub is_deletable : Photo → Bool
is_deletable p =
    p.status == PhotoStatus.validating
    || p.status == PhotoStatus.rejected
    || p.status == PhotoStatus.searching
    || p.status == PhotoStatus.expired

abbrev pub deleted_photo : DateTime → Photo → Photo
deleted_photo now p = record p { status = PhotoStatus.deleted; deleted_at = some now }

abbrev pub undeletable : Photo → Error
undeletable p = api_error 409 (
    if p.status == PhotoStatus.matched
    then Code.photo_already_matched
    else Code.photo_delete_not_allowed)

unfoldable pub delete_photo : Env → Uuid → Uuid → Action (Unit {0})
delete_photo e user_id photo_id = do
  rows ← query (λ db. select (λ p. p.id == photo_id) db.photos)
  found ← scalar_one_or_none rows
  photo ← or_raise found (api_error 404 Code.photo_not_found)
  raise_if (photo.status == PhotoStatus.deleted) (api_error 404 Code.photo_not_found)
  raise_if (not (photo.user_id == user_id)) (api_error 403 Code.photo_not_owned)
  raise_if (not (is_deletable photo)) (undeletable photo)
  modify (update_photo photo.id (deleted_photo e.now))
  commit

unfoldable pub list_searching_photos : Uuid → Date → Bool → ℕ → Option Cursor → Action (List Photo)
list_searching_photos user_id today exclude_today size cursor = query λ db. take (size + 1) (
    order_by newest_first (
      select
        (λ p.
          p.user_id == user_id
          && p.status == PhotoStatus.searching
          && is_none p.deleted_at
          && (not exclude_today || not (p.registered_date == today))
          && behind cursor p.registered_at p.id)
        db.photos))
