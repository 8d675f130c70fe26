-- ===== src/Http/Uploads.antt =====
-- app/main.py `create_photo`: the upload of a photo, to the storage and then to the tables.
pub mod Orphans
use Prim.Native.String.{◌++◌ as append}
use dalm_backend.Http.Access.{App}
use dalm_backend.Models.{DateTime, Photo, PhotoStatus, Uuid}
use dalm_backend.PhotoStorage.{PhotoStorage}
use dalm_backend.PhotoUpload.{Bytes, Pillow, ProcessedPhoto, process_photo}
use dalm_backend.Photos.{Upload, create_photo}
use dalm_backend.Prelude.{Option, String, if◌then◌else◌, none, some, take, ◌+◌}
use dalm_backend.Store.{Code, Db, Env, Result, api_error, err, ok, request}
use dalm_backend.Tokens.{TokenClaims}

pub record UploadForm : Type 0 where
  pub image : Bytes
  pub content_type : Option String

pub record CreatePhotoData : Type 0 where
  pub photo_id : Uuid
  pub status : PhotoStatus
  pub registered_at : DateTime

-- `f"photos/{user_id}/{photo_id}/original.webp"`.
abbrev pub storage_key_of : App → Uuid → Uuid → String
storage_key_of app user_id photo_id =
    append "photos/" (
      append (app.str_of_id user_id)
        (append "/" (append (app.str_of_id photo_id) "/original.webp")))

-- The identifiers that are drawn after the photo's own.
abbrev pub later_ids : Env → Env
later_ids e = record e { uuid4 = λ n. e.uuid4 (n + 1) }

abbrev pub upload_row : App → Env → Uuid → ProcessedPhoto → Upload
upload_row app e user_id processed = record {
  photo_id = e.uuid4 0;
  user_id = user_id;
  image_url = append "/v1/photos/" (append (app.str_of_id (e.uuid4 0)) "/image");
  storage_key = storage_key_of app user_id (e.uuid4 0);
  checksum = processed.checksum;
  registered_date = app.seoul_date e.now;
  mock_passed = app.settings.mock_validation_on_upload;
}

-- `image.read(photo_max_bytes + 1)`, checked.
abbrev pub process_form : App → Pillow → UploadForm → Result ProcessedPhoto
process_form app pillow form =
    process_photo pillow (take (app.settings.photo_max_bytes + 1) form.image) form.content_type
      app.settings.photo_max_bytes app.settings.photo_min_width app.settings.photo_min_height

abbrev pub created_data : App → Photo → CreatePhotoData
created_data app p = record {
  photo_id = p.id;
  status =
      if app.settings.mock_validation_on_upload
      then PhotoStatus.searching
      else PhotoStatus.validating;
  registered_at = p.registered_at;
}

module _ {S : Type 0} (storage : PhotoStorage S) where
  -- The rows of a stored image; where they are refused, the image is deleted again, and an error
  -- of the deletion is suppressed.
  unfoldable pub record_upload : App → Env → Upload → Db → S → Result CreatePhotoData × Db × S
  unfolding create_photo
  record_upload app e u db s =
      let (r, db') = request (create_photo (later_ids e) u) db in
      elim r [
        | ok p ↦ (ok (created_data app p), db', s)
        | err x ↦ (err x, db', (storage.delete u.storage_key s).1)
      ]

  unfoldable pub store_processed :
      App → Env → Uuid → ProcessedPhoto → Db → S → Result CreatePhotoData × Db × S
  unfolding record_upload
  store_processed app e user_id processed db s =
      let u = upload_row app e user_id processed in
      let (r, s') = storage.upload u.storage_key processed.content processed.content_type s in
      elim r [ err x ↦ (err x, db, s') | ok _ ↦ record_upload app e u db s' ]

  unfoldable pub upload_photo :
      App → Pillow → Env → TokenClaims → UploadForm → Db → S → Result CreatePhotoData × Db × S
  unfolding store_processed process_photo
  upload_photo app pillow e claims form db s = elim (app.parse_subject claims.subject) [
    | none ↦ (err (api_error 401 Code.invalid_access_token), db, s)
    | some user_id ↦ elim (process_form app pillow form) [
      | err x ↦ (err x, db, s)
      | ok processed ↦ store_processed app e user_id processed db s
    ]
  ]
