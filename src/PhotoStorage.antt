-- ===== src/PhotoStorage.antt =====
-- app/photo_storage.py: the storage of images, not configured or over the clients of S3 and of
-- Google Cloud, which are parameters with a state of their own.
pub mod Laws
use dalm_backend.Models.{
  embedding_status_eq, notification_type_eq, photo_status_eq, report_target_eq, term_type_eq,
  user_status_eq, validation_status_eq,
}
use dalm_backend.PhotoUpload.{Bytes}
use dalm_backend.Prelude.{
  Option, String, if◌then◌else◌, nat_eq, none, option_eq, some, string_eq, ℕ, ◌==◌,
}
use dalm_backend.Store.{Code, Error, Result, api_error, err, ok}

pub record PhotoStorage (S : Type 0) : Type 0 where
  pub upload : String → Bytes → String → S → Result (Unit {0}) × S
  pub delete : String → S → Result (Unit {0}) × S
  pub signed_url : String → ℕ → S → Result String

abbrev pub not_configured : Error
not_configured = api_error 503 Code.photo_storage_not_configured

abbrev pub storage_unavailable : Error
storage_unavailable = api_error 503 Code.photo_storage_unavailable

abbrev pub object_conflict : Error
object_conflict = api_error 409 Code.photo_object_conflict

-- `UnconfiguredPhotoStorage`.
abbrev pub unconfigured : {S : Type 0} → PhotoStorage S
unconfigured = record {
  upload = λ key content content_type s. (err not_configured, s);
  delete = λ key s. (ok tt, s);
  signed_url = λ key expires_in s. err not_configured;
}

-- What a call of boto3 does: it returns, raises `ClientError` with the status of its response where
-- that has one, or raises another `BotoCoreError`.
pub data BotoOutcome (A : Type 0) : Type 0 where
  returned : A → BotoOutcome A
  client_error : Option ℕ → BotoOutcome A
  boto_core_error : BotoOutcome A

pub record S3Client (S : Type 0) : Type 0 where
  -- `put_object` with `IfNoneMatch="*"`.
  pub put_object : String → Bytes → String → S → BotoOutcome (Unit {0}) × S
  pub delete_object : String → S → BotoOutcome (Unit {0}) × S
  pub generate_presigned_url : String → ℕ → S → BotoOutcome String

abbrev pub s3_upload_result : BotoOutcome (Unit {0}) → Result (Unit {0})
s3_upload_result (returned _) = ok tt
s3_upload_result (client_error none) = err storage_unavailable
s3_upload_result (client_error (some status)) =
    if status == 412 then err object_conflict else err storage_unavailable
s3_upload_result boto_core_error = err storage_unavailable

abbrev pub s3_result : {A : Type 0} → BotoOutcome A → Result A
s3_result (returned a) = ok a
s3_result (client_error status) = err storage_unavailable
s3_result boto_core_error = err storage_unavailable

abbrev pub s3_storage : {S : Type 0} → S3Client S → PhotoStorage S
s3_storage client = record {
  upload = λ key content content_type s.
      let (r, s') = client.put_object key content content_type s in (s3_upload_result r, s');
  delete = λ key s. let (r, s') = client.delete_object key s in (s3_result r, s');
  signed_url = λ key expires_in s. s3_result (client.generate_presigned_url key expires_in s);
}

-- What a call of google-cloud-storage does, as far as the code tells its errors apart.
pub data GcsOutcome (A : Type 0) : Type 0 where
  succeeded : A → GcsOutcome A
  precondition_failed gcs_not_found google_api_error : GcsOutcome A

pub record GcsClient (S : Type 0) : Type 0 where
  -- `upload_from_string` with `if_generation_match=0`.
  pub upload_from_string : String → Bytes → String → S → GcsOutcome (Unit {0}) × S
  pub delete_blob : String → S → GcsOutcome (Unit {0}) × S
  -- `generate`, with the credentials it needs.
  pub generate : String → ℕ → S → GcsOutcome String

abbrev pub gcs_upload_result : GcsOutcome (Unit {0}) → Result (Unit {0})
gcs_upload_result (succeeded _) = ok tt
gcs_upload_result precondition_failed = err object_conflict
gcs_upload_result gcs_not_found = err storage_unavailable
gcs_upload_result google_api_error = err storage_unavailable

abbrev pub gcs_delete_result : GcsOutcome (Unit {0}) → Result (Unit {0})
gcs_delete_result (succeeded _) = ok tt
gcs_delete_result gcs_not_found = ok tt
gcs_delete_result precondition_failed = err storage_unavailable
gcs_delete_result google_api_error = err storage_unavailable

abbrev pub gcs_url_result : GcsOutcome String → Result String
gcs_url_result (succeeded url) = ok url
gcs_url_result _ = err storage_unavailable

abbrev pub gcs_storage : {S : Type 0} → GcsClient S → PhotoStorage S
gcs_storage client = record {
  upload = λ key content content_type s.
      let (r, s') = client.upload_from_string key content content_type s in
      (gcs_upload_result r, s');
  delete = λ key s. let (r, s') = client.delete_blob key s in (gcs_delete_result r, s');
  signed_url = λ key expires_in s. gcs_url_result (client.generate key expires_in s);
}
