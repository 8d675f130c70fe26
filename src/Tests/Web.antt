-- ===== src/Tests/Web.antt =====
-- Requests of users over HTTP: pages, the day of a search, uploads, withdrawals and logins.
use dalm_backend.Http.Access.{authenticated_user_id}
use dalm_backend.Http.Accounts.{withdraw_my_account}
use dalm_backend.Http.Accounts.Leaving.{HasLeft, withdraw_my_account_ends}
use dalm_backend.Http.Cursors.{decode_cursor, encode_cursor}
use dalm_backend.Http.Cursors.RoundTrip.{decode_cursor-encode}
use dalm_backend.Http.Days.{remaining_days, shown_search_day}
use dalm_backend.Http.Days.Count.{is_within_week, shown_search_day-bounds, shown_search_day_lem}
use dalm_backend.Http.Lists.{notification_data, show_notifications}
use dalm_backend.Http.Reading.{all_notifications, pages, walk-notifications}
use dalm_backend.Http.Uploads.{
  UploadForm, process_form, record_upload, storage_key_of, store_processed, upload_photo,
}
use dalm_backend.Http.Uploads.Orphans.{HasFailed, upload_photo_kept}
use dalm_backend.Models.{
  DateTime, Notification, NotificationType, Uuid, days, embedding_status_eq, notification_type_eq,
  photo_status_eq, report_target_eq, term_type_eq, user_status_eq, validation_status_eq,
}
use dalm_backend.Pages.{Cursor, walk}
use dalm_backend.PhotoStorage.{
  BotoOutcome, PhotoStorage, S3Client, client_error, returned, s3_storage,
}
use dalm_backend.PhotoStorage.Laws.{S3Laws, s3_storage-StorageLaws}
use dalm_backend.PhotoUpload.{Pillow, ProcessedPhoto, check_format, process_photo, sanitize}
use dalm_backend.Photos.{create_photo}
use dalm_backend.Prelude.{
  ==_self, List, String, [], any, ap, arith, false, if◌then◌else◌, leb, map, nat_eq, none, not,
  option_eq, refl, select, some, string_eq, sym, true, ◌&&◌, ◌+◌, ◌-◌, ◌==◌, ◌∙◌, ◌∷◌, ◌≡◌, ◌⊎◌,
}
use dalm_backend.Store.{Code, Db, api_error, err, ok, request, satisfies_constraints}
use dalm_backend.Tests.Fixtures.{empty_db, env, members}
use dalm_backend.Tests.Formats.{app, claims_of_user, toy_codec, toy_codec_laws}
use dalm_backend.TokenStore.{Active, lookup}
use dalm_backend.TokenStore.Laws.{IsDict}
use dalm_backend.Tokens.{TokenClaims}
use dalm_backend.Users.{get_by_id, get_member, withdraw}

abbrev note : Uuid → DateTime → Notification
note id at = record {
  id = id;
  user_id = 1;
  type = NotificationType.system;
  title = "t";
  message = "m";
  target_type = none;
  target_id = none;
  read_at = none;
  deleted_at = none;
  created_at = at;
}

abbrev noted_db : Db
noted_db = record empty_db {
  users = members;
  notifications = note 41 5 ∷ note 42 9 ∷ note 43 5 ∷ [];
}

abbrev user_claims : TokenClaims
user_claims = claims_of_user "1"

-- One row to a page.
walk-notifications_example :
    walk 4 (λ k. pages (request (show_notifications app user_claims false 1 k) noted_db).0) none
    ≡ ok (map notification_data (all_notifications 1 false noted_db))
walk-notifications_example =
    walk-notifications app toy_codec_laws user_claims 1 refl false 0 noted_db 4 refl (ground arith)

abbrev some_cursor : Cursor
some_cursor = record { at = 1_000; id = 42 }

decode_cursor-encode_example :
    decode_cursor toy_codec (some (encode_cursor toy_codec some_cursor)) ≡ ok (some some_cursor)
decode_cursor-encode_example = decode_cursor-encode toy_codec toy_codec_laws some_cursor

shown_search_day_example :
    (shown_search_day (100 + days 2) (some (100 + days 7)) ≡ 2 + 1)
    × (remaining_days (100 + days 2) (some (100 + days 7)) ≡ some (7 - 2))
shown_search_day_example =
    shown_search_day_lem 100 (100 + days 2) 2 (ground arith) (ground arith) (ground arith)

shown_search_day-bounds_example :
    ((leb 1 (shown_search_day (days 9) (some 50)) && leb (shown_search_day (days 9) (some 50)) 7)
      ≡ true)
    × (is_within_week (remaining_days (days 9) (some 50)) ≡ true)
shown_search_day-bounds_example = shown_search_day-bounds (days 9) (some 50)

abbrev tokens : Active
tokens = ("r1", "1") ∷ ("r2", "2") ∷ []

tokens-IsDict : IsDict tokens
unfolding lookup
tokens-IsDict = (refl, (refl, tt))

left_ok : (withdraw_my_account app (env 100 1000) user_claims noted_db tokens).0 ≡ ok tt
unfolding withdraw_my_account authenticated_user_id withdraw get_member get_by_id
    satisfies_constraints
left_ok = refl

withdraw_my_account_ends_example :
    HasLeft "1" 1
      (withdraw_my_account app (env 100 1000) user_claims noted_db tokens).1
      (withdraw_my_account app (env 100 1000) user_claims noted_db tokens).2
withdraw_my_account_ends_example =
    withdraw_my_account_ends app (env 100 1000) user_claims 1 noted_db tokens refl tokens-IsDict
      left_ok

-- A client of S3 whose bucket is a list of keys.
abbrev put_key : String → List String → BotoOutcome (Unit {0}) × List String
put_key key keys =
    if any (λ k. k == key) keys then (client_error (some 412), keys) else (returned tt, key ∷ keys)

abbrev key_client : S3Client (List String)
key_client = record {
  put_object = λ key content content_type keys. put_key key keys;
  delete_object = λ key keys. (returned tt, select (λ k. not (k == key)) keys);
  generate_presigned_url = λ key expires_in keys. returned key;
}

abbrev key_storage : PhotoStorage (List String)
key_storage = s3_storage key_client

others_kept :
    (key : String) (keys : List String)
    → any (λ k. k == key) keys ≡ false
    → select (λ k. not (k == key)) keys ≡ keys
others_kept key [] h = refl
others_kept key (k ∷ ks) h =
    let other : (k == key) ≡ false = ground arith in
    rw other (ap (λ zs. k ∷ zs) (others_kept key ks (ground arith)))

put_key_taken :
    (key : String) (keys keys' : List String)
    → put_key key keys ≡ (returned tt, keys')
    → (keys' ≡ key ∷ keys) × (any (λ k. k == key) keys ≡ false)
put_key_taken key keys keys' h = ground arith

key_client-S3Laws : S3Laws key_client
key_client-S3Laws = record {
  deleted = λ key content_type content keys keys' keys'' h h'.
      let (grown, fresh) = put_key_taken key keys keys' h in
      sym (ap (λ r. r.1) h')
      ∙ ap (select (λ k. not (k == key))) grown
      ∙ rw (==_self key) (others_kept key keys fresh);
}

abbrev jpeg_only : Pillow
jpeg_only = record {
  format = λ content. some (some "JPEG");
  verify = λ content. true;
  transposed_size = λ content. some (800, 1000);
  save_webp = λ content. some content;
  is_off_ratio = λ w h. false;
  sha256 = λ content. "h";
}

abbrev jpeg_form : UploadForm
jpeg_form = record { image = 1 ∷ 2 ∷ []; content_type = some "image/jpeg" }

-- A user without an account: the image is stored, the row is refused, and the image is deleted.
upload_fails :
    (upload_photo key_storage app jpeg_only
      (env 100 1000)
      user_claims
      jpeg_form
      empty_db
      ("a" ∷ [])).0
    ≡ err (api_error 403 Code.account_not_active)
unfolding upload_photo store_processed record_upload process_photo check_format sanitize
    create_photo
upload_fails = refl

abbrev bucket_after : List String
bucket_after =
    (upload_photo key_storage app jpeg_only (env 100 1000) user_claims jpeg_form empty_db
      ("a" ∷ [])).2

upload_photo_kept_example :
    (bucket_after ≡ "a" ∷ [])
    ⊎ ((id : Uuid) × (p : ProcessedPhoto) × (app.parse_subject user_claims.subject ≡ some id)
        × (process_form app jpeg_only jpeg_form ≡ ok p)
        × HasFailed key_storage (storage_key_of app id 1000) p ("a" ∷ []) bucket_after)
upload_photo_kept_example =
    upload_photo_kept key_storage (s3_storage-StorageLaws key_client key_client-S3Laws) app
      jpeg_only (env 100 1000) user_claims jpeg_form empty_db ("a" ∷ [])
      (api_error 403 Code.account_not_active) upload_fails

-- Here the deletion has taken the image back.
bucket_kept : bucket_after ≡ "a" ∷ []
unfolding upload_photo store_processed record_upload process_photo check_format sanitize
    create_photo
bucket_kept = refl
