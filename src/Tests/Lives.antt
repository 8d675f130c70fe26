-- ===== src/Tests/Lives.antt =====
-- Whole histories of photos.
use dalm_backend.Expiration.{expire_due}
use dalm_backend.Models.{Photo, PhotoStatus, User, UserStatus, days, onboarding_required}
use dalm_backend.PhotoLife.{Grows, HasWindow}
use dalm_backend.PhotoLife.History.{
  Request, StaysAt, claim, create, expire, remove, result, run, run-Grows, run-HasWindow,
  run-StaysAt,
}
use dalm_backend.PhotoValidations.{
  apply_result, claim_job, claim_next, complete_job, next_job, passed,
}
use dalm_backend.Photos.{
  Upload, create_checked, create_photo, delete_photo, expire_stale_validations, get_user,
  store_upload, uploaded_photo,
}
use dalm_backend.Photos.Uploads.{IsUploaded, after_timeouts, create_photo_ok}
use dalm_backend.Prelude.{All, List, [], false, map, refl, some, ◌∷◌, ◌≡◌}
use dalm_backend.Store.{ok, request, satisfies_constraints}
use dalm_backend.Tests.Fixtures.{env, queued_db, unlocked, verdict}

abbrev upload : Upload
upload = record {
  photo_id = 13;
  user_id = 1;
  image_url = "u";
  storage_key = "c";
  checksum = "s";
  registered_date = 1;
  mock_passed = false;
}

-- A job is claimed and passes, a photo is uploaded and deleted again, another one expires.
abbrev history : List Request
history =
    claim (env 1 100) "w" 60 unlocked
    ∷ result (env 2 200) 21 (verdict passed)
    ∷ create (env 3 300) upload
    ∷ remove (env 4 400) 1 13
    ∷ expire (env 5 500) (days 8)
    ∷ []

run-Grows_example : Grows queued_db.photos (run history queued_db).photos
run-Grows_example = run-Grows history queued_db

run-HasWindow_example : All HasWindow (run history queued_db).photos
run-HasWindow_example = run-HasWindow history queued_db (tt, (tt, tt))

run-StaysAt_example : StaysAt queued_db.photos (run history queued_db).photos
run-StaysAt_example = run-StaysAt history queued_db

-- The history comes to its end: one photo has expired, one still waits, one is deleted.
history_ends :
    map (λ (p : Photo). p.status) (run history queued_db).photos
    ≡ PhotoStatus.expired ∷ PhotoStatus.validating ∷ PhotoStatus.deleted ∷ []
unfolding claim_next claim_job next_job apply_result complete_job create_photo create_checked
    expire_stale_validations delete_photo expire_due satisfies_constraints store_upload
history_ends = refl

abbrev uploaded : Photo
uploaded = uploaded_photo (env 3 300) upload

upload_accepted : (request (create_photo (env 3 300) upload) queued_db).0 ≡ ok uploaded
unfolding create_photo create_checked expire_stale_validations satisfies_constraints store_upload
upload_accepted = refl

create_photo_ok_example :
    (user : User) × (get_user 1 queued_db ≡ some user)
    × (user.status ≡ UserStatus.active)
    × (onboarding_required user ≡ false)
    × IsUploaded
        (env 3 300)
        upload
        uploaded
        (after_timeouts (env 3 300) 1 queued_db)
        (request (create_photo (env 3 300) upload) queued_db).1
create_photo_ok_example = create_photo_ok (env 3 300) upload uploaded queued_db upload_accepted
