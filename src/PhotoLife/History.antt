-- ===== src/PhotoLife/History.antt =====
-- Whole histories: the requests and jobs that write photos, in any order.
use dalm_backend.Expiration.{expire_due}
use dalm_backend.Matching.{finalize_match}
use dalm_backend.Models.{
  Date, DateTime, Photo, PhotoStatus, Uuid, embedding_status_eq, notification_type_eq,
  photo_status_eq, report_target_eq, term_type_eq, user_status_eq, validation_status_eq,
}
use dalm_backend.PhotoLife.{Grows, Grows-HasWindow, Grows-refl, Grows-trans, HasWindow, can_become}
use dalm_backend.PhotoLife.Home.{create_photo-Grows, delete_photo-Grows, get_today_photo-Grows}
use dalm_backend.PhotoLife.Matches.{expire_due-Grows, finalize_match-Grows}
use dalm_backend.PhotoLife.Validations.{apply_result-Grows, claim_next-Grows, record_failure-Grows}
use dalm_backend.PhotoValidations.{
  FailureRequest, ResultRequest, apply_result, claim_next, record_failure,
}
use dalm_backend.Photos.{Upload, create_photo, delete_photo, get_today_photo}
use dalm_backend.Prelude.{
  All, All-intro, Bool, Extends, List, String, [], arith, nat_eq, option_eq, string_eq, true, ℕ,
  ◌==◌, ◌||◌, ◌∷◌, ◌≡◌,
}
use dalm_backend.Store.{Db, Env, request}

pub data Request : Type 0 where
  claim : Env → String → ℕ → (Uuid → Bool) → Request
  result : Env → Uuid → ResultRequest → Request
  failure : Env → Uuid → FailureRequest → ℕ → ℕ → Request
  today : Env → Uuid → Date → Request
  create : Env → Upload → Request
  remove : Env → Uuid → Uuid → Request
  expire : Env → DateTime → Request
  finish : Env → Uuid → Uuid → String → DateTime → Request

-- The database after one request.
abbrev pub step : Request → Db → Db
step (claim e worker lease locked) db = (request (claim_next e worker lease locked) db).1
step (result e id b) db = (request (apply_result e id b) db).1
step (failure e id b m base) db = (request (record_failure e id b m base) db).1
step (today e user day) db = (request (get_today_photo e user day) db).1
step (create e u) db = (request (create_photo e u) db).1
step (remove e user id) db = (request (delete_photo e user id) db).1
step (expire e now) db = (request (expire_due e now) db).1
step (finish e a b text now) db = (request (finalize_match e a b text now) db).1

abbrev pub run : List Request → Db → Db
run [] db = db
run (r ∷ rs) db = run rs (step r db)

step-Grows : (r : Request) (db : Db) → Grows db.photos (step r db).photos
step-Grows (claim e worker lease locked) db = claim_next-Grows e worker lease locked db
step-Grows (result e id b) db = apply_result-Grows e id b db
step-Grows (failure e id b m base) db = record_failure-Grows e id b m base db
step-Grows (today e user day) db = get_today_photo-Grows e user day db
step-Grows (create e u) db = create_photo-Grows e u db
step-Grows (remove e user id) db = delete_photo-Grows e user id db
step-Grows (expire e now) db = expire_due-Grows e now db
step-Grows (finish e a b text now) db = finalize_match-Grows e a b text now db

-- Over any sequence of requests that claim, complete or fail a validation, read today's photo,
-- upload, delete, expire or match photos, no photo is lost or reordered: each row keeps its
-- identifier, owner, day and registration time, its status only moves forward (`can_become`), and
-- it keeps its seven-day window; rows that are new come at the end and have their window.
pub run-Grows : (rs : List Request) (db : Db) → Grows db.photos (run rs db).photos
run-Grows [] db = Grows-refl db.photos
run-Grows (r ∷ rs) db =
    Grows-trans db.photos (step r db).photos (run rs (step r db)).photos (step-Grows r db)
      (run-Grows rs (step r db))

-- If every photo that searches, has matched or has expired has a search window that ends exactly
-- seven days after its registration, then so it is after any sequence of requests.
pub run-HasWindow :
    (rs : List Request) (db : Db) → All HasWindow db.photos → All HasWindow (run rs db).photos
run-HasWindow rs db h = Grows-HasWindow db.photos (run rs db).photos h (run-Grows rs db)

abbrev pub is_terminal : PhotoStatus → Bool
is_terminal s = s == PhotoStatus.matched || s == PhotoStatus.deleted

abbrev pub StaysAt : List Photo → List Photo → Type 0
StaysAt =
    Extends (λ p q. (q.id ≡ p.id) × (is_terminal p.status ≡ true → q.status ≡ p.status))
      (λ q. Unit {0})

Grows-StaysAt : (ps qs : List Photo) → Grows ps qs → StaysAt ps qs
Grows-StaysAt [] qs h = All-intro (λ q. Unit {0}) qs (λ q. tt)
Grows-StaysAt (p ∷ ps) [] h = elim h [ ]
Grows-StaysAt (p ∷ ps) (q ∷ qs) h =
    ((h.0.same_id, λ t. terminal p.status q.status t h.0.forward), Grows-StaysAt ps qs h.1)
  where
    terminal : (s t : PhotoStatus) → is_terminal s ≡ true → can_become s t ≡ true → t ≡ s
    terminal PhotoStatus.validating t h k = cc
    terminal PhotoStatus.rejected t h k = cc
    terminal PhotoStatus.searching t h k = cc
    terminal PhotoStatus.matched t h k = ground arith
    terminal PhotoStatus.expired t h k = cc
    terminal PhotoStatus.deleted t h k = ground arith

-- A photo that has matched or is deleted has that status after any sequence of requests: no later
-- result, failure, deletion, timeout, expiration or match changes it.
pub run-StaysAt : (rs : List Request) (db : Db) → StaysAt db.photos (run rs db).photos
run-StaysAt rs db = Grows-StaysAt db.photos (run rs db).photos (run-Grows rs db)
