-- ===== src/PhotoLife/Validations.antt =====
-- The photos under the requests of the validation workers.
use dalm_backend.Models.{
  Photo, PhotoStatus, PhotoValidation, Uuid, embedding_status_eq, notification_type_eq,
  photo_status_eq, report_target_eq, term_type_eq, user_status_eq, validation_status_eq,
}
use dalm_backend.PhotoLife.{Advances, Grows, Grows-refl, update_found-Grows}
use dalm_backend.PhotoValidations.{
  FailureRequest, ResultRequest, apply_result, claim_job, claim_next, complete_job, fail_job,
  failed_photo, judged, next_job, record_failure,
}
use dalm_backend.Prelude.{
  Bool, Option, Option-cases, Rows-cases, String, arith, inl, inr, nat_eq, none, option_eq, select,
  some, string_eq, ℕ, ◌==◌, ◌≡◌,
}
use dalm_backend.Store.{Db, Env, get_photo, request, start}

judged-Advances :
    (b : ResultRequest) (p : Photo) → p.status ≡ PhotoStatus.validating → Advances p (judged b p)
judged-Advances b p h = ground arith

failed_photo-Advances :
    (p : Photo) → p.status ≡ PhotoStatus.validating → Advances p (failed_photo p)
failed_photo-Advances p h = ground arith

complete_job-Grows :
    (e : Env) (b : ResultRequest) (v : PhotoValidation) (db : Db)
    → Grows db.photos (complete_job e b v (start db)).1.committed.photos
unfolding complete_job
complete_job-Grows e b v db =
    elim (Rows-cases (select (λ (p : Photo). p.id == v.photo_id) db.photos)) [
      | inl none_found ↦ ground (arith, Grows-refl db.photos)
      | inr (inl (p, found)) ↦ ground (
        arith,
        Grows-refl db.photos,
        judged-Advances b p,
        update_found-Grows v.photo_id p (judged b) db.photos found,
      )
      | inr (inr (p, q, r, many)) ↦ ground (arith, Grows-refl db.photos)
    ]

-- A result moves its photo forward, or leaves the photos alone.
pub apply_result-Grows :
    (e : Env) (id : Uuid) (b : ResultRequest) (db : Db)
    → Grows db.photos (request (apply_result e id b) db).1.photos
unfolding apply_result
apply_result-Grows e id b db =
    elim (Rows-cases (select (λ (v : PhotoValidation). v.id == id) db.photo_validations)) [
      | inl none_found ↦ ground (arith, Grows-refl db.photos)
      | inr (inl (v, found)) ↦ ground (arith, Grows-refl db.photos, complete_job-Grows e b v db)
      | inr (inr (v, w, r, many)) ↦ ground (arith, Grows-refl db.photos)
    ]

fail_job-Grows :
    (e : Env) (b : FailureRequest) (m base : ℕ) (v : PhotoValidation) (db : Db)
    → Grows db.photos (fail_job e b m base v (start db)).1.committed.photos
unfolding fail_job
fail_job-Grows e b m base v db =
    elim (Rows-cases (select (λ (p : Photo). p.id == v.photo_id) db.photos)) [
      | inl none_found ↦ ground (arith, Grows-refl db.photos)
      | inr (inl (p, found)) ↦ ground (
        arith,
        Grows-refl db.photos,
        failed_photo-Advances p,
        update_found-Grows v.photo_id p failed_photo db.photos found,
      )
      | inr (inr (p, q, r, many)) ↦ ground (arith, Grows-refl db.photos)
    ]

-- A failure moves the photo forward, or leaves the photos alone.
pub record_failure-Grows :
    (e : Env) (id : Uuid) (b : FailureRequest) (m base : ℕ) (db : Db)
    → Grows db.photos (request (record_failure e id b m base) db).1.photos
unfolding record_failure
record_failure-Grows e id b m base db =
    elim (Rows-cases (select (λ (v : PhotoValidation). v.id == id) db.photo_validations)) [
      | inl none_found ↦ ground (arith, Grows-refl db.photos)
      | inr (inl (v, found)) ↦ ground (arith, Grows-refl db.photos, fail_job-Grows e b m base v db)
      | inr (inr (v, w, r, many)) ↦ ground (arith, Grows-refl db.photos)
    ]

claim_job-Grows :
    (e : Env) (worker : String) (v : PhotoValidation) (p : Option Photo) (db : Db)
    → Grows db.photos (claim_job e worker v p (start db)).1.committed.photos
unfolding claim_job
claim_job-Grows e worker v none db = ground (arith, Grows-refl db.photos)
claim_job-Grows e worker v (some p) db = ground (arith, Grows-refl db.photos)

-- A claim touches no photo.
pub claim_next-Grows :
    (e : Env) (worker : String) (lease : ℕ) (locked : Uuid → Bool) (db : Db)
    → Grows db.photos (request (claim_next e worker lease locked) db).1.photos
unfolding claim_next
claim_next-Grows e worker lease locked db = elim (Option-cases (next_job e.now lease locked db)) [
  | inl e1 ↦ rw e1 (Grows-refl db.photos)
  | inr (v, e1) ↦ rw e1 (claim_job-Grows e worker v (get_photo v.photo_id db) db)
]
