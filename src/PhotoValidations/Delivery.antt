-- ===== src/PhotoValidations/Delivery.antt =====
-- Results that are delivered again.
use dalm_backend.Models.{
  Photo, PhotoValidation, Uuid, embedding_status_eq, notification_type_eq, photo_status_eq,
  report_target_eq, term_type_eq, user_status_eq, validation_status_eq,
}
use dalm_backend.PhotoValidations.Results.{
  ResultRequest, Verdict, apply_result, complete_job, completed, passed, rejected, verdict_status,
}
use dalm_backend.Prelude.{
  ==_sound, All, Rows-cases, [], ap, arith, inl, inr, nat_eq, option_eq, select, select-passes,
  select-update_found, string_eq, sym, true, update_where, ◌==◌, ◌∙◌, ◌∷◌, ◌≡◌, ◌≢◌,
}
use dalm_backend.Store.{Code, Db, Env, api_error, err, ok, request}

-- A job that has been completed under an identifier.
abbrev pub IsDone : Uuid → Verdict → PhotoValidation → Db → Type 0
IsDone id s v db =
    (select (λ (w : PhotoValidation). w.id == id) db.photo_validations ≡ v ∷ [])
    × (v.status ≡ verdict_status s)

same_done :
    (e : Env) (id : Uuid) (b : ResultRequest) (v : PhotoValidation) (db : Db)
    → IsDone id b.status v db
    → request (apply_result e id b) db ≡ (ok v, db)
unfolding apply_result
same_done e id b v db h = ground arith

complete_job-IsDone :
    (e : Env) (id : Uuid) (b : ResultRequest) (v w : PhotoValidation) (db : Db)
    → select (λ (u : PhotoValidation). u.id == id) db.photo_validations ≡ v ∷ []
    → (request (complete_job e b v) db).0 ≡ ok w
    → IsDone id b.status w (request (complete_job e b v) db).1
unfolding complete_job
complete_job-IsDone e id b v w db found h =
    elim (Rows-cases (select (λ (p : Photo). p.id == v.photo_id) db.photos)) [
      | inl none_found ↦ ground arith
      | inr (inl (p, one)) ↦ ground (arith, written, passes.0)
      | inr (inr (p, q, r, many)) ↦ ground arith
    ]
  where
    passes : All (λ (u : PhotoValidation). (u.id == id) ≡ true) (v ∷ [])
    passes = rw found at (select-passes (λ (u : PhotoValidation). u.id == id) db.photo_validations)

    written :
        select
          (λ (u : PhotoValidation). u.id == id)
          (update_where (λ u. u.id == v.id) (completed e.now b) db.photo_validations)
        ≡ completed e.now b v ∷ []
    written =
        select-update_found (λ (u : PhotoValidation). u.id == id) (λ u. u.id == v.id)
          (completed e.now b) db.photo_validations v
          (λ u. ap (λ k. u.id == k) (==_sound v.id id passes.0)) (λ u k. k) found

other_done :
    (e : Env) (id : Uuid) (b : ResultRequest) (s : Verdict) (v : PhotoValidation) (db : Db)
    → IsDone id s v db
    → b.status ≢ s
    → request (apply_result e id b) db ≡ (err (api_error 409 Code.validation_already_completed), db)
unfolding apply_result
other_done e id b passed v db h other = ground arith
other_done e id b rejected v db h other = ground arith

apply_result-IsDone :
    (e : Env) (id : Uuid) (b : ResultRequest) (v : PhotoValidation) (db : Db)
    → (request (apply_result e id b) db).0 ≡ ok v
    → IsDone id b.status v (request (apply_result e id b) db).1
unfolding apply_result
apply_result-IsDone e id b v db h =
    elim (Rows-cases (select (λ (w : PhotoValidation). w.id == id) db.photo_validations)) [
      | inl none_found ↦ ground arith
      | inr (inl (w, found)) ↦ ground (arith, complete_job-IsDone e id b w v db found)
      | inr (inr (w, u, r, many)) ↦ ground arith
    ]

-- A result that has been accepted may be delivered again, by anyone and at any time: the answer is
-- the same row, and nothing is written. The opposite verdict is refused as already completed, and
-- nothing is written either.
pub apply_result_again :
    (e e' : Env) (id : Uuid) (b b' : ResultRequest) (v : PhotoValidation) (db : Db)
    → (request (apply_result e id b) db).0 ≡ ok v
    → let db' = (request (apply_result e id b) db).1 in
      (b'.status ≡ b.status → request (apply_result e' id b') db' ≡ (ok v, db'))
      × (b'.status ≢ b.status
          → request (apply_result e' id b') db'
            ≡ (err (api_error 409 Code.validation_already_completed), db'))
apply_result_again e e' id b b' v db h =
    let done = apply_result-IsDone e id b v db h in
    let db' = (request (apply_result e id b) db).1 in
    (
      (λ same. same_done e' id b' v db' (done.0, done.1 ∙ ap verdict_status (sym same))),
      (λ other. other_done e' id b' b.status v db' done other),
    )
