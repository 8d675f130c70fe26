-- ===== src/PhotoValidations/Settled.antt =====
-- What the end of a validation job means for its photo.
use dalm_backend.Models.{
  Photo, PhotoStatus, PhotoValidation, Uuid, ValidationStatus, embedding_status_eq,
  notification_type_eq, photo_status_eq, report_target_eq, term_type_eq, user_status_eq,
  validation_status_eq,
}
use dalm_backend.Notifications.{add_notification, event_notification}
use dalm_backend.PhotoValidations.Claims.{update_validation}
use dalm_backend.PhotoValidations.Failures.{
  FailureRequest, fail_job, failed_photo, given_up, record_failure, reject_photo, retried,
}
use dalm_backend.PhotoValidations.Results.{
  ResultRequest, Verdict, apply_result, complete_job, completed, is_open, judged, passed,
  queue_embedding, rejected, verdict_notification, write_result,
}
use dalm_backend.PhotoValidations.Stored.{AllAre, IsStored, NoneAre, found-id, update-IsStored}
use dalm_backend.Prelude.{
  All-select, Bool-cases, Rows-cases, [], ap, arith, false, inl, inr, ltb, nat_eq, option_eq, refl,
  select, string_eq, subst, sym, true, update_where-All, ℕ, ◌&&◌, ◌==◌, ◌∙◌, ◌∷◌, ◌≡◌, ◌≢◌, ◌⊎◌,
}
use dalm_backend.Store.{Db, Env, ok, request, update_photo}

abbrev pub verdict_photo_status : Verdict → PhotoStatus
verdict_photo_status passed = PhotoStatus.searching
verdict_photo_status rejected = PhotoStatus.rejected

judged-status :
    (b : ResultRequest) (p : Photo) → (judged b p).status ≡ verdict_photo_status b.status
judged-status b p = ground arith

write_result-AllAre :
    (e : Env) (b : ResultRequest) (v : PhotoValidation) (p : Photo) (db : Db)
    → AllAre p.id (verdict_photo_status b.status) (write_result e b v p db)
write_result-AllAre e b v p db =
    elim (b.status)
      as (λ s. AllAre p.id (verdict_photo_status b.status) (
        add_notification (event_notification e (e.uuid4 1) p.user_id (verdict_notification s) p.id)
          (queue_embedding e s p
            (update_photo p.id (judged b) (update_validation v.id (completed e.now b) db))))) [
              | passed ↦ done
              | rejected ↦ done
            ]
  where
    done : AllAre p.id (verdict_photo_status b.status) (update_photo p.id (judged b) db)
    done =
        update_where-All (λ q. q.status ≡ verdict_photo_status b.status) (λ q. q.id == p.id)
          (judged b) db.photos (judged-status b)

write_result-rows :
    (e : Env) (b : ResultRequest) (v : PhotoValidation) (p : Photo) (db : Db)
    → (write_result e b v p db).photo_validations
      ≡ (update_validation v.id (completed e.now b) db).photo_validations
write_result-rows e b v p db =
    elim (b.status)
      as (λ s.
        (add_notification (event_notification e (e.uuid4 1) p.user_id (verdict_notification s) p.id)
          (queue_embedding e s p (
            update_photo p.id (judged b)
              (update_validation v.id (completed e.now b) db)))).photo_validations
        ≡ (update_validation v.id (completed e.now b) db).photo_validations) [
          | passed ↦ refl
          | rejected ↦ refl
        ]

complete_job_written :
    (e : Env) (b : ResultRequest) (v w : PhotoValidation) (p : Photo) (db : Db)
    → select (λ (q : Photo). q.id == v.photo_id) db.photos ≡ p ∷ []
    → (request (complete_job e b v) db).0 ≡ ok w
    → (w ≡ completed e.now b v) × ((request (complete_job e b v) db).1 ≡ write_result e b v p db)
unfolding complete_job
complete_job_written e b v w p db found h = ground arith

complete_job_ok :
    (e : Env) (b : ResultRequest) (v w : PhotoValidation) (db : Db)
    → (request (complete_job e b v) db).0 ≡ ok w
    → (w ≡ completed e.now b v)
      × AllAre v.photo_id (verdict_photo_status b.status) (request (complete_job e b v) db).1
      × ((request (complete_job e b v) db).1.photo_validations
          ≡ (update_validation v.id (completed e.now b) db).photo_validations)
unfolding complete_job
complete_job_ok e b v w db h =
    elim (Rows-cases (select (λ (p : Photo). p.id == v.photo_id) db.photos)) [
      | inl none_found ↦ absurd (ground arith)
      | inr (inl (p, found)) ↦
          let r = complete_job_written e b v w p db found h in
          (
            r.0,
            subst
                (λ k. AllAre k (verdict_photo_status b.status) (request (complete_job e b v) db).1)
                (found-id v.photo_id p db found)
                (subst (λ db'. AllAre p.id (verdict_photo_status b.status) db') (sym r.1)
                  (write_result-AllAre e b v p db)),
            ap (λ db'. db'.photo_validations) r.1 ∙ write_result-rows e b v p db,
          )
      | inr (inr (p, q, r, many)) ↦ absurd (ground arith)
    ]

reject_photo-NoneAre :
    (e : Env) (id : Uuid) (p : Photo) (db : Db)
    → select (λ (q : Photo). q.id == id) db.photos ≡ p ∷ []
    → NoneAre id PhotoStatus.validating (reject_photo e p db)
reject_photo-NoneAre e id p db found = elim (Bool-cases (p.status == PhotoStatus.validating)) [
  | inl e1 ↦ rw e1 (
      subst (λ k. NoneAre k PhotoStatus.validating (update_photo p.id failed_photo db))
        (found-id id p db found)
        (update_where-All (λ q. q.status ≢ PhotoStatus.validating) (λ q. q.id == p.id) failed_photo
          db.photos (λ q k. ground arith)))
  | inr e1 ↦ rw e1 (
      All-select (λ q. q.status ≢ PhotoStatus.validating) (λ q. q.id == id) db.photos
        (rw found (other e1, tt)))
]
  where
    other : (p.status == PhotoStatus.validating) ≡ false → p.status ≢ PhotoStatus.validating
    other k = ground arith

reject_photo-rows :
    (e : Env) (p : Photo) (db : Db) → (reject_photo e p db).photo_validations ≡ db.photo_validations
reject_photo-rows e p db = elim (Bool-cases (p.status == PhotoStatus.validating)) [
  | inl h ↦ rw h refl
  | inr h ↦ rw h refl
]

fail_job_written :
    (e : Env) (b : FailureRequest) (m base : ℕ) (v w : PhotoValidation) (p : Photo) (db : Db)
    → select (λ (q : Photo). q.id == v.photo_id) db.photos ≡ p ∷ []
    → (b.retryable && ltb v.attempt_count m) ≡ false
    → (request (fail_job e b m base v) db).0 ≡ ok w
    → (w ≡ given_up e.now b v)
      × ((request (fail_job e b m base v) db).1
          ≡ reject_photo e p (update_validation v.id (given_up e.now b) db))
unfolding fail_job
fail_job_written e b m base v w p db found last h = ground arith

-- The two outcomes of a failure: another attempt, or the end of the job.
abbrev pub IsSettled :
    Env → FailureRequest → ℕ → ℕ → PhotoValidation → PhotoValidation → Db → Db → Type 0
IsSettled e b m base v w db db' =
    (((b.retryable && ltb v.attempt_count m) ≡ true)
      × (w ≡ retried e.now base b v)
      × (db' ≡ update_validation v.id (retried e.now base b) db))
    ⊎ (((b.retryable && ltb v.attempt_count m) ≡ false)
        × (w ≡ given_up e.now b v)
        × (db'.photo_validations ≡ (update_validation v.id (given_up e.now b) db).photo_validations)
        × NoneAre v.photo_id PhotoStatus.validating db')

fail_job_ok :
    (e : Env) (b : FailureRequest) (m base : ℕ) (v w : PhotoValidation) (db : Db)
    → (request (fail_job e b m base v) db).0 ≡ ok w
    → IsSettled e b m base v w db (request (fail_job e b m base v) db).1
unfolding fail_job
fail_job_ok e b m base v w db h = elim (Bool-cases (b.retryable && ltb v.attempt_count m)) [
  | inl again ↦ inl (ground arith)
  | inr last ↦ elim (Rows-cases (select (λ (p : Photo). p.id == v.photo_id) db.photos)) [
    | inl none_found ↦ absurd (ground arith)
    | inr (inl (p, found)) ↦
        let r = fail_job_written e b m base v w p db found last h in
        inr (
          last,
          r.0,
          ap (λ db'. db'.photo_validations) r.1
              ∙ reject_photo-rows e p (update_validation v.id (given_up e.now b) db),
          subst (λ db'. NoneAre v.photo_id PhotoStatus.validating db') (sym r.1)
              (reject_photo-NoneAre e v.photo_id p (update_validation v.id (given_up e.now b) db)
                found),
        )
    | inr (inr (p, q, r, many)) ↦ absurd (ground arith)
  ]
]

-- After a result is accepted for a job that is open, the answer is the job as `completed` leaves
-- it, which is the one row under its identifier, and every photo of the job searches, or every one
-- is rejected, as the verdict says.
pub apply_result-AllAre :
    (e : Env) (id : Uuid) (b : ResultRequest) (v w : PhotoValidation) (db : Db)
    → select (λ (u : PhotoValidation). u.id == id) db.photo_validations ≡ v ∷ []
    → is_open v ≡ true
    → (request (apply_result e id b) db).0 ≡ ok w
    → (w ≡ completed e.now b v)
      × AllAre v.photo_id (verdict_photo_status b.status) (request (apply_result e id b) db).1
      × IsStored w (request (apply_result e id b) db).1
unfolding apply_result
apply_result-AllAre e id b v w db found is_waiting h =
    let (h', same) = accepted in
    let r = complete_job_ok e b v w db h' in
    (
      r.0,
      subst (λ db'. AllAre v.photo_id (verdict_photo_status b.status) db') (sym same) r.1,
      subst (λ u. IsStored u (request (apply_result e id b) db).1) (sym r.0)
          (update-IsStored id (completed e.now b) v db (request (apply_result e id b) db).1
            (λ u. refl) found (ap (λ db'. db'.photo_validations) same ∙ r.2)),
    )
  where
    accepted :
        ((request (complete_job e b v) db).0 ≡ ok w)
        × ((request (apply_result e id b) db).1 ≡ (request (complete_job e b v) db).1)
    accepted = ground arith

settled-IsStored :
    (e : Env) (id : Uuid) (b : FailureRequest) (m base : ℕ) (v w : PhotoValidation) (db db' : Db)
    → select (λ (u : PhotoValidation). u.id == id) db.photo_validations ≡ v ∷ []
    → IsSettled e b m base v w db db'
    → IsStored w db'
settled-IsStored e id b m base v w db db' found (inl (again, same, written)) =
    subst (λ u. IsStored u db') (sym same)
      (update-IsStored id (retried e.now base b) v db db' (λ u. refl) found
        (ap (λ d. d.photo_validations) written))
settled-IsStored e id b m base v w db db' found (inr (last, same, rows, gone)) =
    subst (λ u. IsStored u db') (sym same)
      (update-IsStored id (given_up e.now b) v db db' (λ u. refl) found rows)

-- A failure that is accepted for a job under its lease: while it may be retried and attempts are
-- left, the job waits for `retry_delay` more and nothing else changes; else the job is given up, the
-- other jobs stay as they are, and no photo of the job is left validating. Either way the answer is
-- the one row that the table then has under the identifier.
pub record_failure_settles :
    (e : Env) (id : Uuid) (b : FailureRequest) (m base : ℕ) (v w : PhotoValidation) (db : Db)
    → select (λ (u : PhotoValidation). u.id == id) db.photo_validations ≡ v ∷ []
    → v.status ≡ ValidationStatus.processing
    → (request (record_failure e id b m base) db).0 ≡ ok w
    → IsSettled e b m base v w db (request (record_failure e id b m base) db).1
      × IsStored w (request (record_failure e id b m base) db).1
unfolding record_failure
record_failure_settles e id b m base v w db found busy h =
    let (h', same) = accepted in
    let settled =
      subst (λ db'. IsSettled e b m base v w db db') (sym same)
        (fail_job_ok e b m base v w db h') in
    (
      settled,
      settled-IsStored e id b m base v w db (request (record_failure e id b m base) db).1 found
          settled,
    )
  where
    accepted :
        ((request (fail_job e b m base v) db).0 ≡ ok w)
        × ((request (record_failure e id b m base) db).1 ≡ (request (fail_job e b m base v) db).1)
    accepted = ground arith
