-- ===== src/PhotoValidations/Retries.antt =====
-- What a worker's failure does to its job.
use native.Mathlib.Nat.{pow-suc}
use native.Mathlib.Numerals.{towards_suc}
use dalm_backend.Models.{
  DateTime, Photo, PhotoValidation, Uuid, ValidationStatus, embedding_status_eq,
  notification_type_eq, photo_status_eq, report_target_eq, term_type_eq, user_status_eq,
  validation_status_eq,
}
use dalm_backend.Pages.Keys.{later}
use dalm_backend.PhotoValidations.Claims.{claim_next, is_due}
use dalm_backend.PhotoValidations.Failures.{FailureRequest, record_failure, retried, retry_delay}
use dalm_backend.PhotoValidations.Leases.{NotDue, NotDue-next_job, claim_next_lem, update-NotDue}
use dalm_backend.PhotoValidations.Settled.{record_failure_settles}
use dalm_backend.Prelude.{
  ==_sound, All, All-select, Bool, String, [], ap, arith, false, inl, inr, nat_eq, option_eq,
  select, select-passes, some, string_eq, subst, sym, true, ℕ, ◌*◌, ◌+◌, ◌<◌, ◌==◌, ◌∙◌, ◌∷◌, ◌≡◌,
  ◌≢◌,
}
use dalm_backend.Store.{Db, Env, ok, request}

-- Each attempt doubles the delay before the next.
pub retry_delay_doubles : (base n : ℕ) → retry_delay base (n + 2) ≡ 2 * retry_delay base (n + 1)
unfolding retry_delay
retry_delay_doubles base n = simp towards_suc (grind (arith, pow-suc))

retried-is_due :
    (now later : DateTime) (lease base : ℕ) (b : FailureRequest) (w : PhotoValidation)
    → later < now + retry_delay base w.attempt_count
    → is_due later lease (retried now base b w) ≡ false
retried-is_due now later lease base b w h = ground arith

-- A failure that puts a claimed job back to wait keeps it waiting: no claim, by any worker and with
-- any lease and locks, is handed the job before the retry delay of its attempts has passed.
pub record_failure_waits :
    (e later : Env) (id : Uuid) (b : FailureRequest) (m base : ℕ) (worker : String) (lease : ℕ)
    (locked : Uuid → Bool) (db : Db) (v w v' : PhotoValidation) (p' : Photo)
    → select (λ (u : PhotoValidation). u.id == id) db.photo_validations ≡ v ∷ []
    → v.status ≡ ValidationStatus.processing
    → (request (record_failure e id b m base) db).0 ≡ ok w
    → w.status ≡ ValidationStatus.pending
    → later.now < e.now + retry_delay base v.attempt_count
    → let db' = (request (record_failure e id b m base) db).1 in
      (request (claim_next later worker lease locked) db').0 ≡ ok (some (v', p')) → v'.id ≢ v.id
record_failure_waits e later id b m base worker lease locked db v w v' p' found busy h waiting soon
      h' =
    let db' = (request (record_failure e id b m base) db).1 in
    let next = claim_next_lem later worker lease locked db' v' p' h' in
    elim (record_failure_settles e id b m base v w db found busy h).0 [
      | inl (again, same, written) ↦ λ k.
          NotDue-next_job v.id later.now lease locked db' next.0
            (subst (NotDue v.id later.now lease) (sym written)
              (update-NotDue v.id (retried e.now base b) later.now lease db only_v))
            next.1 (sym (ap (λ u. u.id) next.2) ∙ k)
      | inr (last, same, rows, gone) ↦ absurd (ground arith)
    ]
  where
    same_id : v.id ≡ id
    same_id =
        let passes : All (λ (u : PhotoValidation). (u.id == id) ≡ true) (v ∷ []) =
          rw found at (select-passes (λ (u : PhotoValidation). u.id == id) db.photo_validations) in
        ==_sound v.id id passes.0

    only_v :
        All
          (λ u. (u.id == v.id) ≡ true → is_due later.now lease (retried e.now base b u) ≡ false)
          db.photo_validations
    only_v = rw same_id (
        All-select (λ u. is_due later.now lease (retried e.now base b u) ≡ false)
          (λ (u : PhotoValidation). u.id == id) db.photo_validations
          (rw found (retried-is_due e.now later.now lease base b v soon, tt)))
