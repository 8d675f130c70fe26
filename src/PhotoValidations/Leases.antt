-- ===== src/PhotoValidations/Leases.antt =====
-- Leases and delays: when a job may be claimed, and by how many.
use dalm_backend.Models.{
  DateTime, Photo, PhotoStatus, PhotoValidation, Uuid, ValidationStatus, embedding_status_eq,
  notification_type_eq, photo_status_eq, report_target_eq, seconds, term_type_eq, user_status_eq,
  validation_status_eq,
}
use dalm_backend.Pages.Keys.{later}
use dalm_backend.PhotoValidations.Claims.{
  claim_job, claim_next, claimed, created_before, is_claimable, is_due, next_job, update_validation,
}
use dalm_backend.Prelude.{
  All, All-intro, Bool, Option, Option-cases, String, ap, arith, false, head?-order_by, inl, inr,
  nat_eq, none, not, option_eq, quiet-head?, quiet-update_where, some, string_eq, subst, sym, true,
  ℕ, ◌&&◌, ◌+◌, ◌==◌, ◌∙◌, ◌≡◌, ◌≢◌, ◌≤◌, ◌⊎◌,
}
use dalm_backend.Store.{Db, Env, get_photo, ok, request}

created_before_total :
    (v w : PhotoValidation) → (created_before v w ≡ true) ⊎ (created_before w v ≡ true)
created_before_total v w = ground arith

created_before_trans :
    (u v w : PhotoValidation)
    → created_before u v ≡ true
    → created_before v w ≡ true
    → created_before u w ≡ true
created_before_trans u v w h k = ground arith

abbrev pub is_ready : DateTime → ℕ → (Uuid → Bool) → PhotoValidation → Bool
is_ready now lease locked v = is_due now lease v && not (locked v.id)

pub next_job-ready :
    (now : DateTime) (lease : ℕ) (locked : Uuid → Bool) (db : Db) (v : PhotoValidation)
    → next_job now lease locked db ≡ some v
    → (is_ready now lease locked v ≡ true)
      × All
          (λ w. is_ready now lease locked w ≡ true → created_before v w ≡ true)
          db.photo_validations
unfolding next_job
next_job-ready now lease locked db v h =
    head?-order_by created_before created_before_total created_before_trans
      (is_ready now lease locked) db.photo_validations v h

-- No job under this identifier is due.
abbrev pub NotDue : Uuid → DateTime → ℕ → Db → Type 0
NotDue id now lease db =
    All (λ w. (w.id == id) ≡ true → is_due now lease w ≡ false) db.photo_validations

-- A job that is not due is not picked.
pub NotDue-next_job :
    (id : Uuid) (now : DateTime) (lease : ℕ) (locked : Uuid → Bool) (db : Db) (v : PhotoValidation)
    → NotDue id now lease db
    → next_job now lease locked db ≡ some v
    → v.id ≢ id
unfolding next_job
NotDue-next_job id now lease locked db v h e same =
    let ready = next_job-ready now lease locked db v e in
    let not_due : is_due now lease v ≡ false =
      quiet-head? (λ w. w.id == id) (is_due now lease) (is_ready now lease locked) created_before
        db.photo_validations v h e (ground arith) in
    ground (arith, ready.0)

pub update-NotDue :
    (id : Uuid) (f : PhotoValidation → PhotoValidation) (now : DateTime) (lease : ℕ) (db : Db)
    → All (λ w. (w.id == id) ≡ true → is_due now lease (f w) ≡ false) db.photo_validations
    → NotDue id now lease (update_validation id f db)
update-NotDue id f now lease db k =
    quiet-update_where (λ w. w.id == id) (is_due now lease) f db.photo_validations k

claimed-is_due :
    (now later : DateTime) (lease : ℕ) (worker : String) (w : PhotoValidation)
    → later ≤ now + seconds lease
    → is_due later lease (claimed now worker w) ≡ false
claimed-is_due now later lease worker w h = ground arith

claim_job_lem :
    (e : Env) (worker : String) (v : PhotoValidation) (photo : Option Photo) (db : Db)
    (w : PhotoValidation) (p : Photo)
    → (request (claim_job e worker v photo) db).0 ≡ ok (some (w, p))
    → (w ≡ claimed e.now worker v)
      × (photo ≡ some p)
      × (is_claimable p ≡ true)
      × ((request (claim_job e worker v photo) db).1
          ≡ update_validation v.id (claimed e.now worker) db)
unfolding claim_job
claim_job_lem e worker v none db w p h = ground arith
claim_job_lem e worker v (some q) db w p h = ground arith

pub claim_next_lem :
    (e : Env) (worker : String) (lease : ℕ) (locked : Uuid → Bool) (db : Db) (w : PhotoValidation)
    (p : Photo)
    → (request (claim_next e worker lease locked) db).0 ≡ ok (some (w, p))
    → (v : PhotoValidation) × (next_job e.now lease locked db ≡ some v)
      × (w ≡ claimed e.now worker v)
      × (get_photo v.photo_id db ≡ some p)
      × (is_claimable p ≡ true)
      × ((request (claim_next e worker lease locked) db).1
          ≡ update_validation v.id (claimed e.now worker) db)
unfolding claim_next
claim_next_lem e worker lease locked db w p h =
    elim (Option-cases (next_job e.now lease locked db)) [
      | inl nothing ↦ absurd (ground arith)
      | inr (v, found) ↦
          let r = claim_job_lem e worker v (get_photo v.photo_id db) db w p (ground arith) in
          (v, found, r.0, r.1, r.2, rw found r.3)
    ]

-- A claim that succeeds hands out a job whose photo is still being validated, and which is now
-- processed by the worker that claims. Until the lease has run out, the claim that follows, by
-- any worker and under any locks, is not handed this job again.
pub claim_next_exclusive :
    (e later : Env) (worker other : String) (lease : ℕ) (locked locked' : Uuid → Bool) (db : Db)
    (v v' : PhotoValidation) (p p' : Photo)
    → (request (claim_next e worker lease locked) db).0 ≡ ok (some (v, p))
    → later.now ≤ e.now + seconds lease
    → let db' = (request (claim_next e worker lease locked) db).1 in
      (request (claim_next later other lease locked') db').0 ≡ ok (some (v', p'))
      → (p.status ≡ PhotoStatus.validating)
        × (v.status ≡ ValidationStatus.processing)
        × (v.worker_id ≡ some worker)
        × (v'.id ≢ v.id)
claim_next_exclusive e later worker other lease locked locked' db v v' p p' h soon h' =
    let first = claim_next_lem e worker lease locked db v p h in
    let db' = (request (claim_next e worker lease locked) db).1 in
    let second = claim_next_lem later other lease locked' db' v' p' h' in
    let quiet : NotDue first.0.id later.now lease db' =
      subst (NotDue first.0.id later.now lease) (sym first.5) (
        update-NotDue first.0.id (claimed e.now worker) later.now lease db (
          All-intro _ db.photo_validations
            (λ w _. claimed-is_due e.now later.now lease worker w soon))) in
    (
      ground (arith, first.4),
      ap (λ w. w.status) first.2,
      ap (λ w. w.worker_id) first.2,
      (λ same.
          NotDue-next_job first.0.id later.now lease locked' db' second.0 quiet second.1
            (sym (ap (λ w. w.id) second.2) ∙ same ∙ ap (λ w. w.id) first.2)),
    )
