-- ===== src/Workers/Ends.antt =====
-- How a run of the validation worker ends, over the handlers and the queue behind them.
use dalm_backend.Http.Access.{verify_internal_key}
use dalm_backend.Http.Jobs.{ValidationJobData, claim_photo_validation, fail_photo_validation}
use dalm_backend.Models.{
  Photo, PhotoValidation, ValidationStatus, embedding_status_eq, notification_type_eq,
  photo_status_eq, report_target_eq, seconds, term_type_eq, user_status_eq, validation_status_eq,
}
use dalm_backend.Pages.Keys.{later}
use dalm_backend.PhotoValidations.{apply_result, claim_next, claimed, completed, is_due}
use dalm_backend.PhotoValidations.Leases.{claim_next_lem}
use dalm_backend.PhotoValidations.Settled.{
  IsSettled, apply_result-AllAre, record_failure_settles, verdict_photo_status,
}
use dalm_backend.PhotoValidations.Stored.{AllAre, IsStored}
use dalm_backend.Prelude.{
  Bool, String, [], arith, inl, inr, nat_eq, option_eq, refl, select, some, string_eq, subst, sym,
  true, ℕ, ◌+◌, ◌<◌, ◌==◌, ◌∷◌, ◌≡◌, ◌⊎◌,
}
use dalm_backend.Store.{Db, Result-cases, ok, request}
use dalm_backend.Workers.{
  Outcome, Provider, Raised, ValidationDecision, ValidationJob, ValidationProviderError, judge,
  raises, report_judgement, returns, run_validation_once, then_true,
}
use dalm_backend.Workers.Requests.{
  claimed_job_lem, fail_photo_validation-IsAtomic, post_result-IsAtomic, posted_failure,
  posted_result,
}
use dalm_backend.Workers.Served.{
  Endpoint, failure_body, http_backend, job_of, post_result, result_body,
}

-- What has become of a job that was judged or could not be: it is stored as completed and its photo
-- has the status of the verdict, or its failure is settled, by another attempt or for good.
abbrev pub HasEnded :
    Endpoint → String → ℕ → PhotoValidation → Outcome ValidationDecision → Db → Db → Type 0
HasEnded p worker elapsed v (returns d) db db' =
    AllAre v.photo_id (verdict_photo_status d.status) db'
    × IsStored (completed p.at_report.now (result_body p worker d elapsed) v) db'
HasEnded p worker elapsed v (raises (Raised.provider_error x)) db db' =
    (w : PhotoValidation) × IsSettled p.at_report (failure_body worker x)
      p.app.settings.validation_max_attempts p.app.settings.validation_retry_base_seconds v w db db'
    × IsStored w db'
HasEnded p worker elapsed v (raises (Raised.other_error x)) db db' = ⊥

-- The report has ended the job, or an exception has been raised and nothing was written.
abbrev pub IsReported :
    Endpoint
    → String
    → ℕ
    → PhotoValidation
    → Outcome ValidationDecision
    → Db
    → Outcome Bool × Db
    → Type 0
IsReported p worker elapsed v o db r =
    ((r.0 ≡ returns true) × HasEnded p worker elapsed v o db r.1)
    ⊎ ((x : Raised) × (r.0 ≡ raises x) × (r.1 ≡ db))

module _ (p : Endpoint) (worker : String) (elapsed : ℕ) (v : PhotoValidation) (db : Db)
    (row : select (λ (u : PhotoValidation). u.id == v.id) db.photo_validations ≡ v ∷ [])
    (busy : v.status ≡ ValidationStatus.processing) where
  completed_ends :
      (d : ValidationDecision)
      → IsReported p worker elapsed v
          (returns d)
          db
          (then_true ((http_backend p).complete v.id worker d elapsed db))
  completed_ends d =
      let body = result_body p worker d elapsed in
      elim (Result-cases (request (post_result p v.id body d.scores) db).0) [
        | inl (x, failed) ↦ inr (
          Raised.other_error x,
          rw failed refl,
          rw failed (post_result-IsAtomic p v.id body d.scores db x failed),
        )
        | inr (r, posted) ↦
            let (w, applied, same) = posted_result p v.id body d.scores db r posted in
            let ended =
              apply_result-AllAre p.at_report v.id body v w db row (ground arith) applied in
            let stored_row =
              subst (λ u. IsStored u (request (apply_result p.at_report v.id body) db).1) ended.0
                ended.2 in
            inl (
              rw posted refl,
              rw posted (
                  subst
                    (λ db'.
                      AllAre v.photo_id (verdict_photo_status d.status) db'
                      × IsStored (completed p.at_report.now body v) db')
                    (sym same) (ended.1, stored_row)),
            )
      ]

  failed_ends :
      (x : ValidationProviderError)
      → IsReported p worker elapsed v
          (raises (Raised.provider_error x))
          db
          (then_true ((http_backend p).fail v.id worker x db))
  failed_ends x =
      let body = failure_body worker x in
      let m = p.app.settings.validation_max_attempts in
      let base = p.app.settings.validation_retry_base_seconds in
      elim (Result-cases
        (request (fail_photo_validation p.app p.at_report v.id body p.internal_key) db).0) [
          | inl (y, failed) ↦ inr (
            Raised.other_error y,
            rw failed refl,
            rw failed (fail_photo_validation-IsAtomic p v.id body db y failed),
          )
          | inr (r, posted) ↦
              let (w, applied, same) = posted_failure p v.id body db r posted in
              let settled =
                subst (λ db'. IsSettled p.at_report body m base v w db db' × IsStored w db')
                  (sym same)
                  (record_failure_settles p.at_report v.id body m base v w db row busy applied) in
              inl (rw posted refl, rw posted (w, settled.0, settled.1))
        ]

  report_ends :
      (job : ValidationJob) (o : Outcome ValidationDecision)
      → job.job_id ≡ v.id
      → IsReported p worker elapsed v o db
          (report_judgement (http_backend p) worker elapsed job o db)
  unfolding report_judgement
  report_ends job (returns d) same =
      subst
        (λ id.
          IsReported p worker elapsed v (returns d) db
            (then_true ((http_backend p).complete id worker d elapsed db)))
        (sym same) (completed_ends d)
  report_ends job (raises (Raised.provider_error x)) same =
      subst
        (λ id.
          IsReported p worker elapsed v (raises (Raised.provider_error x)) db
            (then_true ((http_backend p).fail id worker x db)))
        (sym same) (failed_ends x)
  report_ends job (raises (Raised.other_error x)) same = inr (Raised.other_error x, refl, refl)

-- The ends of a run that claims a job: the handler has handed it out, the run answers that there was a
-- job, and the judgement of that job has ended it; or the run raises, the tables are as the claim left
-- them, and at a later time the job is due again.
abbrev pub RunEnds :
    Endpoint → Provider → String → ℕ → ℕ → PhotoValidation → Db → Db → Outcome Bool × Db → Type 0
RunEnds p provider worker elapsed later v db db' r =
    ((d : ValidationJobData) × ((request
          (claim_photo_validation p.app p.at_claim p.signed_url p.locked worker p.internal_key)
          db).0
        ≡ ok (some d))
      × (d.job_id ≡ v.id)
      × (r.0 ≡ returns true)
      × HasEnded p worker elapsed v (judge (http_backend p) provider (job_of d) db') db' r.1)
    ⊎ ((x : Raised) × (r.0 ≡ raises x)
        × (r.1 ≡ db')
        × (is_due later p.app.settings.validation_lease_seconds v ≡ true))

-- A run of the worker, over the handlers of the application and the queue behind them, that has the
-- key of the workers and claims a job which is the one row under its identifier. Either the run
-- answers that there was a job, and the job has come to its end: where the model gave a verdict,
-- the job is stored as completed and every photo of it searches or is rejected as the verdict says;
-- where the download or the model failed, the failure is settled, by another attempt later or for
-- good, and stored. Or the run raises, nothing was written after the claim, and the job may be
-- claimed again once its lease has run out.
pub run_validation_once_ends :
    (p : Endpoint) (provider : Provider) (worker : String) (elapsed later : ℕ) (v : PhotoValidation)
    (photo : Photo) (db : Db)
    → verify_internal_key p.app.settings.internal_api_key p.internal_key ≡ ok tt
    → let lease = p.app.settings.validation_lease_seconds in
      let db' = (request (claim_next p.at_claim worker lease p.locked) db).1 in
      (request (claim_next p.at_claim worker lease p.locked) db).0 ≡ ok (some (v, photo))
      → select (λ (u : PhotoValidation). u.id == v.id) db'.photo_validations ≡ v ∷ []
      → p.at_claim.now + seconds lease < later
      → RunEnds p provider worker elapsed later v db db'
          (run_validation_once (http_backend p) provider worker elapsed db)
unfolding run_validation_once
run_validation_once_ends p provider worker elapsed later v photo db key claimed row over =
    let lease = p.app.settings.validation_lease_seconds in
    let db' = (request (claim_next p.at_claim worker lease p.locked) db).1 in
    let first = claim_next_lem p.at_claim worker lease p.locked db v photo claimed in
    let due : is_due later lease v ≡ true = ground (arith, first.2) in
    let (same, ends) = claimed_job_lem p worker db v photo key claimed in
    elim ends [
      | inl (x, failed) ↦ inr (
        Raised.other_error x,
        rw (run_validation_once, failed) refl,
        rw (run_validation_once, failed) same,
        due,
      )
      | inr (d, handed, id) ↦
          let o = judge (http_backend p) provider (job_of d) db' in
          let run : run_validation_once (http_backend p) provider worker elapsed db
              ≡ report_judgement (http_backend p) worker elapsed (job_of d) o db' =
            rw (run_validation_once, handed, same) refl in
          subst (RunEnds p provider worker elapsed later v db db') (sym run)
            (elim (report_ends p worker elapsed v db' row (ground (arith, first.2)) (job_of d) o
              id) [
                | inl (answered, ended) ↦ inl (d, handed, id, answered, ended)
                | inr (x, raised, kept) ↦ inr (x, raised, kept, due)
              ])
    ]
