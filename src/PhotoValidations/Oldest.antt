-- ===== src/PhotoValidations/Oldest.antt =====
-- Which job is handed out.
use dalm_backend.Models.{
  DateTime, PhotoValidation, Uuid, ValidationStatus, embedding_status_eq, notification_type_eq,
  photo_status_eq, report_target_eq, seconds, term_type_eq, user_status_eq, validation_status_eq,
}
use dalm_backend.Prelude.{
  All, Bool, List, Option, false, nat_eq, none, option_eq, some, string_eq, ℕ, ◌+◌, ◌<◌, ◌≡◌, ◌≤◌,
  ◌⊎◌,
}

-- A job that may be handed out at a time: no other transaction holds it, and it waits without a
-- delay or with one that is over, or is processed under a lease that has run out.
abbrev pub IsReady : DateTime → ℕ → (Uuid → Bool) → PhotoValidation → Type 0
IsReady now lease locked v =
    (locked v.id ≡ false)
    × (((v.status ≡ ValidationStatus.pending)
          × ((v.next_attempt_at ≡ none)
              ⊎ ((t : DateTime) × (v.next_attempt_at ≡ some t) × (t ≤ now))))
        ⊎ ((v.status ≡ ValidationStatus.processing)
            × (t : DateTime) × (v.started_at ≡ some t)
            × (t + seconds lease < now)))

-- Created earlier, or at the same time under an identifier that is not greater.
abbrev pub IsOlder : PhotoValidation → PhotoValidation → Type 0
IsOlder v w = (v.created_at < w.created_at) ⊎ ((v.created_at ≡ w.created_at) × (v.id ≤ w.id))

-- What a choice of a job means: nothing is chosen where no job is ready; else a ready job is, and it is
-- older than every other ready job.
abbrev pub IsOldest :
    DateTime → ℕ → (Uuid → Bool) → List PhotoValidation → Option PhotoValidation → Type 0
IsOldest now lease locked vs none = All (λ v. ¬ (IsReady now lease locked v)) vs
IsOldest now lease locked vs (some v) =
    IsReady now lease locked v × All (λ w. IsReady now lease locked w → IsOlder v w) vs
