-- ===== src/Store/Errors.antt =====
-- app/errors.py: what a request can raise. The message of an error is a fixed Korean text that goes
-- with its code, and is left out.
use dalm_backend.Prelude.{Bool, false, inl, inr, refl, true, ℕ, ◌≡◌, ◌⊎◌}

pub data Code : Type 0 where
  validation_job_not_found validation_already_completed validation_lease_lost : Code
  validation_not_processing photo_not_validating : Code
  embedding_job_not_found embedding_already_completed embedding_lease_lost : Code
  account_not_active onboarding_required today_photo_already_exists duplicate_photo : Code
  photo_conflict photo_not_found photo_not_owned photo_already_matched : Code
  photo_delete_not_allowed photo_not_searching : Code
  match_photo_not_found same_user_match match_candidate_changed search_period_expired : Code
  user_blocked same_photo_match match_explanation_required : Code
  match_not_found postcard_order_not_allowed postcard_reply_not_received : Code
  postcard_already_sent postcard_not_found invalid_postcard_content : Code
  cannot_report_self postcard_report_not_available report_target_not_found : Code
  report_already_exists cannot_block_self user_not_found user_already_blocked : Code
  notification_not_found onboarding_already_completed nickname_conflict : Code
  authentication_failed access_token_expired refresh_token_expired : Code
  account_restricted account_withdrawn : Code
  internal_api_not_configured invalid_internal_api_key invalid_nickname invalid_bio : Code
  profile_image_storage_not_configured required_terms_not_agreed empty_profile_update : Code
  invalid_access_token invalid_cursor authentication_required photo_access_denied : Code
  invalid_device_token empty_notification_settings : Code
  image_too_large unsupported_image_format image_content_type_mismatch : Code
  image_resolution_too_small invalid_image_ratio invalid_image : Code
  photo_storage_not_configured photo_object_conflict photo_storage_unavailable : Code

pub record ApiError : Type 0 where
  pub status_code : ℕ
  pub code : Code

-- `integrity_error`, `multiple_results_found` and `no_result_found` are SQLAlchemy's, the others
-- Python's.
pub data Error : Type 0 where
  api : ApiError → Error
  integrity_error multiple_results_found no_result_found value_error stop_iteration type_error :
      Error

pub data Result {ℓ} (A : Type ℓ) : Type ℓ where
  ok : A → Result A
  err : Error → Result A

abbrev pub api_error : ℕ → Code → Error
api_error n c = Error.api (record { status_code = n; code = c })

abbrev pub is_ok {ℓ} : {A : Type ℓ} → Result A → Bool
is_ok (ok a) = true
is_ok (err e) = false

pub Result-cases {ℓ} :
    {A : Type ℓ} (r : Result A) → ((x : Error) × (r ≡ err x)) ⊎ ((a : A) × (r ≡ ok a))
Result-cases (ok a) = inr (a, refl)
Result-cases (err x) = inl (x, refl)
